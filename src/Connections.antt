-- ===== src/Connections.antt =====
-- gossip/strats/connection_manager.go: the peers of a node, in three classes.
--
-- A `*gossipConnection` is shared by a map and a slice, so it is an object on a store: `Peer` is
-- the pointer together with the field `connection`, which is never assigned again, and the store
-- gives the fields `timestamp` and `sentPowReq`, which are. A Go map is an association list with
-- one entry for a key; the order in which Go walks a map is not fixed, and is the list's here.
-- The mutex is held for the whole of each method, so a method is one step. Times are nanoseconds.
pub mod Maps
pub mod Swap
pub mod Inv
pub mod Steps
pub mod Run
pub mod Classes
pub mod Examples
use whisper2peer.Base.{
  ℕ, suc, ◌+◌, ◌-◌, Bool, true, false, Option, none, some, List, [], ◌∷◌, ◌++◌, ite, Bytes,
  bytes_discrete, get_elem?, set, take, length, min, ◌==◌, if◌then◌else◌,
}
use Maps.{GoMap, get, put, delete}

abbrev pub ConnectionId : Type 0
ConnectionId = Bytes

-- `horizontalapi.Conn`: the channel, the context and its cancel function belong to one connection,
-- and `chan` names them.
pub record Conn : Type 0 where
  pub id : ConnectionId
  pub chan : ℕ

-- A pointer to a `gossipConnection`, with the field `connection` behind it.
pub record Peer : Type 0 where
  pub ptr : ℕ
  pub connection : Conn

-- The fields of a `gossipConnection` that are assigned.
pub record Status : Type 0 where
  pub timestamp : ℕ
  pub sent_pow_req : Bool

abbrev pub fresh_status : Status
fresh_status = record { timestamp = 0; sent_pow_req = false }

pub record Manager : Type 0 where
  pub store : ℕ → Status
  -- The number of objects made so far, and so the next pointer.
  pub objects : ℕ
  pub to_be_proved : GoMap Peer
  pub open_connections : List Peer
  pub open_map : GoMap Peer
  pub pow_in_progress : GoMap Peer

abbrev pub write : (ℕ → Status) → ℕ → Status → ℕ → Status
write store p s q = if p == q then s else store q

-- `&gossipConnection{connection: conn}`.
unfoldable pub alloc : Manager → Conn → Manager × Peer
alloc m conn = (
  record m { store = write m.store m.objects fresh_status; objects = suc m.objects },
  record { ptr = m.objects; connection = conn },
)

abbrev pub empty_manager : Manager
empty_manager = record {
  store = λ _. fresh_status;
  objects = 0;
  to_be_proved = [];
  open_connections = [];
  open_map = [];
  pow_in_progress = [];
}

-- The loop of `NewConnectionManager`.
add_to_be_proved : Manager → List Conn → Manager
unfolding alloc
add_to_be_proved m [] = m
add_to_be_proved m (conn ∷ conns) =
    let (m', peer) = alloc m conn in
    add_to_be_proved (record m' { to_be_proved = put conn.id peer m'.to_be_proved }) conns

unfoldable pub new_connection_manager : List Conn → Manager
unfolding add_to_be_proved
new_connection_manager conns = add_to_be_proved empty_manager conns

abbrev pub find_to_be_proved : Manager → ConnectionId → Option Peer
find_to_be_proved m id = get id m.to_be_proved

abbrev pub find_in_progress : Manager → ConnectionId → Option Peer
find_in_progress m id = get id m.pow_in_progress

abbrev pub find_valid : Manager → ConnectionId → Option Peer
find_valid m id = get id m.open_map

-- `s[i] = s[len(s)-1]; s = s[:len(s)-1]`.
unfoldable pub swap_remove {ℓ} : {A : Type ℓ} → List A → ℕ → List A
swap_remove s i = elim (get_elem? s (length s - 1)) [
  | none ↦ s
  | some last ↦ take (length s - 1) (set s i last)
]

-- The search of `unsafeRemove` in the slice, from index `i` on.
pub index_of : ConnectionId → ℕ → List Peer → Option ℕ
index_of id i [] = none
index_of id i (p ∷ ps) = ite (bytes_discrete p.connection.id id) (some i) (index_of id (suc i) ps)

-- The last part of `unsafeRemove`: the connection leaves the map, and the slice.
pub remove_valid : Manager → ConnectionId → Manager × Option Peer
unfolding index_of
remove_valid m id = elim (get id m.open_map) [
  | none ↦ (m, none)
  | some peer ↦
      let m' = record m { open_map = delete id m.open_map } in
      elim (index_of id 0 m.open_connections) [
        | none ↦ (m', none)
        | some i ↦ (record m' { open_connections = swap_remove m.open_connections i }, some peer)
      ]
]

-- `none` is the error.
unfoldable pub unsafe_remove : Manager → ConnectionId → Manager × Option Peer
unfolding remove_valid
unsafe_remove m id = elim (get id m.to_be_proved) [
  | some peer ↦ (record m { to_be_proved = delete id m.to_be_proved }, some peer)
  | none ↦ elim (get id m.pow_in_progress) [
    | some peer ↦ (record m { pow_in_progress = delete id m.pow_in_progress }, some peer)
    | none ↦ remove_valid m id
  ]
]

abbrev pub set_timestamp : Manager → Peer → ℕ → Manager
set_timestamp m peer timestamp = record m {
  store =
      write m.store peer.ptr
        (record { timestamp = timestamp; sent_pow_req = (m.store peer.ptr).sent_pow_req });
}

-- The `else` branch of `MakeValid`, behind `unsafeRemove`.
admit : ConnectionId → ℕ → Manager × Option Peer → Manager
admit id timestamp (m, none) = m
admit id timestamp (m, some peer) =
    let m' =
      set_timestamp (record m { open_connections = m.open_connections ++ peer ∷ [] }) peer
        timestamp in
    record m' { open_map = put id peer m'.open_map }

unfoldable pub make_valid : Manager → ConnectionId → ℕ → Manager
unfolding admit
make_valid m id timestamp = elim (get id m.open_map) [
  | some peer ↦ set_timestamp m peer timestamp
  | none ↦ admit id timestamp (unsafe_remove m id)
]

unfoldable pub add_in_progress : Manager → Peer → Manager
add_in_progress m peer = record m {
  pow_in_progress = put peer.connection.id peer m.pow_in_progress;
}

-- The first loop of `CullConnections`, from index `i` on: the map without the peers that `f`
-- picks, and their indices.
pub mark_culled : (Peer → Bool) → ℕ → List Peer → GoMap Peer → GoMap Peer × List ℕ
mark_culled f i [] m = (m, [])
mark_culled f i (p ∷ ps) m =
    let (m', rest) = mark_culled f (suc i) ps (if f p then delete p.connection.id m else m) in
    (m', if f p then i ∷ rest else rest)

-- The second loop, which goes through the indices from the last to the first.
pub remove_marked : List ℕ → List Peer → List Peer
remove_marked [] s = s
remove_marked (i ∷ is) s = swap_remove (remove_marked is s) i

-- `f` reads the fields of the object through the store.
unfoldable pub cull_connections : Manager → (Peer → Status → Bool) → Manager
unfolding mark_culled remove_marked
cull_connections m f =
    let (marked, is) = mark_culled (λ p. f p (m.store p.ptr)) 0 m.open_connections m.open_map in
    record m { open_map = marked; open_connections = remove_marked is m.open_connections }

-- The peers at a list of indices; an index out of range, at which Go panics, gives no peer.
picked : List Peer → List ℕ → List Peer
picked s [] = []
picked s (i ∷ is) = elim (get_elem? s i) [ none ↦ picked s is | some p ↦ p ∷ picked s is ]

-- `ActionOnPermutedValid`: the peers on which `f` is called, in the order of the calls. `perm` is
-- the permutation of the indices that `rand.Perm` draws.
unfoldable pub permuted_valid : Manager → List ℕ → ℕ → List Peer
unfolding picked
permuted_valid m perm max =
    picked m.open_connections (take (min max (length m.open_connections)) perm)
