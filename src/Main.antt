-- ===== src/Main.antt =====
-- gossip/main/data.go and gossip/main/main.go: which module is registered for which type of data,
-- and the handlers of the main component between the vertical API and the strategy.
--
-- A Go map keyed by types is an association list with one entry for a key; the order in which Go
-- walks it is not fixed, and is the list's here. The mutex is held for the whole of each method.
pub mod Registrations
pub mod Examples
use whisper2peer.Base.{
  ℕ, suc, Bool, true, false, Option, none, some, List, [], ◌∷◌, ◌++◌, map, Bytes, bytes_discrete,
  ite, ◌==◌, if◌then◌else◌,
}
use whisper2peer.Messages.{
  Module, GossipAnnounce, GossipNotification, GossipNotify, GossipValidation, FromVert, ToStrat,
  set_valid,
}
use whisper2peer.Connections.{swap_remove}

abbrev pub NotifyMap : Type 0
NotifyMap = List (ℕ × List Module)

-- `Load`: the zero value of a slice for a missing key.
unfoldable pub load : NotifyMap → ℕ → List Module
load [] t = []
load ((u, l) ∷ nm) t = if u == t then l else load nm t

-- `nm.data[t] = l`.
unfoldable pub save : NotifyMap → ℕ → List Module → NotifyMap
save [] t l = (t, l) ∷ []
save ((u, k) ∷ nm) t l = if u == t then (u, l) ∷ nm else (u, k) ∷ save nm t l

-- The loop of `AddChannelToType` over the modules of a type.
unfoldable pub is_registered : Bytes → List Module → Bool
is_registered id [] = false
is_registered id (c ∷ cs) = ite (bytes_discrete c.id id) true (is_registered id cs)

-- `none` is the error.
unfoldable pub add_channel_to_type : NotifyMap → ℕ → Module → Option NotifyMap
add_channel_to_type nm t c =
    let current = load nm t in
    if is_registered c.id current then none else some (save nm t (current ++ c ∷ []))

-- The inner loop of `RemoveChannel`, from index `i` on.
unfoldable pub position : Bytes → ℕ → List Module → Option (ℕ × Module)
position unreg i [] = none
position unreg i (c ∷ cs) =
    ite (bytes_discrete c.id unreg) (some (i, c)) (position unreg (suc i) cs)

-- The connection returned is the one found last.
unfoldable pub remove_channel : NotifyMap → Bytes → NotifyMap × Option Module
remove_channel [] unreg = ([], none)
remove_channel ((t, l) ∷ nm) unreg =
    let (nm', ret) = remove_channel nm unreg in
    elim (position unreg 0 l) [
      | none ↦ ((t, l) ∷ nm', ret)
      | some (i, c) ↦
          ((t, swap_remove l i) ∷ nm', elim ret [ none ↦ some c | some later ↦ some later ])
    ]

-- What the main component does beyond its map: it sends to the strategy or to a module, or cancels
-- the context of a module's connection.
pub data Sent : Type 0 where
  to_strat : ToStrat → Sent
  to_vert : Module → GossipNotification → Sent
  cancel : Module → Sent

unfoldable pub handle_module_unregister : NotifyMap → Bytes → NotifyMap × List Sent
handle_module_unregister nm id =
    let (nm', ret) = remove_channel nm id in (nm', elim ret [ none ↦ [] | some c ↦ cancel c ∷ [] ])

unfoldable pub handle_type_registration : NotifyMap → GossipNotify → Module → NotifyMap
handle_type_registration nm x m = elim (add_channel_to_type nm x.data_type m) [
  | none ↦ nm
  | some nm' ↦ nm'
]

unfoldable pub handle_gossip_validation : GossipValidation → List Sent
handle_gossip_validation msg = to_strat (ToStrat.validation msg) ∷ []

-- Nothing is sent where the handler returns an error.
unfoldable pub handle_gossip_announce : NotifyMap → GossipAnnounce → List Sent
handle_gossip_announce nm msg = elim (load nm msg.data_type) [
  | [] ↦ []
  | _ ∷ _ ↦ to_strat (ToStrat.announce msg) ∷ []
]

unfoldable pub handle_notification : NotifyMap → GossipNotification → List Sent
handle_notification nm msg = elim (load nm msg.data_type) [
  | [] ↦
      to_strat (
        ToStrat.validation
          (set_valid (record { message_id = msg.message_id; bitfield = 0; valid = false }) false))
      ∷ []
  | r ∷ rs ↦ map (λ c. to_vert c msg) (r ∷ rs)
]

-- The case of `Run` for a message of the vertical API.
unfoldable pub on_from_vert : NotifyMap → FromVert → NotifyMap × List Sent
on_from_vert nm (FromVert.validation x) = (nm, handle_gossip_validation x)
on_from_vert nm (FromVert.announce x) = (nm, handle_gossip_announce nm x)
on_from_vert nm (FromVert.register x m) = (handle_type_registration nm x m, [])
on_from_vert nm (FromVert.unregister id) = handle_module_unregister nm id
