-- ===== src/Connections/Classes.antt =====
-- What a lookup in the classes of connection_manager.go gives, before and after a call.
use mathlib.Core.List.{
  Mem, Nodup, Nodup-cons, mem-cons_self, mem-cons_of_mem, not-mem-nil, mem-map_of_mem,
  eq-or-mem_of_mem-cons, exists_of_mem-map, Mem-prop,
}
use mathlib.Core.List.Perm
use mathlib.Core.Option
use mathlib.Core.Logic.{if_neg, ∥∥₁_elim}
use mathlib.Core.Logic.Or
use whisper2peer.Base.{
  ℕ, ◌≡◌, ap, sym, ◌∙◌, ◌⊎◌, inl, inr, Option, none, some, List, [], ◌∷◌, map, subst, ite, arith,
  ◌↔◌, Bytes, bytes_discrete, Option-cases,
}
use whisper2peer.Connections.Maps.{GoMap, get, get-put, get-delete}
use whisper2peer.Connections.Inv.{Inv, id_of, entry}
use whisper2peer.Connections.Steps.{keys-entry}
use whisper2peer.Connections.{
  ConnectionId, Peer, Manager, unsafe_remove, remove_valid, make_valid, admit, find_valid,
  find_in_progress, find_to_be_proved,
}

entry_of_get : (k : Bytes) (m : GoMap Peer) (p : Peer) → get k m ≡ some p → Mem (k, p) m
unfolding get
entry_of_get k [] p e = cc
entry_of_get k ((j, q) ∷ m) p e = elim (bytes_discrete j k) [
  | yes same ↦ subst (λ x. Mem x ((j, q) ∷ m)) (ground arith) mem-cons_self
  | no other ↦ mem-cons_of_mem (j, q) (entry_of_get k m p (ground arith))
]

bytes-set : IsSet (List ℕ)
bytes-set = hlevel

option_peer-set : IsSet (Option Peer)
option_peer-set = hlevel

of_entry :
    {k : Bytes} {p : Peer} (s : List Peer) → Mem (k, p) (map entry s) → Mem p s × (id_of p ≡ k)
of_entry {k} {p} s i =
    ∥∥₁_elim (exists_of_mem-map i) (hlevel (Mem-prop {a = p} {l = s}, bytes-set)) λ (q, there, e). (
      subst (λ x. Mem x s) (ap (λ (x : Bytes × Peer). x.1) e) there,
      ap (λ (x : Bytes × Peer). id_of x.1) (sym e) ∙ ap (λ (x : Bytes × Peer). x.0) e,
    )

get_of_entry :
    (k : Bytes) (m : GoMap Peer) (p : Peer)
    → Nodup (map (λ (e : Bytes × Peer). e.0) m)
    → Mem (k, p) m
    → get k m ≡ some p
unfolding get
get_of_entry k [] p d i = absurd (not-mem-nil i)
get_of_entry k ((j, q) ∷ m) p d i =
    let (fresh, rest) = Nodup-cons.0 d in
    Or.elim (option_peer-set _ _) (eq-or-mem_of_mem-cons i)
      (λ e. ground (arith, ap (λ (x : Bytes × Peer). x.0) e, ap (λ (x : Bytes × Peer). x.1) e))
      λ there. elim (bytes_discrete j k) [
        | yes same ↦ absurd (
            fresh (
              subst (λ x. Mem x (map (λ (e : Bytes × Peer). e.0) m)) (sym same)
                (mem-map_of_mem (λ (e : Bytes × Peer). e.0) there)))
        | no other ↦ rw (if_neg _ other) (get_of_entry k m p rest there)
      ]

-- In a manager that keeps the invariant, `FindValid` finds a peer exactly if it is in the slice
-- of the valid peers and has the id.
pub find_valid_iff :
    (m : Manager) (id : ConnectionId) (p : Peer)
    → Inv m
    → (find_valid m id ≡ some p) ↔ (Mem p m.open_connections × (id_of p ≡ id))
find_valid_iff m id p h = (found, there)
  where
    keys : Nodup (map (λ (e : Bytes × Peer). e.0) m.open_map)
    keys =
        Perm.nodup (Perm.map (λ (e : Bytes × Peer). e.0) h.mirrored)
          (subst Nodup (sym (keys-entry m.open_connections)) h.distinct)

    found : find_valid m id ≡ some p → Mem p m.open_connections × (id_of p ≡ id)
    found e =
        let i = (Perm.mem_iff h.mirrored).1 (entry_of_get id m.open_map p e) in
        of_entry m.open_connections i

    there : Mem p m.open_connections × (id_of p ≡ id) → find_valid m id ≡ some p
    there (i, e) = get_of_entry id m.open_map p keys (
        (Perm.mem_iff h.mirrored).0
          (subst (λ j. Mem (j, p) (map entry m.open_connections)) e (mem-map_of_mem entry i)))

or_else : Option Peer → Option Peer → Option Peer
or_else (some p) q = some p
or_else none q = q

-- The peer with an id, in whichever class it is.
abbrev pub located : Manager → ConnectionId → Option Peer
unfolding or_else
located m id = or_else (find_valid m id) (or_else (find_to_be_proved m id) (find_in_progress m id))

-- `MakeValid` makes the peer with the id valid, wherever it was, stamps it with the time, and
-- leaves what the lookup of another id finds; for an id in no class it makes no peer valid.
pub make_valid-located :
    (m : Manager) (id : ConnectionId) (t : ℕ) (j : ConnectionId)
    → let m' = make_valid m id t in
      (find_valid m' j ≡ ite (bytes_discrete id j) (located m id) (find_valid m j))
      × (Option.map (λ p. (m'.store p.ptr).timestamp) (located m id)
          ≡ Option.map (λ _. t) (located m id))
unfolding make_valid admit unsafe_remove remove_valid or_else
make_valid-located m id t j = elim (Option-cases (get id m.open_map)) [
  | inr (q, e) ↦ (ground arith, ground arith)
  | inl e ↦ elim (Option-cases (get id m.to_be_proved)) [
    | inr (q, e') ↦ (ground (arith, get-put id j q m.open_map), ground arith)
    | inl e' ↦ elim (Option-cases (get id m.pow_in_progress)) [
      | inr (q, e2) ↦ (ground (arith, get-put id j q m.open_map), ground arith)
      | inl e2 ↦ (ground arith, ground arith)
    ]
  ]
]

-- A peer to whom the node has to prove itself becomes valid as it is.
pub make_valid-to_be_proved :
    (m : Manager) (id : ConnectionId) (t : ℕ) (p : Peer)
    → find_valid m id ≡ none
    → find_to_be_proved m id ≡ some p
    → find_valid (make_valid m id t) id ≡ some p
unfolding or_else
make_valid-to_be_proved m id t p v e = (make_valid-located m id t id).0 ∙ ground (arith, v, e)

-- So does a peer in progress.
pub make_valid-in_progress :
    (m : Manager) (id : ConnectionId) (t : ℕ) (p : Peer)
    → find_valid m id ≡ none
    → find_to_be_proved m id ≡ none
    → find_in_progress m id ≡ some p
    → find_valid (make_valid m id t) id ≡ some p
unfolding or_else
make_valid-in_progress m id t p v a b = (make_valid-located m id t id).0 ∙ ground (arith, v, a, b)

-- A removal makes nobody valid.
pub unsafe_remove-valid :
    (m : Manager) (id j : ConnectionId) (p : Peer)
    → find_valid (unsafe_remove m id).0 j ≡ some p
    → find_valid m j ≡ some p
unfolding unsafe_remove remove_valid
unsafe_remove-valid m id j p h = ground (arith, get-delete id j m.open_map)

pub make_valid-valid :
    (m : Manager) (id : ConnectionId) (t : ℕ) (j : ConnectionId) (p : Peer)
    → find_valid (make_valid m id t) j ≡ some p
    → (find_valid m j ≡ some p) ⊎ (j ≡ id)
make_valid-valid m id t j p h = ground (arith, make_valid-located m id t j)

-- A second removal of a peer that was only in progress finds nothing.
pub unsafe_remove-unsafe_remove :
    (m : Manager) (id : ConnectionId) (peer : Peer)
    → find_to_be_proved m id ≡ none
    → find_in_progress m id ≡ some peer
    → find_valid m id ≡ none
    → (find_in_progress (unsafe_remove m id).0 id ≡ none)
      × (unsafe_remove (unsafe_remove m id).0 id ≡ ((unsafe_remove m id).0, none))
unfolding unsafe_remove remove_valid
unsafe_remove-unsafe_remove m id peer a b v = (
  ground (arith, get-delete id id m.pow_in_progress),
  ground (arith, get-delete id id m.pow_in_progress),
)
