-- ===== src/Connections/Run.antt =====
-- Any history of calls of the methods of connection_manager.go.
use mathlib.Core.List.{
  Perm, perm_middle, Mem, mem_of_ne_of_mem, Nodup, Nodup-cons, Nodup-nil, mem-cons_self,
  mem-cons_of_mem, foldl,
}
use mathlib.Core.List.Perm
use whisper2peer.Base.{
  ℕ, suc, ◌≡◌, refl, ap, sym, ◌∙◌, inl, inr, Option, none, some, List, [], ◌∷◌, ◌++◌, map, subst,
  append_assoc, Bool, keep, not, Option-cases, Bool-cases,
}
use whisper2peer.Connections.Maps.{GoMap, get, put, delete}
use whisper2peer.Connections.Swap.{remove_marked-perm}
use whisper2peer.Connections.Inv.{Inv, id_of, entry, Keyed-delete, delete-middle-perm}
use whisper2peer.Connections.Steps.{added, unsafe_remove-Inv, unsafe_remove-unproved}
use whisper2peer.Connections.{
  ConnectionId, Conn, Peer, Status, Manager, unsafe_remove, make_valid, alloc, set_timestamp,
  empty_manager, add_in_progress, mark_culled, cull_connections, new_connection_manager,
  add_to_be_proved, admit,
}

-- The invariant does not read the store.
set_timestamp-Inv : (m : Manager) (p : Peer) (t : ℕ) → Inv m → Inv (set_timestamp m p t)
set_timestamp-Inv m p t h = record {
  mirrored = h.mirrored;
  distinct = h.distinct;
  proved_keyed = h.proved_keyed;
  progress_keyed = h.progress_keyed;
}

admit-Inv :
    (id : ConnectionId) (t : ℕ) (m : Manager) (r : Option Peer)
    → Inv m
    → get id m.open_map ≡ none
    → ((p : Peer) → r ≡ some p → id_of p ≡ id)
    → Inv (admit id t (m, r))
unfolding admit
admit-Inv id t m none h absent same = h
admit-Inv id t m (some p) h absent same =
    let e : id_of p ≡ id = same p refl in
    let (mirrored, distinct) = added m p h (rw e absent) in
    record {
      mirrored =
          subst (λ j. Perm (map entry (m.open_connections ++ p ∷ [])) (put j p m.open_map)) e
            mirrored;
      distinct = distinct;
      proved_keyed = h.proved_keyed;
      progress_keyed = h.progress_keyed;
    }

make_valid-Inv : (m : Manager) (id : ConnectionId) (t : ℕ) → Inv m → Inv (make_valid m id t)
unfolding make_valid
make_valid-Inv m id t h = elim (Option-cases (get id m.open_map)) [
  | inr (p, e) ↦ rw (e, make_valid) (set_timestamp-Inv m p t h)
  | inl e ↦
      let (same_map, _, same_id) = unsafe_remove-unproved m id h e in
      rw (e, make_valid)
        (admit-Inv id t (unsafe_remove m id).0 (unsafe_remove m id).1 (unsafe_remove-Inv m id h)
          (ap (get id) same_map ∙ e) same_id)
]

add_in_progress-Inv : (m : Manager) (p : Peer) → Inv m → Inv (add_in_progress m p)
unfolding add_in_progress put
add_in_progress-Inv m p h = record {
  mirrored = h.mirrored;
  distinct = h.distinct;
  proved_keyed = h.proved_keyed;
  progress_keyed = (refl, Keyed-delete (id_of p) m.pow_in_progress h.progress_keyed);
}

mark_culled-perm :
    (f : Peer → Bool) (i : ℕ) (before after : List Peer) (m : GoMap Peer)
    → Nodup (map id_of (before ++ after))
    → Perm (map entry (before ++ after)) m
    → Perm (map entry (before ++ keep (λ p. not (f p)) after)) (mark_culled f i after m).0
unfolding mark_culled
mark_culled-perm f i before [] m d h = h
mark_culled-perm f i before (p ∷ after) m d h = elim (Bool-cases (f p)) [
  | inl picks ↦ rw picks (
      mark_culled-perm f (suc i) before after (delete (id_of p) m)
        (Nodup-cons.0 (Perm.nodup (Perm.map id_of (perm_middle before after)) d)).1
        (delete-middle-perm before p after d h))
  | inr leaves ↦
      let shift = append_assoc before (p ∷ []) after in
      rw leaves (
        subst (λ s. Perm (map entry s) (mark_culled f (suc i) after m).0)
          (append_assoc before (p ∷ []) (keep (λ q. not (f q)) after))
          (mark_culled-perm f (suc i) (before ++ p ∷ []) after m
            (subst (λ s. Nodup (map id_of s)) (sym shift) d)
            (subst (λ s. Perm (map entry s) m) (sym shift) h)))
]

mem-ids-keep :
    (f : Peer → Bool) (id : ConnectionId) (s : List Peer)
    → ¬ Mem id (map id_of s)
    → ¬ Mem id (map id_of (keep f s))
mem-ids-keep f id [] absent = absent
mem-ids-keep f id (p ∷ s) absent =
    let rest = mem-ids-keep f id s (λ m. absent (mem-cons_of_mem (id_of p) m)) in
    elim (Bool-cases (f p)) [
      | inl e ↦ rw e λ m.
          rest (
            mem_of_ne_of_mem (λ q. absent (subst (λ j. Mem id (j ∷ map id_of s)) q mem-cons_self))
              m)
      | inr e ↦ rw e rest
    ]

keep-Nodup : (f : Peer → Bool) (s : List Peer) → Nodup (map id_of s) → Nodup (map id_of (keep f s))
keep-Nodup f [] d = d
keep-Nodup f (p ∷ s) d =
    let (fresh, rest) = Nodup-cons.0 d in
    elim (Bool-cases (f p)) [
      | inl e ↦ rw e (Nodup-cons.1 (mem-ids-keep f (id_of p) s fresh, keep-Nodup f s rest))
      | inr e ↦ rw e (keep-Nodup f s rest)
    ]

-- In a manager that keeps the invariant, a cull leaves the valid peers that `f` does not pick,
-- each once, in the slice and in the map.
pub cull_connections-perm :
    (m : Manager) (f : Peer → Status → Bool)
    → Inv m
    → let left = keep (λ p. not (f p (m.store p.ptr))) m.open_connections in
      Perm (cull_connections m f).open_connections left
      × Perm (cull_connections m f).open_map (map entry left)
unfolding cull_connections
cull_connections-perm m f h = (
  remove_marked-perm (λ p. f p (m.store p.ptr)) m.open_connections m.open_map,
  Perm.symm (
      mark_culled-perm (λ p. f p (m.store p.ptr)) 0 [] m.open_connections m.open_map h.distinct
        h.mirrored),
)

cull_connections-Inv : (m : Manager) (f : Peer → Status → Bool) → Inv m → Inv (cull_connections m f)
unfolding cull_connections
cull_connections-Inv m f h =
    let (slice, entries) = cull_connections-perm m f h in
    record {
      mirrored = Perm.trans (Perm.map entry slice) (Perm.symm entries);
      distinct =
          Perm.nodup (Perm.map id_of (Perm.symm slice))
            (keep-Nodup (λ p. not (f p (m.store p.ptr))) m.open_connections h.distinct);
      proved_keyed = h.proved_keyed;
      progress_keyed = h.progress_keyed;
    }

add_to_be_proved-Inv : (conns : List Conn) (m : Manager) → Inv m → Inv (add_to_be_proved m conns)
unfolding add_to_be_proved put
add_to_be_proved-Inv [] m h = h
add_to_be_proved-Inv (conn ∷ conns) m h = add_to_be_proved-Inv conns _ (record {
  mirrored = h.mirrored;
  distinct = h.distinct;
  proved_keyed = (refl, Keyed-delete conn.id m.to_be_proved h.proved_keyed);
  progress_keyed = h.progress_keyed;
})

pub new_connection_manager-Inv : (conns : List Conn) → Inv (new_connection_manager conns)
unfolding new_connection_manager
new_connection_manager-Inv conns =
    add_to_be_proved-Inv conns empty_manager
      (record { mirrored = Perm.nil; distinct = Nodup-nil; proved_keyed = tt; progress_keyed = tt })

-- The calls that change a manager. `arrive` makes the object that `AddInProgress` is given.
pub data Call : Type 0 where
  drop : ConnectionId → Call
  validate : ConnectionId → ℕ → Call
  arrive : Conn → Call
  cull : (Peer → Status → Bool) → Call

unfoldable pub step : Manager → Call → Manager
step m (drop id) = (unsafe_remove m id).0
step m (validate id t) = make_valid m id t
step m (arrive conn) = let (m', peer) = alloc m conn in add_in_progress m' peer
step m (cull f) = cull_connections m f

alloc-Inv : (m : Manager) (conn : Conn) → Inv m → Inv (alloc m conn).0
unfolding alloc
alloc-Inv m conn h = record {
  mirrored = h.mirrored;
  distinct = h.distinct;
  proved_keyed = h.proved_keyed;
  progress_keyed = h.progress_keyed;
}

-- Each call keeps the invariant.
pub step-Inv : (m : Manager) (c : Call) → Inv m → Inv (step m c)
unfolding step
step-Inv m (drop id) h = unsafe_remove-Inv m id h
step-Inv m (validate id t) h = make_valid-Inv m id t h
step-Inv m (arrive conn) h = add_in_progress-Inv _ _ (alloc-Inv m conn h)
step-Inv m (cull f) h = cull_connections-Inv m f h

foldl-step-Inv : (cs : List Call) (m : Manager) → Inv m → Inv (foldl step m cs)
foldl-step-Inv [] m h = h
foldl-step-Inv (c ∷ cs) m h = foldl-step-Inv cs (step m c) (step-Inv m c h)

-- After any sequence of calls on a new manager, the slice and the map of the valid peers hold the
-- same peers, no two of them have one id, and the other maps keep each peer under its id.
pub history-Inv :
    (conns : List Conn) (cs : List Call) → Inv (foldl step (new_connection_manager conns) cs)
history-Inv conns cs = foldl-step-Inv cs _ (new_connection_manager-Inv conns)
