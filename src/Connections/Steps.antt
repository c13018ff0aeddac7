-- ===== src/Connections/Steps.antt =====
-- Every method of connection_manager.go keeps the map and the slice of the valid peers in step.
use mathlib.Core.List.{
  Perm, perm_middle, Mem, mem_of_ne_of_mem, Nodup, Nodup-cons, mem-cons_self, mem-cons_of_mem,
  not-mem-nil,
}
use mathlib.Core.List.Perm
use whisper2peer.Base.{
  ◌≡◌, refl, ap, sym, ◌∙◌, inl, inr, none, some, List, [], ◌∷◌, ◌++◌, map, subst, append-nil, arith,
  length, Bytes, bytes_discrete, Option-cases,
}
use whisper2peer.Connections.Maps.{GoMap, get, put, delete}
use whisper2peer.Connections.Swap.{swap_remove-middle-perm}
use whisper2peer.Connections.Inv.{
  Inv, id_of, entry, Keyed-delete, Keyed-get, index_of-split, delete-middle-perm,
}
use whisper2peer.Connections.{
  ConnectionId, Peer, Manager, index_of, remove_valid, unsafe_remove, swap_remove,
}

-- A key that is found stands among the keys.
pub mem_of_get :
    (k : Bytes) (m : GoMap Peer) (p : Peer) → get k m ≡ some p → Mem k (map (λ e. e.0) m)
unfolding get
mem_of_get k [] p e = cc
mem_of_get k ((j, q) ∷ m) p e = elim (bytes_discrete j k) [
  | yes same ↦ subst (λ i. Mem i (j ∷ map (λ e. e.0) m)) same mem-cons_self
  | no other ↦ mem-cons_of_mem j (mem_of_get k m p (ground arith))
]

pub keys-entry : (s : List Peer) → map (λ (e : Bytes × Peer). e.0) (map entry s) ≡ map id_of s
keys-entry [] = refl
keys-entry (p ∷ s) = ap (◌∷◌ (id_of p)) (keys-entry s)

pub mem-ids_of_get :
    (m : Manager) (id : ConnectionId) (p : Peer)
    → Inv m
    → get id m.open_map ≡ some p
    → Mem id (map id_of m.open_connections)
mem-ids_of_get m id p h e = subst (Mem id) (keys-entry m.open_connections) (
    (Perm.mem_iff (Perm.map (λ (e : Bytes × Peer). e.0) h.mirrored)).1
      (mem_of_get id m.open_map p e))

-- The slice and the map with one peer taken out of each.
taken-out :
    (m : Manager) (before : List Peer) (p : Peer) (after : List Peer)
    → Inv m
    → m.open_connections ≡ before ++ p ∷ after
    → Inv (record m {
      open_map = delete (id_of p) m.open_map;
      open_connections = swap_remove m.open_connections (length before);
    })
taken-out m before p after h e = record {
  mirrored = Perm.trans (Perm.map entry shorter) (
      delete-middle-perm before p after (subst (λ s. Nodup (map id_of s)) e h.distinct)
        (subst (λ s. Perm (map entry s) m.open_map) e h.mirrored));
  distinct =
      Perm.nodup (Perm.map id_of (Perm.symm shorter))
        (Nodup-cons.0 (
          Perm.nodup (Perm.map id_of (perm_middle before after))
            (subst (λ s. Nodup (map id_of s)) e h.distinct))).1;
  proved_keyed = h.proved_keyed;
  progress_keyed = h.progress_keyed;
}
  where
    shorter : Perm (swap_remove m.open_connections (length before)) (before ++ after)
    shorter =
        subst (λ s. Perm (swap_remove s (length before)) (before ++ after)) (sym e)
          (swap_remove-middle-perm before p after)

remove_valid-Inv : (m : Manager) (id : ConnectionId) → Inv m → Inv (remove_valid m id).0
unfolding remove_valid
remove_valid-Inv m id h = elim (Option-cases (get id m.open_map)) [
  | inl e ↦ rw (e, remove_valid) h
  | inr (q, e) ↦ elim (index_of-split id 0 m.open_connections) [
    | inl (_, absent) ↦ absurd (absent (mem-ids_of_get m id q h e))
    | inr (before, p, after, shape, same, at) ↦
        let at' : index_of id 0 m.open_connections ≡ some (length before) =
          at ∙ ap some (omega arith) in
        rw (e, at', remove_valid)
          (subst
            (λ j. Inv (record m {
              open_map = delete j m.open_map;
              open_connections = swap_remove m.open_connections (length before);
            }))
            same (taken-out m before p after h shape))
  ]
]

pub unsafe_remove-Inv : (m : Manager) (id : ConnectionId) → Inv m → Inv (unsafe_remove m id).0
unfolding unsafe_remove
unsafe_remove-Inv m id h = elim (Option-cases (get id m.to_be_proved)) [
  | inr (p, e) ↦
      rw (e, unsafe_remove)
        (record {
          mirrored = h.mirrored;
          distinct = h.distinct;
          proved_keyed = Keyed-delete id m.to_be_proved h.proved_keyed;
          progress_keyed = h.progress_keyed;
        })
  | inl e ↦ elim (Option-cases (get id m.pow_in_progress)) [
    | inr (p, e') ↦
        rw (e, e', unsafe_remove)
          (record {
            mirrored = h.mirrored;
            distinct = h.distinct;
            proved_keyed = h.proved_keyed;
            progress_keyed = Keyed-delete id m.pow_in_progress h.progress_keyed;
          })
    | inl e' ↦ rw (e, e', unsafe_remove) (remove_valid-Inv m id h)
  ]
]

-- What is taken from a class other than the valid peers is the peer with the id, and the valid
-- peers stay as they are.
pub unsafe_remove-unproved :
    (m : Manager) (id : ConnectionId)
    → Inv m
    → get id m.open_map ≡ none
    → let r = unsafe_remove m id in
      (r.0.open_map ≡ m.open_map)
      × (r.0.open_connections ≡ m.open_connections)
      × ((p : Peer) → r.1 ≡ some p → id_of p ≡ id)
unfolding unsafe_remove remove_valid
unsafe_remove-unproved m id h absent = elim (Option-cases (get id m.to_be_proved)) [
  | inr (q, e) ↦
      rw (e, unsafe_remove)
        (refl, refl, λ p r. Keyed-get id m.to_be_proved p h.proved_keyed (e ∙ r))
  | inl e ↦ elim (Option-cases (get id m.pow_in_progress)) [
    | inr (q, e') ↦
        rw (e, e', unsafe_remove)
          (refl, refl, λ p r. Keyed-get id m.pow_in_progress p h.progress_keyed (e' ∙ r))
    | inl e' ↦ rw (e, e', absent, unsafe_remove, remove_valid) (refl, refl, λ p r. cc)
  ]
]

pub delete-absent :
    (k : Bytes) (m : GoMap Peer) → get k m ≡ none → (delete k m ≡ m) × (¬ Mem k (map (λ e. e.0) m))
unfolding get delete
delete-absent k [] e = (refl, not-mem-nil)
delete-absent k ((j, p) ∷ m) e = elim (bytes_discrete j k) [
  | yes same ↦ absurd (ground arith)
  | no other ↦
      let (d, a) = delete-absent k m (ground arith) in
      (ground arith, λ i. a (mem_of_ne_of_mem (λ q. other (sym q)) i))
]

-- A new valid peer, with an id that no valid peer has.
pub added :
    (m : Manager) (p : Peer)
    → Inv m
    → get (id_of p) m.open_map ≡ none
    → Perm (map entry (m.open_connections ++ p ∷ [])) (put (id_of p) p m.open_map)
      × Nodup (map id_of (m.open_connections ++ p ∷ []))
unfolding put
added m p h absent = (
  Perm.trans (Perm.map entry front) (
      subst (λ l. Perm (entry p ∷ map entry m.open_connections) (entry p ∷ l)) (sym clear.0)
        (Perm.cons (entry p) h.mirrored)),
  Perm.nodup (Perm.map id_of (Perm.symm front)) (Nodup-cons.1 (fresh, h.distinct)),
)
  where
    clear :
        (delete (id_of p) m.open_map ≡ m.open_map)
        × (¬ Mem (id_of p) (map (λ (e : Bytes × Peer). e.0) m.open_map))
    clear = delete-absent (id_of p) m.open_map absent

    front : Perm (m.open_connections ++ p ∷ []) (p ∷ m.open_connections)
    front =
        subst (λ s. Perm (m.open_connections ++ p ∷ []) (p ∷ s)) (append-nil m.open_connections)
          (perm_middle m.open_connections [])

    fresh : ¬ Mem (id_of p) (map id_of m.open_connections)
    fresh i = clear.1 (
        (Perm.mem_iff (Perm.map (λ (e : Bytes × Peer). e.0) h.mirrored)).0
          (subst (Mem (id_of p)) (sym (keys-entry m.open_connections)) i))
