-- ===== src/Connections/Inv.antt =====
-- The map and the slice of the valid peers of connection_manager.go hold the same peers, and every
-- method keeps it so.
use mathlib.Core.List.{
  Perm, perm_middle, Mem, Nodup, Nodup-cons, filter, mem-cons_self, mem-cons_of_mem,
  mem_of_ne_of_mem, not-mem-nil,
}
use mathlib.Core.List.Perm
use mathlib.Core.Logic.{if_pos}
use whisper2peer.Base.{
  ℕ, suc, ◌+◌, ◌≡◌, refl, ap, sym, ◌∙◌, ◌⊎◌, inl, inr, none, some, List, [], ◌∷◌, ◌++◌, map, subst,
  ite, arith, length, true, false, if◌then◌else◌, keep, Bytes, bytes_discrete,
}
use whisper2peer.Connections.Maps.{GoMap, get, delete}
use whisper2peer.Connections.{ConnectionId, Peer, Manager, index_of}

abbrev pub id_of : Peer → ConnectionId
id_of p = p.connection.id

abbrev pub entry : Peer → ConnectionId × Peer
entry p = (id_of p, p)

-- Every entry of a map stands under the id of its peer.
abbrev pub Keyed : GoMap Peer → Type 0
Keyed [] = Unit {0}
Keyed ((k, p) ∷ m) = (id_of p ≡ k) × Keyed m

pub record Inv (m : Manager) : Type 0 where
  pub mirrored : Perm (map entry m.open_connections) m.open_map
  pub distinct : Nodup (map id_of m.open_connections)
  pub proved_keyed : Keyed m.to_be_proved
  pub progress_keyed : Keyed m.pow_in_progress

pub Keyed-delete : (k : Bytes) (m : GoMap Peer) → Keyed m → Keyed (delete k m)
unfolding delete
Keyed-delete k [] h = tt
Keyed-delete k ((j, p) ∷ m) h = ground (arith, Keyed-delete k m h.1)

pub Keyed-get : (k : Bytes) (m : GoMap Peer) (p : Peer) → Keyed m → get k m ≡ some p → id_of p ≡ k
unfolding get
Keyed-get k [] p h e = cc
Keyed-get k ((j, q) ∷ m) p h e = ground (arith, Keyed-get k m p h.1)

-- The peers with another id.
abbrev without : ConnectionId → List Peer → List Peer
without id = keep λ p. ite (bytes_discrete p.connection.id id) false true

delete-entries :
    (id : ConnectionId) (s : List Peer) → delete id (map entry s) ≡ map entry (without id s)
unfolding delete
delete-entries id [] = refl
delete-entries id (p ∷ s) = ground (arith, delete-entries id s)

without-append :
    (id : ConnectionId) (s t : List Peer) → without id (s ++ t) ≡ without id s ++ without id t
without-append id [] t = refl
without-append id (p ∷ s) t = ground (arith, without-append id s t)

without-absent : (id : ConnectionId) (s : List Peer) → ¬ Mem id (map id_of s) → without id s ≡ s
without-absent id [] h = refl
without-absent id (p ∷ s) h = elim (bytes_discrete p.connection.id id) [
  | yes e ↦ absurd (h (subst (λ j. Mem j (map id_of (p ∷ s))) e mem-cons_self))
  | no n ↦ ground (arith, without-absent id s (λ m. h (mem-cons_of_mem (id_of p) m)))
]

other_key : (j k : Bytes) → Dec (¬ (j ≡ k))
other_key j k = elim (bytes_discrete j k) [ yes e ↦ no (λ n. n e) | no n ↦ yes n ]

delete-filter :
    (k : Bytes) (m : GoMap Peer) → delete k m ≡ filter (λ (e : Bytes × Peer). other_key e.0 k) m
unfolding delete other_key
delete-filter k [] = refl
delete-filter k ((j, p) ∷ m) = ground (arith, delete-filter k m)

delete-perm : (k : Bytes) {m n : GoMap Peer} → Perm m n → Perm (delete k m) (delete k n)
delete-perm k {m} {n} h =
    subst (λ l. Perm l (delete k n)) (sym (delete-filter k m))
      (subst (Perm _) (sym (delete-filter k n))
        (Perm.filter (λ (e : Bytes × Peer). other_key e.0 k) h))

-- Taking the id of one peer out of the map is taking the peer out of the slice.
pub delete-middle-perm :
    (before : List Peer) (p : Peer) (after : List Peer) {m : GoMap Peer}
    → Nodup (map id_of (before ++ p ∷ after))
    → Perm (map entry (before ++ p ∷ after)) m
    → Perm (map entry (before ++ after)) (delete (id_of p) m)
delete-middle-perm before p after {m} d h =
    subst (λ l. Perm l (delete (id_of p) m))
      (delete-entries (id_of p) (before ++ p ∷ after) ∙ ap (map entry) same)
      (delete-perm (id_of p) h)
  where
    apart : (¬ Mem (id_of p) (map id_of (before ++ after))) × Nodup (map id_of (before ++ after))
    apart = Nodup-cons.0 (Perm.nodup (Perm.map id_of (perm_middle before after)) d)

    same : without (id_of p) (before ++ p ∷ after) ≡ before ++ after
    same =
        without-append (id_of p) before (p ∷ after)
        ∙ ap
            (λ b.
              without (id_of p) before
              ++ (if b then p ∷ without (id_of p) after else without (id_of p) after))
            (if_pos (bytes_discrete (id_of p) (id_of p)) refl false true)
        ∙ sym (without-append (id_of p) before after)
        ∙ without-absent (id_of p) (before ++ after) apart.0

pub index_of-split :
    (id : ConnectionId) (i : ℕ) (s : List Peer)
    → ((index_of id i s ≡ none) × (¬ Mem id (map id_of s)))
      ⊎ ((before : List Peer) × (p : Peer) × (after : List Peer) × (s ≡ before ++ p ∷ after)
          × (id_of p ≡ id)
          × (index_of id i s ≡ some (i + length before)))
unfolding index_of
index_of-split id i [] = inl (refl, not-mem-nil)
index_of-split id i (p ∷ s) = elim (bytes_discrete p.connection.id id) [
  | yes e ↦ inr ([], p, s, refl, e, ground arith)
  | no n ↦ elim (index_of-split id (suc i) s) [
    | inl (e, absent) ↦ inl (ground arith, λ m. absent (mem_of_ne_of_mem (λ q. n (sym q)) m))
    | inr (before, q, after, e, found, at) ↦
        inr (p ∷ before, q, after, ap (◌∷◌ p) e, found, ground arith)
  ]
]
