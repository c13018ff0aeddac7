-- ===== src/Ringbuffer/Queue.antt =====
-- `Insert` and `Remove` of ringbuffer.go against a bounded queue, the oldest value first.
use mathlib.Core.List.{foldl, erase}
use mathlib.Core.Logic.{if_pos}
use whisper2peer.Base.{
  ℕ, zero, suc, inl, inr, Bool-cases, subst, append-nil, ◌-◌, ◌≤◌, ◌≡◌, refl, ap, ◌∙◌, List, [],
  ◌∷◌, ◌++◌, append_assoc, arith, length, drop, length-append, length-drop, leb, if◌then◌else◌,
}
use whisper2peer.Ringbuffer.{
  Ringbuffer, next, unlink, link_new, make_room, insert_behind, insert, remove, new_ringbuffer,
}
use whisper2peer.Ringbuffer.Valid.{
  IsValid, elements, insert-IsValid, new_ringbuffer-IsValid, remove-Removed,
}

-- The pointer of the buffer is at the newest value, and the oldest follows it.
abbrev pub aged {ℓ} : {A : Type ℓ} → Ringbuffer A → List A
unfolding next
aged r = next (elements r)

-- A queue of at most `limit` values: a push into a full one drops the oldest.
abbrev pub push_bounded {ℓ} : {A : Type ℓ} → ℕ → List A → A → List A
push_bounded limit q v = (if leb limit (length q) then drop 1 q else q) ++ v ∷ []

-- The last values of a list, at most `limit` of them.
abbrev pub take_last {ℓ} : {A : Type ℓ} → ℕ → List A → List A
take_last limit xs = drop (length xs - limit) xs

module _ {A : Type 0} where
  -- Behind the newest value of a ring that the insertion has just extended stand the others,
  -- oldest first.
  aged-insert_of_ring :
      (ring : List A) (len limit : ℕ) (v : A)
      → let r : Ringbuffer A = record { ring = ring; len = len; cap = limit } in
        IsValid r → aged (insert r v) ≡ push_bounded limit (aged r) v
  unfolding insert insert_behind make_room next unlink link_new
  aged-insert_of_ring [] len limit v h = ground arith
  aged-insert_of_ring (x ∷ []) len limit v h = ground arith
  aged-insert_of_ring (x ∷ y ∷ ys) len limit v h = ground (arith, length-append ys (x ∷ []))

  -- An insertion into a valid buffer is the push into the bounded queue.
  pub aged-insert :
      (r : Ringbuffer A) (v : A) → IsValid r → aged (insert r v) ≡ push_bounded r.cap (aged r) v
  aged-insert r v h = aged-insert_of_ring r.ring r.len r.cap v h

  drop-suc : (n : ℕ) (xs : List A) → drop 1 (drop n xs) ≡ drop (suc n) xs
  drop-suc zero xs = refl
  drop-suc (suc n) [] = refl
  drop-suc (suc n) (x ∷ xs) = drop-suc n xs

  drop-append : (n : ℕ) (xs ys : List A) → n ≤ length xs → drop n (xs ++ ys) ≡ drop n xs ++ ys
  drop-append zero xs ys h = refl
  drop-append (suc n) [] ys h = absurd (omega arith)
  drop-append (suc n) (x ∷ xs) ys h = drop-append n xs ys (omega arith)

  push_bounded-take_last :
      (limit : ℕ) (xs : List A) (v : A)
      → 1 ≤ limit
      → push_bounded limit (take_last limit xs) v ≡ take_last limit (xs ++ v ∷ [])
  push_bounded-take_last limit xs v h = elim (Bool-cases (leb limit (length xs))) [
    | inl full ↦
        let e : length (xs ++ v ∷ []) - limit ≡ suc (length xs - limit) =
          ground (arith, length-append xs (v ∷ [])) in
        rw e (
          ground (
            arith,
            length-drop (length xs - limit) xs,
            drop-suc (length xs - limit) xs,
            drop-append (suc (length xs - limit)) xs (v ∷ []),
          ))
    | inr free ↦
        let e : length (xs ++ v ∷ []) - limit ≡ 0 = ground (arith, length-append xs (v ∷ [])) in
        let e' : length xs - limit ≡ 0 = ground arith in rw (e, e') (ground arith)
  ]

  -- The buffer is valid and holds the last values of the history, as many as it has room for.
  pub record Holds (limit : ℕ) (history : List A) (r : Ringbuffer A) : Type 0 where
    pub valid : IsValid r
    pub limited : r.cap ≡ limit
    pub last : aged r ≡ take_last limit history

  insert-Holds :
      (limit : ℕ) (history : List A) (r : Ringbuffer A) (v : A)
      → Holds limit history r
      → Holds limit (history ++ v ∷ []) (insert r v)
  unfolding aged
  insert-Holds limit history r v h = record {
    valid = insert-IsValid r v h.valid;
    limited = unfold insert insert_behind make_room in ground arith;
    last =
        aged-insert r v h.valid
        ∙ rw (h.limited, h.last)
            (push_bounded-take_last limit history v (omega (arith, h.valid.roomy)));
  }

  foldl-insert-Holds :
      (limit : ℕ) (history vs : List A) (r : Ringbuffer A)
      → Holds limit history r
      → Holds limit (history ++ vs) (foldl insert r vs)
  foldl-insert-Holds limit history [] r h = rw append-nil h
  foldl-insert-Holds limit history (v ∷ vs) r h =
      subst (λ xs. Holds limit xs (foldl insert (insert r v) vs)) (append_assoc history (v ∷ []) vs)
        (foldl-insert-Holds limit (history ++ v ∷ []) vs (insert r v)
          (insert-Holds limit history r v h))

  -- Any sequence of insertions into a new buffer of capacity two or more leaves the last values
  -- of the sequence, as many as the capacity allows, in the order of their insertion.
  pub foldl-insert-new_ringbuffer :
      (capacity : ℕ) (vs : List A)
      → 2 ≤ capacity
      → Holds capacity vs (foldl insert (new_ringbuffer capacity) vs)
  unfolding new_ringbuffer next
  foldl-insert-new_ringbuffer capacity vs h =
      foldl-insert-Holds capacity [] vs (new_ringbuffer capacity)
        (record { valid = new_ringbuffer-IsValid capacity h; limited = refl; last = ground arith })

module _ {A : Type 0} (dec : Discrete A) where
  -- Removing the newest of two or more values of a valid buffer makes the oldest value count as
  -- the newest: it goes from the front of the queue to its end.
  pub aged-remove_newest :
      (r : Ringbuffer A) (newest oldest : A) (others : List A)
      → IsValid r
      → elements r ≡ newest ∷ oldest ∷ others
      → (aged r ≡ oldest ∷ others ++ newest ∷ [])
        × (aged (remove dec r newest).0 ≡ others ++ oldest ∷ [])
  unfolding aged
  aged-remove_newest r newest oldest others h e =
      let e' : erase dec (newest ∷ oldest ∷ others) newest ≡ oldest ∷ others =
        if_pos (dec newest newest) refl _ _ in
      (
        ap next e,
        ap next ((remove-Removed dec newest r h).1 ∙ ap (λ xs. erase dec xs newest) e ∙ e'),
      )
