-- ===== src/Ringbuffer/Valid.antt =====
-- The invariant of a buffer of capacity two or more, kept by every call of ringbuffer.go.
use mathlib.Core.List.{erase}
use whisper2peer.Base.{
  ℕ, ite, Bool, true, false, append_assoc, any, suc, ◌+◌, ◌≤◌, ◌≡◌, refl, ap, Option, none, some,
  List, [], ◌∷◌, ◌++◌, arith, length, length-append, ◌==◌, if◌then◌else◌,
}
use whisper2peer.Ringbuffer.{
  Ringbuffer, Error, not_present, next, prev, last_first, unlink, link_new, unlink_at, remove_loop,
  new_ringbuffer, insert, make_room, insert_behind, remove,
}

-- The elements that the calls show: a buffer emptied by `Remove` still points to its last element.
abbrev pub elements {ℓ} : {A : Type ℓ} → Ringbuffer A → List A
elements r = if r.len == 0 then [] else r.ring

pub record IsValid {ℓ} {A : Type ℓ} (r : Ringbuffer A) : Type 0 where
  pub sized : length (elements r) ≡ r.len
  pub bounded : r.len ≤ r.cap
  pub roomy : 2 ≤ r.cap

module _ {A : Type 0} where
  length-next : (r : List A) → length (next r) ≡ length r
  unfolding next
  length-next [] = refl
  length-next (x ∷ xs) = omega (arith, length-append xs (x ∷ []))

  length-last_first : (x : A) (xs : List A) → length (last_first x xs) ≡ suc (length xs)
  unfolding last_first
  length-last_first x [] = refl
  length-last_first x (y ∷ ys) = ground (arith, length-last_first y ys)

  length-prev : (r : List A) → length (prev r) ≡ length r
  unfolding prev
  length-prev [] = refl
  length-prev (x ∷ xs) = length-last_first x xs

  pub length-unlink : (r : List A) → 2 ≤ length r → length (unlink r) + 1 ≡ length r
  unfolding unlink
  length-unlink [] h = absurd (omega arith)
  length-unlink (x ∷ []) h = absurd (omega arith)
  length-unlink (x ∷ y ∷ ys) h = omega arith

  pub length-link_new : (r : List A) (v : A) → length (link_new r v) ≡ length r + 1
  unfolding link_new
  length-link_new r v = omega (arith, length-next r)

  pub new_ringbuffer-IsValid :
      (capacity : ℕ) → 2 ≤ capacity → IsValid (new_ringbuffer {A = A} capacity)
  unfolding new_ringbuffer
  new_ringbuffer-IsValid capacity h = record { sized = refl; bounded = omega arith; roomy = h }

  -- The call of `Insert` keeps the invariant, whether it evicts or not.
  pub insert-IsValid : (r : Ringbuffer A) (v : A) → IsValid r → IsValid (insert r v)
  unfolding insert insert_behind make_room
  insert-IsValid r v h =
      ground
        (arith, length-unlink r.ring, length-link_new (unlink r.ring) v, length-link_new r.ring v)

  -- An inserted value comes first.
  pub elements-insert :
      (r : Ringbuffer A) (v : A) → (rest : List A) × (elements (insert r v) ≡ v ∷ rest)
  unfolding insert insert_behind make_room link_new
  elements-insert r v = (if r.len == 0 then [] else next (make_room r).ring, ground arith)

  -- A value inserted into an empty buffer is alone.
  pub elements-insert_empty :
      (r : Ringbuffer A) (v : A) → IsValid r → elements r ≡ [] → elements (insert r v) ≡ v ∷ []
  unfolding insert insert_behind make_room link_new
  elements-insert_empty r v h e =
      let none_held : r.len ≡ 0 = omega (arith, h.sized, ap length e) in
      ground (arith, none_held, h.roomy)

  next-last_first : (x : A) (xs : List A) → next (last_first x xs) ≡ x ∷ xs
  unfolding next last_first
  next-last_first x [] = refl
  next-last_first x (y ∷ ys) = ground (arith, next-last_first y ys)

  -- Unlinking the first element leaves the others, in their order.
  unlink-last_first : (x y : A) (ys : List A) → next (unlink (last_first x (y ∷ ys))) ≡ y ∷ ys
  unfolding next unlink last_first
  unlink-last_first x y ys = ground (arith, next-last_first y ys)

module _ {A : Type 0} (dec : Discrete A) (v : A) where
  -- Whether the value stands in the list.
  abbrev pub has : List A → Bool
  has = any λ x. ite (dec x v) true false

  remove_loop-miss :
      (before after : List A) → has after ≡ false → remove_loop dec v before after ≡ none
  unfolding remove_loop
  remove_loop-miss before [] h = refl
  remove_loop-miss before (x ∷ after) h = ground (arith, remove_loop-miss (before ++ x ∷ []) after)

  remove_loop-hit :
      (b : A) (before after : List A)
      → has after ≡ true
      → remove_loop dec v (b ∷ before) after ≡ some (b ∷ before ++ erase dec after v)
  unfolding remove_loop unlink_at
  remove_loop-hit b before [] h = cc
  remove_loop-hit b before (x ∷ after) h = ground (
    arith,
    remove_loop-hit b (before ++ x ∷ []) after,
    append_assoc before (x ∷ []) (erase dec after v),
  )

  length-erase : (xs : List A) → length (erase dec xs v) + (if has xs then 1 else 0) ≡ length xs
  length-erase [] = refl
  length-erase (x ∷ xs) = ground (arith, length-erase xs)

  erase-miss : (xs : List A) → has xs ≡ false → erase dec xs v ≡ xs
  erase-miss [] h = refl
  erase-miss (x ∷ xs) h = ground (arith, erase-miss xs)

  -- The elements that a removal shows afterwards, from the ring of the buffer.
  remove_loop-erase :
      (x y : A) (ys : List A)
      → has (x ∷ y ∷ ys) ≡ true
      → remove_loop dec v [] (x ∷ y ∷ ys) ≡ some (erase dec (x ∷ y ∷ ys) v)
  unfolding remove_loop unlink_at prev
  remove_loop-erase x y ys h =
      ground (arith, unlink-last_first x y ys, remove_loop-hit x [] (y ∷ ys))

  -- What a removal leaves, for the buffer `r` before it.
  abbrev pub Removed : Ringbuffer A → Ringbuffer A × Option Error → Type 0
  Removed r q =
      IsValid q.0
      × (elements q.0 ≡ erase dec (elements r) v)
      × (q.1 ≡ (if has (elements r) then none else some not_present))

  remove-Removed_of_ring :
      (ring : List A) (len limit : ℕ)
      → let r : Ringbuffer A = record { ring = ring; len = len; cap = limit } in
        IsValid r → Removed r (remove dec r v)
  unfolding remove
  remove-Removed_of_ring [] len limit h = ground arith
  remove-Removed_of_ring (x ∷ []) len limit h = ground arith
  remove-Removed_of_ring (x ∷ y ∷ ys) len limit h = ground (
    arith,
    remove_loop-erase x y ys,
    remove_loop-miss [] (x ∷ y ∷ ys),
    erase-miss (x ∷ y ∷ ys),
    length-erase (x ∷ y ∷ ys),
  )

  -- A removal from a valid buffer keeps the invariant, and shows afterwards the elements with the
  -- first `v` taken out. It fails, with the buffer as it was, exactly when `v` is not there.
  pub remove-Removed : (r : Ringbuffer A) → IsValid r → Removed r (remove dec r v)
  remove-Removed r h = remove-Removed_of_ring r.ring r.len r.cap h
