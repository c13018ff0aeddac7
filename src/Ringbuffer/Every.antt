-- ===== src/Ringbuffer/Every.antt =====
-- What holds of each value in the ring of ringbuffer.go, whatever its counters are.
use whisper2peer.Base.{
  ◌≡◌, Bool, true, false, Option, none, some, List, [], ◌∷◌, ◌++◌, ite, leb, ◌==◌, if◌then◌else◌,
  All, All-append, Bool-cases, inl, inr, ◌-◌, arith,
}
use whisper2peer.Ringbuffer.{
  Ringbuffer, Error, not_present, next, last_first, prev, unlink, link_new, make_room,
  insert_behind, insert, unlink_at, remove_loop, remove, find_loop, find_first, extract_to_slice,
}
use whisper2peer.Ringbuffer.Search.{extract_to_slice-elements}

module _ {A : Type 0} (P : A → Type 0) where
  abbrev pub Every : Ringbuffer A → Type 0
  Every r = All P r.ring

  next-All : (r : List A) → All P r → All P (next r)
  unfolding next
  next-All [] h = tt
  next-All (x ∷ xs) h = All-append P xs (x ∷ []) h.1 (h.0, tt)

  last_first-All : (x : A) (xs : List A) → P x → All P xs → All P (last_first x xs)
  unfolding last_first
  last_first-All x [] p h = (p, tt)
  last_first-All x (y ∷ ys) p h = swapped (last_first y ys) p (last_first-All y ys h.0 h.1)
    where
      swapped : (l : List A) → P x → All P l → All P (elim l [ [] ↦ x ∷ [] | z ∷ zs ↦ z ∷ x ∷ zs ])
      swapped [] p h = (p, tt)
      swapped (z ∷ zs) p h = (h.0, (p, h.1))

  prev-All : (r : List A) → All P r → All P (prev r)
  unfolding prev
  prev-All [] h = tt
  prev-All (x ∷ xs) h = last_first-All x xs h.0 h.1

  unlink-All : (r : List A) → All P r → All P (unlink r)
  unfolding unlink
  unlink-All [] h = tt
  unlink-All (x ∷ []) h = h
  unlink-All (x ∷ y ∷ ys) h = (h.0, h.1.1)

  if-All : (b : Bool) (xs ys : List A) → All P xs → All P ys → All P (if b then xs else ys)
  if-All true xs ys hx hy = hx
  if-All false xs ys hx hy = hy

  if-Every : (b : Bool) (r s : Ringbuffer A) → Every r → Every s → Every (if b then r else s)
  if-Every true r s hr hs = hr
  if-Every false r s hr hs = hs

  pub insert-Every : (r : Ringbuffer A) (v : A) → P v → Every r → Every (insert r v)
  unfolding insert insert_behind make_room link_new
  insert-Every r v p h =
      if-Every (r.len == 0) (record r { ring = v ∷ [] }) (insert_behind r v) (p, tt)
        (p, next-All (make_room r).ring (if-Every (leb r.cap r.len) _ r (unlink-All r.ring h) h))

  unlink_at-All :
      (before : List A) (x : A) (after : List A)
      → All P before
      → P x
      → All P after
      → All P (unlink_at before x after)
  unfolding unlink_at
  unlink_at-All [] x after hb p ha =
      next-All (unlink (prev (x ∷ after)))
        (unlink-All (prev (x ∷ after)) (prev-All (x ∷ after) (p, ha)))
  unlink_at-All (b ∷ before) x after hb p ha = (hb.0, All-append P before after hb.1 ha)

  -- A postcondition on an optional result.
  abbrev pub Given {ℓ} : {B : Type ℓ} → (B → Type 0) → Option B → Type 0
  Given Q none = Unit
  Given Q (some b) = Q b

  remove_loop-All :
      (dec : Discrete A) (v : A) (before xs : List A)
      → All P before
      → All P xs
      → Given (All P) (remove_loop dec v before xs)
  unfolding remove_loop
  remove_loop-All dec v before [] hb h = tt
  remove_loop-All dec v before (x ∷ after) hb h =
      elim (dec x v)
        as (λ d.
          Given (All P) (
            ite d (some (unlink_at before x after)) (remove_loop dec v (before ++ x ∷ []) after))) [
              | yes same ↦ unlink_at-All before x after hb h.0 h.1
              | no other ↦
                  remove_loop-All dec v (before ++ x ∷ []) after
                    (All-append P before (x ∷ []) hb (h.0, tt)) h.1
            ]

  replaced :
      (r : Ringbuffer A) (o : Option (List A))
      → Every r
      → Given (All P) o
      → Every
          (elim o as (λ _. Ringbuffer A × Option Error) [
            | none ↦ (r, some not_present)
            | some ring ↦ (record r { ring = ring; len = r.len - 1 }, none)
          ]).0
  replaced r none h g = h
  replaced r (some ring) h g = g

  pub remove-Every :
      (dec : Discrete A) (r : Ringbuffer A) (v : A) → Every r → Every (remove dec r v).0
  unfolding remove
  remove-Every dec r v h = elim (Bool-cases (r.len == 0)) [
    | inl empty ↦ rw empty h
    | inr filled ↦
        rw filled
          (replaced r (remove_loop dec v [] r.ring) h (remove_loop-All dec v [] r.ring tt h))
  ]

  find_loop-All :
      (f : A → Bool) (xs : List A) (p : A) → All P xs → find_loop f xs ≡ some p → P p × (f p ≡ true)
  unfolding find_loop
  find_loop-All f [] p h e = absurd (ground arith)
  find_loop-All f (x ∷ xs) p h e = elim (Bool-cases (f x)) [
    | inl hit ↦ ground (arith, h, hit)
    | inr miss ↦ find_loop-All f xs p h.1 (ground arith)
  ]

  pub find_first-Every :
      (r : Ringbuffer A) (f : A → Bool) (p : A)
      → Every r
      → find_first r f ≡ some p
      → P p × (f p ≡ true)
  unfolding find_first
  find_first-Every r f p h e = find_loop-All f r.ring p h (ground arith)

  pub extract_to_slice-Every : (r : Ringbuffer A) → Every r → All P (extract_to_slice r)
  extract_to_slice-Every r h = rw (extract_to_slice-elements r) (if-All (r.len == 0) [] r.ring tt h)
