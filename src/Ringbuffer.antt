-- ===== src/Ringbuffer.antt =====
-- gossip/internal/ringbuffer/ringbuffer.go: the buffer of fixed capacity over `container/ring`.
--
-- A `*ring.Ring` is the sequence of the values met from that element on by `Next`, the element
-- itself first; `[]` is the nil pointer. A value may stand in the ring twice, so an element is
-- known by its place: the loop of `Remove` carries the places before `i` and behind it, and
-- `r.data == i` says that no place is before `i`.
-- A nil ring with a nonzero `len`, at which the Go code dereferences nil, is excluded by
-- `IsValid` (Ringbuffer/Valid.antt). `len` and `cap` are plain numbers: with `len ≤ cap` the
-- machine's `uint` does not wrap.
pub mod Valid
pub mod Queue
pub mod Search
pub mod Every
pub mod Capacity
pub mod Examples
use whisper2peer.Base.{
  ℕ, suc, ◌+◌, ◌-◌, Bool, true, false, Option, none, some, List, [], ◌∷◌, ◌++◌, ite, leb, ◌==◌,
  if◌then◌else◌,
}

-- `container/ring`.
module _ {ℓ} {A : Type ℓ} where
  -- `r.Next()`: the same ring, seen from the following element.
  pub next : List A → List A
  next [] = []
  next (x ∷ xs) = xs ++ x ∷ []

  -- The last element of a nonempty list, put in front of the others.
  last_first : A → List A → List A
  last_first x [] = x ∷ []
  last_first x (y ∷ ys) = elim (last_first y ys) [ [] ↦ x ∷ [] | z ∷ zs ↦ z ∷ x ∷ zs ]

  -- `r.Prev()`: the same ring, seen from the preceding element.
  pub prev : List A → List A
  unfolding last_first
  prev [] = []
  prev (x ∷ xs) = last_first x xs

  -- `r.Unlink(1)`, seen from `r`: the following element goes; a ring of one element stays.
  pub unlink : List A → List A
  unlink [] = []
  unlink (x ∷ []) = x ∷ []
  unlink (x ∷ y ∷ ys) = x ∷ ys

  -- `r.Link(x)` for a new ring `x` of the one value `v`, seen from `x`: behind `x` stands what
  -- followed `r`, and `r` comes last.
  pub link_new : List A → A → List A
  unfolding next
  link_new r v = v ∷ next r

pub record Ringbuffer {ℓ} (A : Type ℓ) : Type ℓ where
  pub ring : List A
  pub len : ℕ
  pub cap : ℕ

pub data Error : Type 0 where
  not_present : Error

module _ {ℓ} {A : Type ℓ} where
  unfoldable pub new_ringbuffer : ℕ → Ringbuffer A
  new_ringbuffer capacity = record { ring = []; len = 0; cap = capacity }

  -- The `if r.len >= r.cap` of `Insert`.
  make_room : Ringbuffer A → Ringbuffer A
  unfolding unlink
  make_room r = if leb r.cap r.len then record r { ring = unlink r.ring; len = r.len - 1 } else r

  -- The `else` branch of `Insert`, up to the last `r.len++`.
  insert_behind : Ringbuffer A → A → Ringbuffer A
  unfolding make_room link_new
  insert_behind r v = let m = make_room r in record m { ring = link_new m.ring v }

  unfoldable pub insert : Ringbuffer A → A → Ringbuffer A
  unfolding insert_behind
  insert r v =
      let m = if r.len == 0 then record r { ring = v ∷ [] } else insert_behind r v in
      record m { len = m.len + 1 }

  -- The body of the loop of `Remove` at a hit, with the element `x` at `i`, as seen from the new
  -- `r.data`. At `r.data` itself the pointer moves to the next element.
  unlink_at : List A → A → List A → List A
  unfolding next prev unlink
  unlink_at [] x after = next (unlink (prev (x ∷ after)))
  unlink_at (b ∷ before) x after = b ∷ before ++ after

  -- The loop of `Remove`: `before` are the elements passed, and the list begins at `i`. It ends
  -- where the next element would be the first one again.
  remove_loop : Discrete A → A → List A → List A → Option (List A)
  unfolding unlink_at
  remove_loop dec v before [] = none
  remove_loop dec v before (x ∷ after) =
      ite (dec x v) (some (unlink_at before x after)) (remove_loop dec v (before ++ x ∷ []) after)

  -- The second part is the error of the call, `none` for nil.
  unfoldable pub remove : Discrete A → Ringbuffer A → A → Ringbuffer A × Option Error
  unfolding remove_loop
  remove dec r v =
      if r.len == 0 then (r, some not_present) else elim (remove_loop dec v [] r.ring) [
        | none ↦ (r, some not_present)
        | some ring ↦ (record r { ring = ring; len = r.len - 1 }, none)
      ]

  -- The loop of `Do`, from `i` to the end of the round.
  do_loop {κ} : {S : Type κ} → (A → S → S) → List A → S → S
  do_loop f [] s = s
  do_loop f (x ∷ xs) s = do_loop f xs (f x s)

  -- `f` is a Go closure: it takes the state that it changes, and returns it.
  unfoldable pub do_each {κ} : {S : Type κ} → Ringbuffer A → (A → S → S) → S → S
  unfolding do_loop
  do_each r f s = if r.len == 0 then s else do_loop f r.ring s

  -- The loop of `Filter`, which appends to `result`.
  filter_loop : (A → Bool) → List A → List A → List A
  filter_loop f [] result = result
  filter_loop f (x ∷ xs) result = filter_loop f xs (if f x then result ++ x ∷ [] else result)

  unfoldable pub filter : Ringbuffer A → (A → Bool) → List A
  unfolding filter_loop
  filter r f = if r.len == 0 then [] else filter_loop f r.ring []

  find_loop : (A → Bool) → List A → Option A
  find_loop f [] = none
  find_loop f (x ∷ xs) = if f x then some x else find_loop f xs

  -- `none` is the error `ErrNotPresent`.
  unfoldable pub find_first : Ringbuffer A → (A → Bool) → Option A
  unfolding find_loop
  find_first r f = if r.len == 0 then none else find_loop f r.ring

  unfoldable pub extract_to_slice : Ringbuffer A → List A
  unfolding do_each
  extract_to_slice r = do_each r (λ x ret. ret ++ x ∷ []) []
