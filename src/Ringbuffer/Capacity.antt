-- ===== src/Ringbuffer/Capacity.antt =====
-- `Insert` of ringbuffer.go at a capacity below two. `Unlink(1)` on a ring of one element unlinks
-- nothing, while `r.len--` counts an element as gone.
use mathlib.Core.List.{foldl}
use whisper2peer.Base.{ℕ, ◌<◌, ◌≡◌, List, [], ◌∷◌, arith, length}
use whisper2peer.Ringbuffer.{
  Ringbuffer, next, unlink, link_new, make_room, insert_behind, insert, new_ringbuffer,
}
use whisper2peer.Ringbuffer.Valid.{elements, length-unlink, length-link_new}

module _ {A : Type 0} where
  -- A ring of two elements, of which one is counted.
  abbrev Overfull : ℕ → Ringbuffer A → Type 0
  Overfull capacity r = (r.len ≡ 1) × (r.cap ≡ capacity) × (length r.ring ≡ 2)

  insert-Overfull :
      (capacity : ℕ) (r : Ringbuffer A) (v : A)
      → capacity < 2
      → Overfull capacity r
      → Overfull capacity (insert r v)
  unfolding insert insert_behind make_room
  insert-Overfull capacity r v small h =
      ground (arith, length-unlink r.ring, length-link_new (unlink r.ring) v)

  foldl-insert-Overfull :
      (capacity : ℕ) (vs : List A) (r : Ringbuffer A)
      → capacity < 2
      → Overfull capacity r
      → Overfull capacity (foldl insert r vs)
  foldl-insert-Overfull capacity [] r small h = h
  foldl-insert-Overfull capacity (v ∷ vs) r small h =
      foldl-insert-Overfull capacity vs (insert r v) small (insert-Overfull capacity r v small h)

  -- At capacity 0 or 1, from the second insertion on, the buffer shows two elements for ever,
  -- though it counts one: it holds more than its capacity.
  pub foldl-insert_overfull :
      (capacity : ℕ) (v w : A) (vs : List A)
      → capacity < 2
      → let r = foldl insert (new_ringbuffer capacity) (v ∷ w ∷ vs) in
        (length (elements r) ≡ 2) × (r.len ≡ 1)
  foldl-insert_overfull capacity v w vs small =
      let h =
        foldl-insert-Overfull capacity vs (insert (insert (new_ringbuffer capacity) v) w) small
          second in
      (ground arith, h.0)
    where
      second : Overfull capacity (insert (insert (new_ringbuffer capacity) v) w)
      second =
          unfold insert insert_behind make_room new_ringbuffer unlink link_new next in ground arith
