-- ===== src/Ringbuffer/Examples.antt =====
-- Runs of the buffer, and the theorems at concrete inputs.
use mathlib.Core.List.{foldl}
use whisper2peer.Base.{ℕ, ◌≡◌, refl, none, some, List, [], ◌∷◌, arith, ℕ_discrete, length}
use whisper2peer.Ringbuffer.{
  Ringbuffer, not_present, insert, remove, new_ringbuffer, extract_to_slice,
}
use whisper2peer.Ringbuffer.Valid.{IsValid, Removed, elements, remove-Removed}
use whisper2peer.Ringbuffer.Queue.{Holds, foldl-insert-new_ringbuffer}
use whisper2peer.Ringbuffer.Capacity.{foldl-insert_overfull}

-- Four insertions at capacity three.
abbrev three : Ringbuffer ℕ
three = record { ring = 4 ∷ 2 ∷ 3 ∷ []; len = 3; cap = 3 }

abbrev inserted : List ℕ
inserted = 1 ∷ 2 ∷ 3 ∷ 4 ∷ []

three_built : foldl insert (new_ringbuffer 3) inserted ≡ three
unfolding insert new_ringbuffer
three_built = refl

three_slice : extract_to_slice three ≡ 4 ∷ 2 ∷ 3 ∷ []
unfolding extract_to_slice
three_slice = refl

remove_head : remove ℕ_discrete three 4 ≡ (record { ring = 2 ∷ 3 ∷ []; len = 2; cap = 3 }, none)
unfolding remove ℕ_discrete
remove_head = refl

remove_missing : remove ℕ_discrete three 9 ≡ (three, some not_present)
unfolding remove ℕ_discrete
remove_missing = refl

three-IsValid : IsValid three
three-IsValid = record { sized = refl; bounded = omega arith; roomy = omega arith }

foldl-insert-new_ringbuffer_example : Holds 3 inserted (foldl insert (new_ringbuffer 3) inserted)
foldl-insert-new_ringbuffer_example = foldl-insert-new_ringbuffer 3 inserted (omega arith)

remove-Removed_example : Removed ℕ_discrete 2 three (remove ℕ_discrete three 2)
remove-Removed_example = remove-Removed ℕ_discrete 2 three three-IsValid

foldl-insert_overfull_example :
    let r = foldl insert (new_ringbuffer 1) inserted in (length (elements r) ≡ 2) × (r.len ≡ 1)
foldl-insert_overfull_example = foldl-insert_overfull 1 1 2 (3 ∷ 4 ∷ []) (omega arith)
