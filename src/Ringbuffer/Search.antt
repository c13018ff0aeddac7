-- ===== src/Ringbuffer/Search.antt =====
-- The iterations of ringbuffer.go, which are loops from `r.data` round to it, against the one list
-- that `ExtractToSlice` gives.
use mathlib.Core.List.{foldl, head?}
use whisper2peer.Base.{
  inl, inr, Bool-cases, Bool, ◌≡◌, refl, sym, ◌∙◌, List, [], ◌∷◌, ◌++◌, append-nil, append_assoc,
  arith, keep, find, ◌==◌,
}
use whisper2peer.Ringbuffer.{
  Ringbuffer, do_loop, do_each, filter_loop, filter, find_loop, find_first, extract_to_slice,
}
use whisper2peer.Ringbuffer.Valid.{elements}

module _ {A : Type 0} where
  do_loop-foldl {κ} :
      {S : Type κ} (f : A → S → S) (xs : List A) (s : S)
      → do_loop f xs s ≡ foldl (λ t x. f x t) s xs
  unfolding do_loop
  do_loop-foldl f [] s = refl
  do_loop-foldl f (x ∷ xs) s = do_loop-foldl f xs (f x s)

  do_loop-append : (xs ret : List A) → do_loop (λ x acc. acc ++ x ∷ []) xs ret ≡ ret ++ xs
  unfolding do_loop
  do_loop-append [] ret = sym (append-nil ret)
  do_loop-append (x ∷ xs) ret = do_loop-append xs (ret ++ x ∷ []) ∙ append_assoc ret (x ∷ []) xs

  -- The slice is what the buffer shows.
  pub extract_to_slice-elements : (r : Ringbuffer A) → extract_to_slice r ≡ elements r
  unfolding extract_to_slice
  extract_to_slice-elements r = ground (arith, do_loop-append r.ring [])

  -- `Do` calls the closure on the elements of the slice, each once and in their order.
  pub do_each-extract_to_slice {κ} :
      {S : Type κ} (r : Ringbuffer A) (f : A → S → S) (s : S)
      → do_each r f s ≡ foldl (λ t x. f x t) s (extract_to_slice r)
  unfolding do_each
  do_each-extract_to_slice r f s =
      rw (extract_to_slice-elements r)
        (elim (Bool-cases (r.len == 0)) [ inl e ↦ rw e | inr e ↦ rw e (do_loop-foldl f r.ring s) ])

  filter_loop-append :
      (f : A → Bool) (xs result : List A) → filter_loop f xs result ≡ result ++ keep f xs
  unfolding filter_loop
  filter_loop-append f [] result = sym (append-nil result)
  filter_loop-append f (x ∷ xs) result = ground (
    arith,
    filter_loop-append f xs result,
    filter_loop-append f xs (result ++ x ∷ []),
    append_assoc result (x ∷ []) (keep f xs),
  )

  find_loop-find : (f : A → Bool) (xs : List A) → find_loop f xs ≡ find f xs
  unfolding find_loop
  find_loop-find f [] = refl
  find_loop-find f (x ∷ xs) = ground (arith, find_loop-find f xs)

  -- `Filter` gives the elements of the slice that pass, in their order.
  pub filter-extract_to_slice :
      (r : Ringbuffer A) (f : A → Bool) → filter r f ≡ keep f (extract_to_slice r)
  unfolding filter
  filter-extract_to_slice r f =
      ground (arith, extract_to_slice-elements r, filter_loop-append f r.ring [])

  -- What `FindFirst` gives, from the buffer's elements.
  pub find_first-elements : (r : Ringbuffer A) (f : A → Bool) → find_first r f ≡ find f (elements r)
  unfolding find_first
  find_first-elements r f = ground (arith, find_loop-find f r.ring)

  find-head? : (f : A → Bool) (xs : List A) → find f xs ≡ head? (keep f xs)
  find-head? f [] = refl
  find-head? f (x ∷ xs) = ground (arith, find-head? f xs)

  -- `FindFirst` gives the first element of `Filter`, and its error where `Filter` gives none.
  pub find_first-filter : (r : Ringbuffer A) (f : A → Bool) → find_first r f ≡ head? (filter r f)
  find_first-filter r f =
      rw (find_first-elements r f, filter-extract_to_slice r f, extract_to_slice-elements r)
        (find-head? f (elements r))
