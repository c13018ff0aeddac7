-- ===== src/TestBench/Sorting.antt =====
-- What the evaluations of the test bench use of the sorts of the library: their results are in the
-- order of a key. Insertion sort is one that can be evaluated.
use mathlib.Core.List.{Perm}
use mathlib.Core.List.Perm
use whisper2peer.Base.{
  ℕ, ◌≡◌, ◌≤◌, refl, Bool, true, false, List, [], ◌∷◌, ltb, if◌then◌else◌, arith,
}

module _ {A : Type 0} (key : A → ℕ) where
  -- The keys of the elements rise, and begin at or after a number.
  abbrev pub InOrder : ℕ → List A → Type 0
  InOrder t [] = Unit
  InOrder t (x ∷ xs) = (t ≤ key x) × InOrder (key x) xs

  -- `slices.Sort` and `slices.SortFunc`, as they are documented.
  pub record Sorts (sort : List A → List A) : Type 0 where
    pub permutes : (xs : List A) → Perm (sort xs) xs
    pub orders : (xs : List A) → InOrder 0 (sort xs)

  abbrev pub put : A → List A → List A
  put x [] = x ∷ []
  put x (y ∷ ys) = let rest = put x ys in if ltb (key y) (key x) then y ∷ rest else x ∷ y ∷ ys

  abbrev pub insertion_sort : List A → List A
  insertion_sort [] = []
  insertion_sort (x ∷ xs) = put x (insertion_sort xs)

  put-Perm : (x : A) (ys : List A) → Perm (put x ys) (x ∷ ys)
  put-Perm x [] = Perm.refl (x ∷ [])
  put-Perm x (y ∷ ys) =
      elim (ltb (key y) (key x))
        as (λ b. Perm (if b then y ∷ put x ys else x ∷ y ∷ ys) (x ∷ y ∷ ys)) [
          | true ↦ Perm.trans (Perm.cons y (put-Perm x ys)) (Perm.swap x y ys)
          | false ↦ Perm.refl (x ∷ y ∷ ys)
        ]

  insertion_sort-Perm : (xs : List A) → Perm (insertion_sort xs) xs
  insertion_sort-Perm [] = Perm.refl []
  insertion_sort-Perm (x ∷ xs) =
      Perm.trans (put-Perm x (insertion_sort xs)) (Perm.cons x (insertion_sort-Perm xs))

  put-InOrder : (t : ℕ) (x : A) (ys : List A) → t ≤ key x → InOrder t ys → InOrder t (put x ys)
  put-InOrder t x [] h o = (h, tt)
  put-InOrder t x (y ∷ ys) h o =
      choose (ltb (key y) (key x)) refl (λ k. put-InOrder (key y) x ys k o.1)
    where
      choose :
          (b : Bool)
          → ltb (key y) (key x) ≡ b
          → (key y ≤ key x → InOrder (key y) (put x ys))
          → InOrder t (if b then y ∷ put x ys else x ∷ y ∷ ys)
      choose true l rest = (o.0, rest (ground (arith, l)))
      choose false l rest = (h, (ground (arith, l), o.1))

  insertion_sort-InOrder : (xs : List A) → InOrder 0 (insertion_sort xs)
  insertion_sort-InOrder [] = tt
  insertion_sort-InOrder (x ∷ xs) =
      put-InOrder 0 x (insertion_sort xs) (omega arith) (insertion_sort-InOrder xs)

  pub insertion_sort-Sorts : Sorts insertion_sort
  insertion_sort-Sorts = record { permutes = insertion_sort-Perm; orders = insertion_sort-InOrder }
