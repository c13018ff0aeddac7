-- ===== src/TestBench/Book/Kept.antt =====
-- The distances that a book keeps are those that would be calculated again.
use whisper2peer.Base.{
  ℕ, ◌+◌, ◌%◌, ◌^◌, ◌≡◌, refl, ap, sym, ◌∙◌, Bool, true, false, Option, none, some, List, [], ◌∷◌,
  ◌==◌, ==_refl, if◌then◌else◌, arith,
}
use whisper2peer.TestBench.Distances.{Distances, visited, put}
use whisper2peer.TestBench.Book.{
  DistanceBook, zeros, value, Counts, noted, one_more, count_one, count_all, calculated,
  setup_for_distance,
}

-- The two maps have the same keys, and the counts of the evaluation are 0.
abbrev Alike : Counts → Type 0
Alike c = (d : ℕ) → c.dist_cnt d ≡ zeros c.max_cnt d

zeros-if :
    (b : Bool) (x : ℕ) (o : Option ℕ)
    → (elim (if b then some x else o) as (λ _. Option ℕ) [ some n ↦ some 0 | none ↦ none ])
      ≡ (if b then some 0 else elim o as (λ _. Option ℕ) [ some n ↦ some 0 | none ↦ none ])
zeros-if true x o = refl
zeros-if false x o = refl

zeros-put :
    (v x : ℕ) (cnt : Distances) (d : ℕ)
    → zeros (put v x cnt) d ≡ (if d == v then some 0 else zeros cnt d)
zeros-put v x cnt d = zeros-if (d == v) x (cnt d)

-- A known distance has the count 0.
known_zero :
    (o p : Option ℕ)
    → o ≡ (elim p as (λ _. Option ℕ) [ some n ↦ some 0 | none ↦ none ])
    → (elim o as (λ _. Bool) [ some n ↦ true | none ↦ false ]) ≡ true
    → o ≡ some 0
known_zero none p e h = absurd (ground (arith, h))
known_zero (some n) none e h = absurd (ground (arith, e))
known_zero (some n) (some m) e h = e

known_at :
    (d v : ℕ) (f g : Distances) → f v ≡ some 0 → f d ≡ g d → f d ≡ (if d == v then some 0 else g d)
known_at d v f g e h = ground (arith, e, h)

new_at :
    (d v : ℕ) (o p : Option ℕ)
    → o ≡ p
    → (if d == v then some 0 else o) ≡ (if d == v then some 0 else if d == v then some 0 else p)
new_at d v o p h = ground (arith, h)

count_one-Alike :
    (v : ℕ) (c : Counts) (known : Bool)
    → visited c.dist_cnt v ≡ known
    → Alike c
    → Alike (one_more v (noted v known c))
count_one-Alike v c true k h d =
    known_at d v c.dist_cnt (zeros c.max_cnt) (known_zero (c.dist_cnt v) (c.max_cnt v) (h v) k)
      (h d)
    ∙ sym (zeros-put v ((value (c.max_cnt v) + 1) % 2 ^ 64) c.max_cnt d)
count_one-Alike v c false k h d =
    let max = put v 0 c.max_cnt in
    new_at d v (c.dist_cnt d) (zeros c.max_cnt d) (h d)
    ∙ ap (λ o. if d == v then some 0 else o) (sym (zeros-put v 0 c.max_cnt d))
    ∙ sym (zeros-put v ((value (max v) + 1) % 2 ^ 64) max d)

count_all-Alike : (nodes : List (ℕ × ℕ)) (c : Counts) → Alike c → Alike (count_all nodes c)
unfolding count_all
count_all-Alike [] c h = h
count_all-Alike ((n, v) ∷ nodes) c h =
    count_all-Alike nodes (count_one v c) (count_one-Alike v c (visited c.dist_cnt v) refl h)

-- A book that was calculated for a start node, asked again for it, is as it was, and gives the counts
-- that the calculation gave.
pub setup_for_distance-calculated :
    (sort : List ℕ → List ℕ) (gen_distances : ℕ → List (ℕ × ℕ)) (book : DistanceBook) (start d : ℕ)
    → let first = calculated sort gen_distances book start in
      let again = setup_for_distance sort gen_distances first.0 start in
      (again.0 ≡ first.0) × (again.1 d ≡ first.1 d)
unfolding setup_for_distance
setup_for_distance-calculated sort gen_distances book start d =
    let first = calculated sort gen_distances book start in
    let alike =
      count_all-Alike (gen_distances start)
        (record { dist_cnt = λ x. none; max_cnt = λ x. none; ord = book.dist_ord }) (λ x. refl) in
    (
      ap
          (λ b.
            (if b
              then (first.0, zeros (first.0).dist_max_cnt)
              else calculated sort gen_distances first.0 start).0)
          (==_refl start),
      ap
            (λ b.
              (if b
                  then (first.0, zeros (first.0).dist_max_cnt)
                  else calculated sort gen_distances first.0 start).1
                d)
            (==_refl start)
          ∙ sym (alike d),
    )
