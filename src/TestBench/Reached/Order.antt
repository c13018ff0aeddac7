-- ===== src/TestBench/Reached/Order.antt =====
-- The rows of `ProcessReachedDistCnt` for a new book: which distances they are about.
use mathlib.Core.List.{Perm, foldr}
use mathlib.Core.List.Perm
use native.Mathlib.Nat.{ℕ_set}
use Prim.Native.String.{String}
use whisper2peer.Base.{
  ℕ, suc, ◌+◌, Bool-cases, inl, inr, ◌^◌, ◌<◌, ◌≡◌, refl, sym, ap, subst, ◌∙◌, Bool, true, false,
  Option, none, some, List, [], ◌∷◌, ◌++◌, keep, length, ◌==◌, ◌||◌, if◌then◌else◌, arith,
}
use whisper2peer.TestBench.{Event}
use whisper2peer.TestBench.Sorting.{InOrder, Sorts}
use whisper2peer.TestBench.Distances.{Distances, visited, put}
use whisper2peer.TestBench.Book.{
  zero_book, Counts, noted, one_more, count_one, count_all, calculated, setup_for_distance,
}
use whisper2peer.TestBench.Reached.{reaches, dist_at, rows_at, process_reached_dist_cnt}
use whisper2peer.TestBench.Reached.Counted.{events_at, timeline, process_reached_dist_cnt-timeline}

abbrev once_more : ℕ → ℕ → ℕ → ℕ
once_more d x n = if x == d then suc n else n

-- How often a distance stands in a list.
abbrev pub times : ℕ → List ℕ → ℕ
times d xs = foldr (once_more d) 0 xs

-- Some node is at a distance.
abbrev pub is_distance : ℕ → List (ℕ × ℕ) → Bool
is_distance d [] = false
is_distance d ((n, v) ∷ nodes) = (v == d) || is_distance d nodes

once_more_comm : (d x y n : ℕ) → once_more d x (once_more d y n) ≡ once_more d y (once_more d x n)
once_more_comm d x y n = ground arith

times-Perm : (d : ℕ) (xs ys : List ℕ) → Perm xs ys → times d xs ≡ times d ys
times-Perm d xs ys p = Perm.foldr-eq ℕ_set (once_more d) (once_more_comm d) p 0

times-append : (d v : ℕ) (xs : List ℕ) → times d (xs ++ v ∷ []) ≡ times d xs + times d (v ∷ [])
times-append d v [] = omega arith
times-append d v (x ∷ xs) = ground (arith, times-append d v xs)

seen-if :
    (b : Bool) (x : ℕ) (o : Option ℕ)
    → (elim (if b then some x else o) as (λ _. Bool) [ some n ↦ true | none ↦ false ])
      ≡ (b || elim o as (λ _. Bool) [ some n ↦ true | none ↦ false ])
seen-if true x o = refl
seen-if false x o = refl

==_comm : (d v : ℕ) → (d == v) ≡ (v == d)
==_comm d v = ground arith

visited-put : (d v n : ℕ) (cnt : Distances) → visited (put v n cnt) d ≡ ((v == d) || visited cnt d)
visited-put d v n cnt = seen-if (d == v) n (cnt d) ∙ ap (λ b. b || visited cnt d) (==_comm d v)

-- A distance that was not met stands in the order once more.
met :
    (v d t : ℕ) (b : Bool)
    → t ≡ (if b then 1 else 0)
    → ((v == d) ≡ true → b ≡ false)
    → t + (if v == d then 1 else 0) ≡ (if (v == d) || b then 1 else 0)
met v d t b e fresh = elim (Bool-cases (v == d)) [
  | inl here ↦ ground (arith, e, here, fresh here)
  | inr other ↦ ground (arith, e, other)
]

not_met :
    (v d : ℕ) (cnt : Distances) → visited cnt v ≡ false → (v == d) ≡ true → visited cnt d ≡ false
not_met v d cnt k e =
    let same : v ≡ d = ground (arith, e) in subst (λ x. visited cnt x ≡ false) same k

-- The distances met so far stand in the order once.
abbrev Once : Counts → Type 0
Once c = (d : ℕ) → times d c.ord ≡ (if visited c.dist_cnt d then 1 else 0)

noted-Once :
    (v : ℕ) (known : Bool) (c : Counts)
    → visited c.dist_cnt v ≡ known
    → Once c
    → let c' = one_more v (noted v known c) in
      (d : ℕ)
      → (times d c'.ord ≡ (if visited c'.dist_cnt d then 1 else 0))
        × (visited c'.dist_cnt d ≡ ((v == d) || visited c.dist_cnt d))
noted-Once v true c k h d = (h d, known (v == d) refl)
  where
    known : (b : Bool) → (v == d) ≡ b → visited c.dist_cnt d ≡ (b || visited c.dist_cnt d)
    known true e =
        let same : v ≡ d = ground (arith, e) in subst (λ x. visited c.dist_cnt x ≡ true) same k
    known false e = refl
noted-Once v false c k h d =
    let put_there = visited-put d v 0 c.dist_cnt in
    (
      times-append d v c.ord
          ∙ met v d (times d c.ord) (visited c.dist_cnt d) (h d) (not_met v d c.dist_cnt k)
          ∙ ap (λ b. if b then 1 else 0) (sym put_there),
      put_there,
    )

count_all-Once :
    (nodes : List (ℕ × ℕ)) (c : Counts)
    → Once c
    → let c' = count_all nodes c in
      (d : ℕ)
      → (times d c'.ord ≡ (if visited c'.dist_cnt d then 1 else 0))
        × (visited c'.dist_cnt d ≡ (is_distance d nodes || visited c.dist_cnt d))
unfolding count_all
count_all-Once [] c h d = (h d, refl)
count_all-Once ((n, v) ∷ nodes) c h d =
    let first = noted-Once v (visited c.dist_cnt v) c refl h in
    let rest = count_all-Once nodes (count_one v c) (λ x. (first x).0) d in
    (rest.0, rest.1 ∙ ground (arith, (first d).1))

-- The order of a new book has each distance of a node once, and no other.
order-once :
    (sort : List ℕ → List ℕ) (gen_distances : ℕ → List (ℕ × ℕ)) (start d : ℕ)
    → Sorts (λ d. d) sort
    → times d (calculated sort gen_distances zero_book start).0.dist_ord
      ≡ (if is_distance d (gen_distances start) then 1 else 0)
order-once sort gen_distances start d sorts =
    let nodes = gen_distances start in
    let first : Counts = record { dist_cnt = λ d. none; max_cnt = λ d. none; ord = [] } in
    let (once, met) = count_all-Once nodes first (λ x. refl) d in
    times-Perm d (sort (count_all nodes first).ord) (count_all nodes first).ord
      (sorts.permutes (count_all nodes first).ord)
    ∙ once
    ∙ ground (arith, met)

-- For a new book, with a sort that sorts, and fewer than `2 ^ 64` chosen events, there is a list of
-- distances that rises, in which each distance of some node of the graph stands once and no other
-- number does. The rows are: for each of these distances a row with 0 at the start of the test, then
-- for each event a row with the number of the events so far from nodes at the same distance, and at
-- the end for each of these distances a row with the number of all events from nodes at it.
pub process_reached_dist_cnt-order :
    (sort : List ℕ → List ℕ) (gen_distances : ℕ → List (ℕ × ℕ)) (peers_lut : String → ℕ)
    (tmin tmax : ℕ) (events : List Event) (start gtype : ℕ) (all : Bool)
    → Sorts (λ d. d) sort
    → length (keep (reaches gtype all) events) < 2 ^ 64
    → let es = keep (reaches gtype all) events in
      let dist : Event → ℕ = λ e. dist_at (gen_distances start) (peers_lut e.id) in
      (ord : List ℕ) × InOrder (λ d. d) 0 ord
      × ((d : ℕ) → times d ord ≡ (if is_distance d (gen_distances start) then 1 else 0))
      × ((process_reached_dist_cnt sort gen_distances peers_lut zero_book tmin tmax events start
            gtype all).0
          ≡ rows_at tmin (λ d. 0) ord
            ++ (timeline dist [] es ++ rows_at tmax (λ d. events_at dist d es) ord))
unfolding setup_for_distance
process_reached_dist_cnt-order sort gen_distances peers_lut tmin tmax events start gtype all sorts
      small =
    let book = (calculated sort gen_distances zero_book start).0 in
    (
      book.dist_ord,
      sorts.orders _,
      λ d. order-once sort gen_distances start d sorts,
      process_reached_dist_cnt-timeline sort gen_distances peers_lut zero_book tmin tmax events
          start gtype all small,
    )
