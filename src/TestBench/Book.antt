-- ===== src/TestBench/Book.antt =====
-- gossip/internal/testutils/distanceBook.go: the distances from the start node that the evaluations
-- of the test bench share.
--
-- The distances of a graph are a list of nodes with their distances, in the order in which Go walks
-- the map; another map is a function. `slices.Sort` is a parameter.
pub mod Kept
pub mod Examples
use whisper2peer.Base.{
  ℕ, ◌+◌, ◌%◌, ◌^◌, Bool, true, false, Option, none, some, List, [], ◌∷◌, ◌++◌, ◌==◌, ◌&&◌,
  if◌then◌else◌,
}
use whisper2peer.TestBench.Distances.{Distances, visited, put}

pub record DistanceBook : Type 0 where
  pub valid : Bool
  pub start_node : ℕ
  pub node_to_dist : List (ℕ × ℕ)
  pub dist_ord : List ℕ
  pub dist_max_cnt : Distances

-- A new book, with empty maps.
abbrev pub zero_book : DistanceBook
zero_book = record {
  valid = false;
  start_node = 0;
  node_to_dist = [];
  dist_ord = [];
  dist_max_cnt = λ d. none;
}

-- The counts with which an evaluation begins: 0 for each known distance.
abbrev pub zeros : Distances → Distances
zeros cnt = λ d. elim (cnt d) [ some n ↦ some 0 | none ↦ none ]

-- The value of a missing key is 0.
abbrev pub value : Option ℕ → ℕ
value none = 0
value (some n) = n

-- What the loop changes: `distCnt`, and the book's counts and order.
pub record Counts : Type 0 where
  pub dist_cnt : Distances
  pub max_cnt : Distances
  pub ord : List ℕ

-- The `if` of the loop, where the distance has been met or not.
abbrev pub noted : ℕ → Bool → Counts → Counts
noted v true c = c
noted v false c = record {
  dist_cnt = put v 0 c.dist_cnt;
  max_cnt = put v 0 c.max_cnt;
  ord = c.ord ++ v ∷ [];
}

-- `distMaxCnt[v] += 1`, on 64 bits.
abbrev pub one_more : ℕ → Counts → Counts
one_more v c = record c { max_cnt = put v ((value (c.max_cnt v) + 1) % 2 ^ 64) c.max_cnt }

-- A round of the loop for the distance of a node.
abbrev pub count_one : ℕ → Counts → Counts
count_one v c = one_more v (noted v (visited c.dist_cnt v) c)

unfoldable pub count_all : List (ℕ × ℕ) → Counts → Counts
count_all [] c = c
count_all ((n, v) ∷ nodes) c = count_all nodes (count_one v c)

-- The book and the counts where the distances are calculated.
abbrev pub calculated :
    (List ℕ → List ℕ) → (ℕ → List (ℕ × ℕ)) → DistanceBook → ℕ → DistanceBook × Distances
calculated sort gen_distances book start =
    let nodes = gen_distances start in
    let c =
      count_all nodes (record { dist_cnt = λ d. none; max_cnt = λ d. none; ord = book.dist_ord }) in
    (
      record {
        valid = true;
        start_node = start;
        node_to_dist = nodes;
        dist_ord = sort c.ord;
        dist_max_cnt = c.max_cnt;
      },
      c.dist_cnt,
    )

-- `processingSetupForDistance`, with the counts that it returns.
unfoldable pub setup_for_distance :
    (List ℕ → List ℕ) → (ℕ → List (ℕ × ℕ)) → DistanceBook → ℕ → DistanceBook × Distances
setup_for_distance sort gen_distances book start =
    if book.valid && book.start_node == start
    then (book, zeros book.dist_max_cnt)
    else calculated sort gen_distances book start
