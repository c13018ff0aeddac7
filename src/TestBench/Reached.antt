-- ===== src/TestBench/Reached.antt =====
-- `ProcessReachedDistCnt` and `ProcessGraphDistCnt` in
-- gossip/internal/testutils/tester_processing.go, in the state in which the tester processes: how
-- many nodes a message has reached over time, by their distance from the start node.
--
-- A row has a time that the code then gives in seconds from the start of the test. The map from the
-- ids of the nodes to the nodes is a function, 0 for a missing key.
pub mod Counted
pub mod Order
pub mod Examples
use Prim.Native.String.{String}
use text.Mathlib.Text.{◌==◌ as str_eq}
use whisper2peer.Base.{
  ℕ, ◌+◌, ◌%◌, ◌^◌, Bool, true, false, Option, none, some, List, [], ◌∷◌, ◌++◌, map, keep, ◌==◌,
  ◌&&◌, ◌||◌, if◌then◌else◌,
}
use whisper2peer.TestBench.{Event}
use whisper2peer.TestBench.Distances.{Distances, put}
use whisper2peer.TestBench.Book.{DistanceBook, value, setup_for_distance}

-- `ReachedDistCnt`.
pub record ReachedRow : Type 0 where
  pub time : ℕ
  pub distance : ℕ
  pub reached : ℕ

abbrev pub reaches : ℕ → Bool → Event → Bool
reaches gtype all e =
    (str_eq e.msg "received" || str_eq e.msg "announce") && (all || (gtype == e.msg_type))

-- `nodeToDist[n]`, 0 for a missing key.
unfoldable pub dist_at : List (ℕ × ℕ) → ℕ → ℕ
dist_at [] n = 0
dist_at ((m, d) ∷ nodes) n = if m == n then d else dist_at nodes n

-- `distCnt[dist] += 1`, on 64 bits.
abbrev pub reach : ℕ → Distances → Distances
reach d cnt = put d ((value (cnt d) + 1) % 2 ^ 64) cnt

-- The loop over the events, by the distance of the node of an event.
unfoldable pub count_events : (Event → ℕ) → Distances → List Event → List ReachedRow × Distances
count_events dist cnt [] = ([], cnt)
count_events dist cnt (e ∷ es) =
    let d = dist e in
    let cnt' = reach d cnt in
    let rest = count_events dist cnt' es in
    (record { time = e.time; distance = d; reached = value (cnt' d) } ∷ rest.0, rest.1)

-- The rows at a time, one for each distance.
abbrev pub rows_at : ℕ → (ℕ → ℕ) → List ℕ → List ReachedRow
rows_at time reached ord = map (λ d. record { time = time; distance = d; reached = reached d }) ord

-- `ProcessReachedDistCnt`, with the rows, the counts and the book.
unfoldable pub process_reached_dist_cnt :
    (List ℕ → List ℕ)
    → (ℕ → List (ℕ × ℕ))
    → (String → ℕ)
    → DistanceBook
    → ℕ
    → ℕ
    → List Event
    → ℕ
    → ℕ
    → Bool
    → List ReachedRow × (Distances × DistanceBook)
process_reached_dist_cnt sort gen_distances peers_lut book tmin tmax events start gtype all =
    let made = setup_for_distance sort gen_distances book start in
    let ord = made.0.dist_ord in
    let counted =
      count_events (λ e. dist_at made.0.node_to_dist (peers_lut e.id)) made.1
        (keep (reaches gtype all) events) in
    (
      rows_at tmin (λ d. 0) ord ++ (counted.0 ++ rows_at tmax (λ d. value (counted.1 d)) ord),
      (counted.1, made.0),
    )

-- `ProcessGraphDistCnt`, with the counts as a map and the book.
unfoldable pub process_graph_dist_cnt :
    (List ℕ → List ℕ) → (ℕ → List (ℕ × ℕ)) → DistanceBook → ℕ → Distances × DistanceBook
process_graph_dist_cnt sort gen_distances book start =
    let made = setup_for_distance sort gen_distances book start in (made.0.dist_max_cnt, made.0)
