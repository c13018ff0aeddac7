-- ===== src/TestBench/Reached/Examples.antt =====
-- Three nodes, of which two are reached.
use Prim.Native.String.{String}
use text.Mathlib.Text.{◌==◌ as str_eq}
use whisper2peer.Base.{ℕ, ◌≡◌, refl, false, List, [], ◌∷◌, ◌++◌, keep, length, arith, if◌then◌else◌}
use whisper2peer.TestBench.{Event}
use whisper2peer.TestBench.Sorting.{InOrder, insertion_sort, insertion_sort-Sorts}
use whisper2peer.TestBench.Reached.Order.{times, is_distance, process_reached_dist_cnt-order}
use whisper2peer.TestBench.Book.{zero_book, count_all, setup_for_distance}
use whisper2peer.TestBench.Reached.{
  ReachedRow, reaches, dist_at, count_events, rows_at, process_reached_dist_cnt,
}
use whisper2peer.TestBench.Reached.Counted.{timeline, events_at}

abbrev lut : String → ℕ
lut id = if str_eq id "127.0.0.2" then 1 else 0

abbrev event : ℕ → String → String → ℕ → Event
event time id msg msg_type = record {
  time = time;
  id = id;
  msg = msg;
  msg_type = msg_type;
  cnt = 0;
  time_bucket = 0;
}

-- An event of another type is passed over.
abbrev events : List Event
events =
    event 10 "127.0.0.1" "announce" 5
    ∷ event 12 "127.0.0.2" "received" 5
    ∷ event 13 "127.0.0.2" "received" 6
    ∷ []

abbrev distances : ℕ → List (ℕ × ℕ)
distances start = (1, 1) ∷ (0, 0) ∷ (2, 1) ∷ []

abbrev row : ℕ → ℕ → ℕ → ReachedRow
row time distance reached = record { time = time; distance = distance; reached = reached }

abbrev sort : List ℕ → List ℕ
sort ds = insertion_sort (λ d. d) ds

rows :
    (process_reached_dist_cnt sort distances lut zero_book 9 20 events 0 5 false).0
    ≡ row 9 0 0 ∷ row 9 1 0 ∷ row 10 0 1 ∷ row 12 1 1 ∷ row 20 0 1 ∷ row 20 1 1 ∷ []
unfolding process_reached_dist_cnt setup_for_distance count_all count_events dist_at
rows = refl

two_chosen : length (keep (reaches 5 false) events) ≡ 2
two_chosen = refl

process_reached_dist_cnt-order_example :
    let es = keep (reaches 5 false) events in
    let dist : Event → ℕ = λ e. dist_at (distances 0) (lut e.id) in
    (ord : List ℕ) × InOrder (λ d. d) 0 ord
    × ((d : ℕ) → times d ord ≡ (if is_distance d (distances 0) then 1 else 0))
    × ((process_reached_dist_cnt sort distances lut zero_book 9 20 events 0 5 false).0
        ≡ rows_at 9 (λ d. 0) ord
          ++ (timeline dist [] es ++ rows_at 20 (λ d. events_at dist d es) ord))
process_reached_dist_cnt-order_example =
    process_reached_dist_cnt-order sort distances lut 9 20 events 0 5 false
      (insertion_sort-Sorts (λ d. d)) (omega arith)
