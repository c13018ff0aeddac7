-- ===== src/TestBench/Packets/Examples.antt =====
-- The packets of two nodes in two buckets.
use whisper2peer.Base.{ℕ, ◌%◌, ◌^◌, ◌≡◌, refl, true, List, [], ◌∷◌, keep, arith}
use whisper2peer.TestBench.{Event}
use whisper2peer.TestBench.Sorting.{Sorts, insertion_sort, insertion_sort-Sorts}
use whisper2peer.TestBench.Packets.{chosen, add_up, process_sent_packets}
use whisper2peer.TestBench.Packets.Totals.{packets, counted, Rising, process_sent_packets-packets}

abbrev sent_at : ℕ → ℕ → Event
sent_at t n = record {
  time = t;
  id = "127.0.0.1";
  msg = "hz packet sent";
  msg_type = 0;
  cnt = n;
  time_bucket = t;
}

abbrev logged : List Event
logged =
    sent_at 20 3 ∷ sent_at 10 1 ∷ record (sent_at 10 7) { msg = "received" } ∷ sent_at 20 4 ∷ []

abbrev sort : List Event → List Event
sort es = insertion_sort (λ e. e.time_bucket) es

sort-Sorts : Sorts (λ e. e.time_bucket) sort
sort-Sorts = insertion_sort-Sorts (λ e. e.time_bucket)

rows_of_both :
    process_sent_packets sort logged 0 true
    ≡ record { time = 10; cnt = 1 } ∷ record { time = 20; cnt = 7 } ∷ []
unfolding process_sent_packets add_up
rows_of_both = refl

process_sent_packets-packets_example :
    Rising 0 (process_sent_packets sort logged 0 true)
    × (counted 20 (process_sent_packets sort logged 0 true) % 2 ^ 64
        ≡ packets 20 (keep (chosen 0 true) logged) % 2 ^ 64)
process_sent_packets-packets_example =
    process_sent_packets-packets sort sort-Sorts.permutes sort-Sorts.orders logged 0 true 20
      (λ e. ground (arith, e))
