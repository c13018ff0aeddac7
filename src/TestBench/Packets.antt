-- ===== src/TestBench/Packets.antt =====
-- `ProcessSentPackets` in gossip/internal/testutils/tester_processing.go, in the state in which the
-- tester processes: how many packets were sent over time.
--
-- A row has the time of its bucket, which the code then gives in seconds from the start of the test.
-- The sort of the library is a parameter.
pub mod Totals
pub mod Examples
use text.Mathlib.Text.{◌==◌ as str_eq}
use whisper2peer.Base.{
  ℕ, ◌+◌, ◌%◌, ◌^◌, Bool, true, false, List, [], ◌∷◌, keep, ◌==◌, ◌&&◌, ◌||◌, if◌then◌else◌,
}
use whisper2peer.TestBench.{Event}

-- `SentPacketsCnt`.
pub record Row : Type 0 where
  pub time : ℕ
  pub cnt : ℕ

abbrev pub chosen : ℕ → Bool → Event → Bool
chosen gtype all e = str_eq e.msg "hz packet sent" && (all || (e.msg_type == gtype))

-- The row that is appended where the current time is not the zero time.
abbrev pub closed_row : ℕ → ℕ → List Row → List Row
closed_row curr_time cnt rows =
    if curr_time == 0 then rows else record { time = curr_time; cnt = cnt } ∷ rows

-- The second loop, with the `if` behind it. The count is a 64-bit integer.
unfoldable pub add_up : ℕ → ℕ → List Event → List Row
add_up curr_time cnt [] = closed_row curr_time cnt []
add_up curr_time cnt (e ∷ es) =
    let same = add_up curr_time ((cnt + e.cnt) % 2 ^ 64) es in
    let other = add_up e.time_bucket e.cnt es in
    if curr_time == e.time_bucket then same else closed_row curr_time cnt other

-- `ProcessSentPackets`.
unfoldable pub process_sent_packets : (List Event → List Event) → List Event → ℕ → Bool → List Row
process_sent_packets sort_by_bucket events gtype all =
    add_up 0 0 (sort_by_bucket (keep (chosen gtype all) events))
