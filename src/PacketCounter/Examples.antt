-- ===== src/PacketCounter/Examples.antt =====
-- Counts over two windows.
use whisper2peer.Base.{ℕ, ◌≡◌, refl, List, [], ◌∷◌, arith}
use whisper2peer.PacketCounter.{new_counter, add, finalize}
use whisper2peer.PacketCounter.Totals.{total, reports, total-reports}

abbrev packets : List (ℕ × ℕ)
packets = (10, 1) ∷ (13, 2) ∷ (25, 4) ∷ []

two_windows : reports (new_counter 10) packets ≡ (10, 3) ∷ (20, 4) ∷ []
unfolding new_counter add finalize
two_windows = refl

total-reports_example : total (reports (new_counter 10) packets) ≡ total packets
total-reports_example =
    total-reports 10 packets (omega arith) (omega arith, (omega arith, (omega arith, tt)))
      (omega arith)
