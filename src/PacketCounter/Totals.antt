-- ===== src/PacketCounter/Totals.antt =====
-- No packet that packetcounter.go counts is lost.
use native.Mathlib.Nat.{mod-lt}
use whisper2peer.Base.{
  ℕ, ◌+◌, ◌%◌, ◌^◌, ◌≡◌, ◌≤◌, ◌<◌, sym, ◌∙◌, inl, inr, List, [], ◌∷◌, ◌++◌, ◌==◌, if◌then◌else◌,
  arith, Bool-cases, subst,
}
use whisper2peer.PacketCounter.{Counter, new_counter, truncate, reported, add, finalize}

abbrev pub total : List (ℕ × ℕ) → ℕ
total [] = 0
total ((t, n) ∷ xs) = n + total xs

-- All reports of a counter that is given packets at certain times, and finalized.
abbrev pub reports : Counter → List (ℕ × ℕ) → List (ℕ × ℕ)
reports counter [] = finalize counter
reports counter ((now, i) ∷ xs) =
    let (counter', out) = add counter now i in out ++ reports counter' xs

-- The times are behind the first window since the zero time.
abbrev pub Late : ℕ → List (ℕ × ℕ) → Type 0
Late granularity [] = Unit
Late granularity ((now, i) ∷ xs) = (granularity ≤ now) × Late granularity xs

abbrev pending : Counter → ℕ
pending counter = if counter.t == 0 then 0 else counter.cnt

total-append : (xs ys : List (ℕ × ℕ)) → total (xs ++ ys) ≡ total xs + total ys
total-append [] ys = omega arith
total-append ((t, n) ∷ xs) ys = omega (arith, total-append xs ys)

total-reported : (counter : Counter) → total (reported counter) ≡ pending counter
total-reported counter = ground arith

add-pending :
    (counter : Counter) (now i : ℕ)
    → 0 < counter.granularity
    → counter.granularity ≤ now
    → counter.cnt + i < 2 ^ 64
    → let (counter', out) = add counter now i in
      (total out + pending counter' ≡ pending counter + i)
      × (counter'.cnt ≤ counter.cnt + i)
      × (counter'.granularity ≡ counter.granularity)
unfolding add
add-pending counter now i pos late small =
    let below : now % counter.granularity < counter.granularity = mod-lt now pos in
    let nonzero : 0 < truncate now counter.granularity = omega (arith, below) in
    elim (Bool-cases (truncate now counter.granularity == counter.t)) [
      | inl same ↦ (ground (arith, nonzero), ground (arith, nonzero), ground arith)
      | inr later ↦ (ground (arith, nonzero, total-reported counter), ground arith, ground arith)
    ]

total-reports_of :
    (counter : Counter) (xs : List (ℕ × ℕ))
    → 0 < counter.granularity
    → Late counter.granularity xs
    → counter.cnt + total xs < 2 ^ 64
    → total (reports counter xs) ≡ pending counter + total xs
unfolding finalize
total-reports_of counter [] pos late small = ground arith
total-reports_of counter ((now, i) ∷ xs) pos late small =
    let (kept, less, same) = add-pending counter now i pos late.0 (omega arith) in
    let counter' = (add counter now i).0 in
    let rest =
      total-reports_of counter' xs (subst (λ g. 0 < g) (sym same) pos)
        (subst (λ g. Late g xs) (sym same) late.1) (omega arith) in
    total-append (add counter now i).1 (reports counter' xs) ∙ omega (arith, rest, kept)

-- The counts that a counter reports for its windows, with the last one reported when it is
-- finalized, add up to the packets that it was given, for times behind the first window and a
-- total below 2 ^ 64.
pub total-reports :
    (granularity : ℕ) (xs : List (ℕ × ℕ))
    → 0 < granularity
    → Late granularity xs
    → total xs < 2 ^ 64
    → total (reports (new_counter granularity) xs) ≡ total xs
unfolding new_counter
total-reports granularity xs pos late small =
    total-reports_of (new_counter granularity) xs pos late (omega arith) ∙ omega arith
