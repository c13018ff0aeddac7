-- ===== src/PacketCounter.antt =====
-- gossip/internal/packetcounter/packetcounter.go: packets counted in windows of time.
--
-- A time is a number of nanoseconds since the zero time of Go, and the clock is an argument. The
-- calls of the counter's function are the values that are given back. `cnt` is a 64-bit integer.
pub mod Totals
pub mod Examples
use whisper2peer.Base.{ℕ, ◌+◌, ◌-◌, ◌%◌, ◌^◌, List, [], ◌∷◌, ◌++◌, ◌==◌, if◌then◌else◌}

pub record Counter : Type 0 where
  pub t : ℕ
  pub cnt : ℕ
  pub granularity : ℕ

unfoldable pub new_counter : ℕ → Counter
new_counter granularity = record { t = 0; cnt = 0; granularity = granularity }

-- `Truncate`, for a positive duration.
abbrev pub truncate : ℕ → ℕ → ℕ
truncate now granularity = now - now % granularity

-- The call of `do` where the counter's time is not the zero time.
abbrev pub reported : Counter → List (ℕ × ℕ)
reported counter = if counter.t == 0 then [] else (counter.t, counter.cnt) ∷ []

unfoldable pub add : Counter → ℕ → ℕ → Counter × List (ℕ × ℕ)
add counter time i =
    let now = truncate time counter.granularity in
    if now == counter.t
    then (record counter { cnt = (counter.cnt + i) % 2 ^ 64 }, [])
    else (record counter { cnt = i; t = now }, reported counter)

unfoldable pub finalize : Counter → List (ℕ × ℕ)
finalize counter = reported counter
