-- ===== src/Cookie/Lost.antt =====
-- A search of gossip/pow/pow.go whose goroutines are faster than the main one.
use whisper2peer.Base.{ℕ, zero, suc, ◌≡◌, ◌<◌, ◌≤◌, Bool, false, none, List, ◌∷◌, Bytes, ◌>>=◌}
use whisper2peer.Goroutines.{Search, Event, worker, run}
use whisper2peer.Cookie.{Result, PowMarsh, workers}
use whisper2peer.Cookie.Workers.{Phase, act}

-- Each goroutine below `n`, in its order, up to its end, and then the rest.
pub early : ℕ → List Event → List Event
early zero more = more
early (suc n) more = early n (worker n ∷ worker n ∷ worker n ∷ more)

module _ (sum256 : Bytes → Bytes) (pred : Bytes → Result Bool) (e : PowMarsh) where
  abbrev runs : List Event → Search Phase (Unit {0}) → Result (Search Phase (Unit {0}))
  runs = run workers (act sum256 pred e)

  -- The goroutines below `n` have ended, the others not started, and nobody has waited.
  record Behind (n : ℕ) (s : Search Phase (Unit {0})) : Type 0 where
    ended : (id : ℕ) → id < n → s.phase id ≡ Phase.stopped
    waiting : (id : ℕ) → n ≤ id → s.phase id ≡ Phase.fresh
    absent : s.receiving ≡ false
    nothing : s.result ≡ none
