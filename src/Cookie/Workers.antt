-- ===== src/Cookie/Workers.antt =====
-- `parallelProofOfWork3` of gossip/pow/pow.go. Each goroutine has its own clone of the message.
use whisper2peer.Base.{ℕ, Bool, false, Option, none, List, Bytes, ok, ◌>>=◌, if◌then◌else◌}
use whisper2peer.Goroutines.{Search, Event, set_phase, offer, result_of}
use whisper2peer.Cookie.{Result, PowMarsh, set_nonce, add_to_nonce, workers, probe}

-- Where a goroutine is: before its loop; before a round, with its nonce; behind a nonce that has
-- passed; at its end.
pub data Phase : Type 0 where
  fresh stopped : Phase
  searching passed : ℕ → Phase

-- Nothing is shared.
abbrev pub start_search : Search Phase (Unit {0})
start_search = record { phase = λ _. Phase.fresh; shared = tt; receiving = false; result = none }

module _ (sum256 : Bytes → Bytes) (pred : Bytes → Result Bool) (e : PowMarsh) where
  -- The next action of a goroutine in a phase.
  unfoldable pub act : ℕ → Search Phase (Unit {0}) → Phase → Result (Search Phase (Unit {0}))
  act id s Phase.fresh = ok (set_phase id (Phase.searching (set_nonce e id).pow_nonce) s)
  act id s (Phase.searching n) = do
    b ← probe sum256 pred e n
    ok (
        set_phase id
          (if b
            then Phase.passed n
            else Phase.searching (add_to_nonce (set_nonce e n) workers).pow_nonce)
          s)
  act id s (Phase.passed n) = ok (set_phase id Phase.stopped (offer n s))
  act id s Phase.stopped = ok s

  -- The search on a schedule, `none` where it has not ended.
  unfoldable pub parallel_proof_of_work3 : List Event → Result (Option ℕ)
  parallel_proof_of_work3 events = result_of workers act events start_search
