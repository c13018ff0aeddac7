-- ===== src/Registration/Parallel.antt =====
-- `parallelProofOfWork2` of p2p_reg/main.go, the search that the client uses.
--
-- The goroutines share `e`, since their function is not given it, so they share the nonce. A read
-- and a write of the nonce in one statement are one action.
use whisper2peer.Base.{
  ℕ, ◌+◌, ◌%◌, ◌^◌, Bool, false, Option, none, List, [], ◌++◌, Bytes, ok, ◌>>=◌, if◌then◌else◌,
}
use whisper2peer.Goroutines.{Search, Event, set_phase, offer, result_of}
use whisper2peer.Registration.{Result, EnrollRegister}
use whisper2peer.Registration.Search.{search_block}

-- `WORKERS`.
abbrev pub workers : ℕ
workers = 32

-- Where a goroutine is: before `Marshal`; before the loop; before a round, with what has been
-- written to the hash and what each round writes; behind a digest that has failed; behind one that
-- has passed; at its end.
pub data Phase : Type 0 where
  idle passed stopped : Phase
  marshalled : Bytes → Phase
  probing missed : Bytes → Bytes → Phase

-- What the goroutines share is `e.Nonce`.
abbrev pub start_search : EnrollRegister → Search Phase ℕ
start_search e = record {
  phase = λ _. Phase.idle;
  shared = e.nonce;
  receiving = false;
  result = none;
}

module _ (sum256 : Bytes → Bytes) (pred : Bytes → Result Bool) (e : EnrollRegister) where
  -- The next action of a goroutine in a phase.
  unfoldable pub act : ℕ → Search Phase ℕ → Phase → Result (Search Phase ℕ)
  act id s Phase.idle = do
    block ← search_block (record e { nonce = s.shared })
    ok (set_phase id (Phase.marshalled block) s)
  act id s (Phase.marshalled block) =
      ok (set_phase id (Phase.probing [] block) (record s { shared = id }))
  act id s (Phase.probing h block) = do
    b ← pred (sum256 (h ++ block))
    ok (set_phase id (if b then Phase.passed else Phase.missed (h ++ block) block) s)
  act id s (Phase.missed h block) =
      ok
        (set_phase id (Phase.probing h block) (record s { shared = (s.shared + workers) % 2 ^ 64 }))
  act id s Phase.passed = ok (set_phase id Phase.stopped (offer s.shared s))
  act id s Phase.stopped = ok s

  unfoldable pub parallel_proof_of_work2 : List Event → Result (Option ℕ)
  parallel_proof_of_work2 events = result_of workers act events (start_search e)
