-- ===== src/Goroutines.antt =====
-- The frame of the parallel searches in gossip/pow/pow.go and p2p_reg/main.go: goroutines that hand
-- over one result on an unbuffered channel.
--
-- A schedule is a list of events, each an action of one goroutine, up to the result; what the
-- goroutines do behind it has no effect on it.
pub mod Rightful
pub mod Solo
use whisper2peer.Base.{
  ℕ, ◌≡◌, Bool, true, Option, some, none, List, [], ◌∷◌, Outcome, ok, err, panics, ◌>>=◌, ltb, ◌==◌,
  if◌then◌else◌,
}

-- Where each goroutine is, what they share, whether the main one waits at `<-result`, and what it
-- has received there.
pub record Search (P S : Type 0) : Type 0 where
  pub phase : ℕ → P
  pub shared : S
  pub receiving : Bool
  pub result : Option ℕ

pub data Event : Type 0 where
  receive : Event
  worker : ℕ → Event

module _ {P S : Type 0} where
  abbrev pub set_phase : ℕ → P → Search P S → Search P S
  set_phase id p s = record s { phase = λ j. if j == id then p else s.phase j }

  -- `select { case result <- n: default: }`, which loses the result where nobody waits for it.
  abbrev pub offer : ℕ → Search P S → Search P S
  offer n s = record s { result = if s.receiving then some n else s.result }

-- For the number of goroutines and the next action of one in a phase.
module _ {P S E : Type 0} (workers : ℕ) (act : ℕ → Search P S → P → Outcome E (Search P S)) where
  unfoldable pub on_event : Event → Search P S → Outcome E (Search P S)
  on_event receive s = ok (record s { receiving = true })
  on_event (worker id) s = if ltb id workers then act id s (s.phase id) else ok s

  unfoldable pub run : List Event → Search P S → Outcome E (Search P S)
  run [] s = ok s
  run (event ∷ events) s = elim s.result [
    | some _ ↦ ok s
    | none ↦ do s' ← on_event event s; run events s'
  ]

  -- The result of a search, `none` where it has not ended.
  unfoldable pub result_of : List Event → Search P S → Outcome E (Option ℕ)
  result_of events start = do s ← run events start; ok s.result
