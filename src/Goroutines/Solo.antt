-- ===== src/Goroutines/Solo.antt =====
-- The goroutines one at a time.
use whisper2peer.Base.{ℕ, ◌≡◌, refl, true, none, List, ◌∷◌, Outcome, ok, ltb}
use whisper2peer.Goroutines.{Search, Event, worker, on_event, run}

module _ {P S E : Type 0} (workers : ℕ) (act : ℕ → Search P S → P → Outcome E (Search P S)) where
  -- A search without a result yet, with a goroutine in a phase.
  pub record At (id : ℕ) (p : P) (s : Search P S) : Type 0 where
    pub phase : s.phase id ≡ p
    pub open_yet : s.result ≡ none

  -- The next action of that goroutine.
  pub run-At :
      (id : ℕ) (p : P) (s t : Search P S)
      → ltb id workers ≡ true
      → At id p s
      → act id s p ≡ ok t
      → (events : List Event) → run workers act (worker id ∷ events) s ≡ run workers act events t
  unfolding run on_event
  run-At id p s t known a acts events = rw (a.open_yet, run, known, a.phase, acts) refl
