-- ===== src/Goroutines/Rightful.antt =====
-- What a result stands for, whatever the schedule.
use whisper2peer.Base.{
  ℕ, ◌≡◌, refl, subst, Bool, true, false, Option, some, none, List, [], ◌∷◌, Outcome, ok, err,
  panics, ◌>>=◌, ltb, ◌==◌, if◌then◌else◌,
}
use whisper2peer.Goroutines.{
  Search, Event, receive, worker, set_phase, offer, on_event, run, result_of,
}

-- What has led a goroutine into a phase, and what a result has to be.
module _ (P S E : Type 0) (Earned : P → Type 0) (Right : ℕ → Type 0) where
  unfoldable pub Rightful : Option ℕ → Type 0
  Rightful none = Unit
  Rightful (some n) = Right n

  pub record Inv (s : Search P S) : Type 0 where
    pub earned : (id : ℕ) → Earned (s.phase id)
    pub rightful : Rightful s.result

  unfoldable pub Holds : Outcome E (Search P S) → Type 0
  Holds (ok s) = Inv s
  Holds (err x) = Unit
  Holds panics = Unit

  pub bind-Holds :
      {A : Type 0} (x : Outcome E A) (f : A → Outcome E (Search P S))
      → ((a : A) → x ≡ ok a → Holds (f a))
      → Holds (x >>= f)
  unfolding Holds
  bind-Holds (ok a) f h = h a refl
  bind-Holds (err x) f h = tt
  bind-Holds panics f h = tt

  if-Earned : (p q : P) (b : Bool) → Earned p → Earned q → Earned (if b then p else q)
  if-Earned p q true hp hq = hp
  if-Earned p q false hp hq = hq

  pub set_phase-Inv : (s : Search P S) (id : ℕ) (p : P) → Inv s → Earned p → Inv (set_phase id p s)
  set_phase-Inv s id p h hp = record {
    earned = λ j. if-Earned p (s.phase j) (j == id) hp (h.earned j);
    rightful = h.rightful;
  }

  offered :
      (b : Bool) (n : ℕ) (o : Option ℕ) → Right n → Rightful o → Rightful (if b then some n else o)
  unfolding Rightful
  offered true n o r h = r
  offered false n o r h = h

  pub offer-Inv : (s : Search P S) (n : ℕ) → Inv s → Right n → Inv (offer n s)
  offer-Inv s n h r = record {
    earned = h.earned;
    rightful = offered s.receiving n s.result r h.rightful;
  }

  if-Holds :
      (s : Search P S) (r : Outcome E (Search P S)) (b : Bool)
      → Holds r
      → Inv s
      → Holds (if b then r else ok s)
  unfolding Holds
  if-Holds s r true hr hs = hr
  if-Holds s r false hr hs = hs

  continued :
      (s : Search P S) (o : Option ℕ) (r : Outcome E (Search P S))
      → Inv s
      → Holds r
      → Holds (elim o [ some _ ↦ ok s | none ↦ r ])
  unfolding Holds
  continued s (some n) r hs hr = hs
  continued s none r hs hr = hr

  Ending : Outcome E (Option ℕ) → Type 0
  Ending (ok o) = Rightful o
  Ending (err x) = Unit
  Ending panics = Unit

  ends : (x : Outcome E (Search P S)) → Holds x → Ending (do s ← x; ok s.result)
  unfolding Ending Holds
  ends (ok s) h = h.rightful
  ends (err x) h = tt
  ends panics h = tt

  module _ (workers : ℕ) (act : ℕ → Search P S → P → Outcome E (Search P S))
      (act-Holds : (s : Search P S) (id : ℕ) (p : P) → Inv s → Earned p → Holds (act id s p)) where
    on_event-Holds : (s : Search P S) (event : Event) → Inv s → Holds (on_event workers act event s)
    unfolding on_event Holds
    on_event-Holds s receive h = record { earned = h.earned; rightful = h.rightful }
    on_event-Holds s (worker id) h =
        if-Holds s (act id s (s.phase id)) (ltb id workers)
          (act-Holds s id (s.phase id) h (h.earned id)) h

    run-Holds : (events : List Event) (s : Search P S) → Inv s → Holds (run workers act events s)
    unfolding run Holds
    run-Holds [] s h = h
    run-Holds (event ∷ events) s h =
        continued s s.result (on_event workers act event s >>= run workers act events) h (
          bind-Holds (on_event workers act event s) (run workers act events)
            (λ s' stepped. run-Holds events s' (subst Holds stepped (on_event-Holds s event h))))

    -- If each action keeps the invariant, a result is one that it allows.
    pub result_of-Rightful :
        (events : List Event) (start : Search P S) (n : ℕ)
        → Inv start
        → result_of workers act events start ≡ ok (some n)
        → Right n
    unfolding result_of Ending Rightful
    result_of-Rightful events start n h found =
        subst Ending found (ends (run workers act events start) (run-Holds events start h))
