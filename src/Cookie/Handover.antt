-- ===== src/Cookie/Handover.antt =====
-- How the goroutines of gossip/pow/pow.go hand over the result of a search.
use whisper2peer.Base.{
  ℕ, ◌≡◌, sym, ◌∙◌, Bool, true, false, some, List, Bytes, ok, ◌==◌, if◌then◌else◌,
}
use whisper2peer.Goroutines.{Search, Event, offer}
use whisper2peer.Goroutines.Rightful.{
  Rightful, Inv, Holds, bind-Holds, set_phase-Inv, offer-Inv, result_of-Rightful,
}
use whisper2peer.Cookie.{
  Error, Result, PowMarsh, set_nonce, add_to_nonce, workers, probe, check_proof_of_work,
}
use whisper2peer.Cookie.RoundTrip.{probe-check_proof_of_work}
use whisper2peer.Cookie.Workers.{Phase, start_search, act, parallel_proof_of_work3}

module _ (sum256 : Bytes → Bytes) (pred : Bytes → Result Bool) (e : PowMarsh) where
  abbrev Accepted : ℕ → Type 0
  Accepted n = check_proof_of_work sum256 pred (record e { pow_nonce = n }) ≡ ok true

  Earned : Phase → Type 0
  Earned Phase.fresh = Unit
  Earned (Phase.searching n) = Unit
  Earned (Phase.passed n) = Accepted n
  Earned Phase.stopped = Unit

  abbrev Kept : Search Phase (Unit {0}) → Type 0
  Kept s = Inv Phase (Unit {0}) Error Earned Accepted s

  keep :
      (s : Search Phase (Unit {0})) (id : ℕ) (p : Phase)
      → Kept s
      → Earned p
      → Kept (record s { phase = λ j. if j == id then p else s.phase j })
  keep s id p h hp = set_phase-Inv Phase (Unit {0}) Error Earned Accepted s id p h hp

  probed :
      (n m : ℕ) (b : Bool)
      → probe sum256 pred e n ≡ ok b
      → Earned (if b then Phase.passed n else Phase.searching m)
  unfolding Earned
  probed n m true tested = sym (probe-check_proof_of_work sum256 pred e n) ∙ tested
  probed n m false tested = tt

  act-Holds :
      (s : Search Phase (Unit {0})) (id : ℕ) (p : Phase)
      → Kept s
      → Earned p
      → Holds Phase (Unit {0}) Error Earned Accepted (act sum256 pred e id s p)
  unfolding act Holds Earned
  act-Holds s id Phase.fresh h hp = keep s id (Phase.searching (set_nonce e id).pow_nonce) h tt
  act-Holds s id (Phase.searching n) h hp =
      let next = (add_to_nonce (set_nonce e n) workers).pow_nonce in
      bind-Holds Phase (Unit {0}) Error Earned Accepted (probe sum256 pred e n) _ (λ b tested.
        keep s id (if b then Phase.passed n else Phase.searching next) h (probed n next b tested))
  act-Holds s id (Phase.passed n) h hp =
      keep (offer n s) id Phase.stopped (offer-Inv Phase (Unit {0}) Error Earned Accepted s n h hp)
        tt
  act-Holds s id Phase.stopped h hp = h

  start : Kept start_search
  unfolding Earned Rightful
  start = record { earned = λ id. tt; rightful = tt }

  -- Whatever the schedule, a nonce that the search gives is accepted by the check.
  pub parallel_proof_of_work3-check_proof_of_work :
      (events : List Event) (n : ℕ)
      → parallel_proof_of_work3 sum256 pred e events ≡ ok (some n)
      → check_proof_of_work sum256 pred (record e { pow_nonce = n }) ≡ ok true
  unfolding parallel_proof_of_work3
  parallel_proof_of_work3-check_proof_of_work events n found =
      result_of-Rightful Phase (Unit {0}) Error Earned Accepted workers (act sum256 pred e)
        act-Holds events start_search n start found
