-- ===== src/Registration/Race.antt =====
-- What a result of `parallelProofOfWork2` of p2p_reg/main.go stands for, whatever the schedule.
use whisper2peer.Base.{
  ℕ, suc, ◌+◌, ◌%◌, ◌^◌, ◌≡◌, refl, ap, sym, ◌∙◌, Bool, true, false, ◌==◌, some, List, [], ◌++◌,
  Bytes, ok, if◌then◌else◌,
}
use whisper2peer.Goroutines.{Search, Event, offer}
use whisper2peer.Goroutines.Rightful.{
  Rightful, Inv, Holds, bind-Holds, set_phase-Inv, offer-Inv, result_of-Rightful,
}
use whisper2peer.Registration.{Error, Result, EnrollRegister}
use whisper2peer.Registration.Search.{search_block}
use whisper2peer.Registration.Found.{repeated, round}
use whisper2peer.Registration.Parallel.{Phase, workers, start_search, act, parallel_proof_of_work2}

module _ (sum256 : Bytes → Bytes) (pred : Bytes → Result Bool) (e : EnrollRegister) where
  -- A digest that has passed: that of round `k` over the message with some nonce in it.
  pub record Passed : Type 0 where
    pub inside : ℕ
    pub block : Bytes
    pub k : ℕ
    pub marshals : search_block (record e { nonce = inside }) ≡ ok block
    pub passes : round sum256 pred block k ≡ ok true

  -- A block that has been marshalled, and a number of rounds over it.
  record Rounds (h block : Bytes) : Type 0 where
    inside : ℕ
    k : ℕ
    marshals : search_block (record e { nonce = inside }) ≡ ok block
    written : h ≡ repeated k block

  -- What has led a goroutine into a phase.
  Earned : Phase → Type 0
  Earned Phase.idle = Unit
  Earned (Phase.marshalled block) = Rounds [] block
  Earned (Phase.probing h block) = Rounds h block
  Earned (Phase.missed h block) = Rounds h block
  Earned Phase.passed = Passed
  Earned Phase.stopped = Unit

  abbrev Kept : Search Phase ℕ → Type 0
  Kept s = Inv Phase ℕ Error Earned (λ n. Passed) s

  keep :
      (s : Search Phase ℕ) (id : ℕ) (p : Phase)
      → Kept s
      → Earned p
      → Kept (record s { phase = λ j. if j == id then p else s.phase j })
  keep s id p h hp = set_phase-Inv Phase ℕ Error Earned (λ n. Passed) s id p h hp

  probed :
      (done block : Bytes) (b : Bool)
      → Rounds done block
      → pred (sum256 (done ++ block)) ≡ ok b
      → Earned (if b then Phase.passed else Phase.missed (done ++ block) block)
  unfolding Earned repeated round
  probed done block true r tested = record {
    inside = r.inside;
    block = block;
    k = r.k;
    marshals = r.marshals;
    passes = ap (λ h. pred (sum256 (h ++ block))) (sym r.written) ∙ tested;
  }
  probed done block false r tested = record {
    inside = r.inside;
    k = suc r.k;
    marshals = r.marshals;
    written = ap (λ h. h ++ block) r.written;
  }

  act-Holds :
      (s : Search Phase ℕ) (id : ℕ) (p : Phase)
      → Kept s
      → Earned p
      → Holds Phase ℕ Error Earned (λ n. Passed) (act sum256 pred e id s p)
  unfolding act Holds Earned repeated
  act-Holds s id Phase.idle h hp =
      bind-Holds Phase ℕ Error Earned (λ n. Passed) (search_block (record e { nonce = s.shared })) _
        (λ block made.
          keep s id (Phase.marshalled block) h
            (record { inside = s.shared; k = 0; marshals = made; written = refl }))
  act-Holds s id (Phase.marshalled block) h hp =
      keep (record s { shared = id }) id (Phase.probing [] block)
        (record { earned = h.earned; rightful = h.rightful }) hp
  act-Holds s id (Phase.probing done block) h hp =
      bind-Holds Phase ℕ Error Earned (λ n. Passed) (pred (sum256 (done ++ block))) _
        (λ b tested.
          keep s id (if b then Phase.passed else Phase.missed (done ++ block) block) h
            (probed done block b hp tested))
  act-Holds s id (Phase.missed done block) h hp =
      keep (record s { shared = (s.shared + workers) % 2 ^ 64 }) id (Phase.probing done block)
        (record { earned = h.earned; rightful = h.rightful }) hp
  act-Holds s id Phase.passed h hp =
      keep (offer s.shared s) id Phase.stopped
        (offer-Inv Phase ℕ Error Earned (λ n. Passed) s s.shared h hp) tt
  act-Holds s id Phase.stopped h hp = h

  start : Kept (start_search e)
  unfolding Earned Rightful
  start = record { earned = λ id. tt; rightful = tt }

  -- A schedule that ends with a nonce has led a goroutine to a digest that passes, of the challenge
  -- and the message behind its first eight bytes, with some nonce in it, several times in a row.
  pub parallel_proof_of_work2-Passed :
      (events : List Event) (n : ℕ)
      → parallel_proof_of_work2 sum256 pred e events ≡ ok (some n)
      → Passed
  unfolding parallel_proof_of_work2
  parallel_proof_of_work2-Passed events n found =
      result_of-Rightful Phase ℕ Error Earned (λ m. Passed) workers (act sum256 pred e) act-Holds
        events (start_search e) n start found
