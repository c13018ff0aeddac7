-- ===== src/Registration/Solo.antt =====
-- A schedule on which `parallelProofOfWork2` of p2p_reg/main.go ends.
use native.Mathlib.Nat.{mod-eq_of_lt}
use whisper2peer.Base.{
  ℕ, zero, suc, ◌+◌, ◌*◌, ◌%◌, ◌^◌, ◌≡◌, ◌<◌, refl, ap, ◌∙◌, Bool, true, false, some, List, [], ◌∷◌,
  ◌++◌, Bytes, ok, ltb, ==_refl, if◌then◌else◌, be, drop, arith,
}
use whisper2peer.Goroutines.{
  Search, Event, receive, worker, set_phase, offer, on_event, run, result_of,
}
use whisper2peer.Goroutines.Solo.{At, run-At}
use whisper2peer.Registration.{Result, EnrollRegister, enroll_register_type}
use whisper2peer.Registration.Layout.{register_bytes}
use whisper2peer.Registration.Search.{search_block}
use whisper2peer.Registration.Found.{repeated, Hit, next, now, later, search_block-register_bytes}
use whisper2peer.Registration.Parallel.{Phase, workers, start_search, act, parallel_proof_of_work2}

-- The two actions of a round that fails, so many times, and those of the round that passes.
pub rounds : ℕ → ℕ → List Event
rounds id zero = worker id ∷ worker id ∷ []
rounds id (suc k) = worker id ∷ worker id ∷ rounds id k

-- One goroutine starts behind the main one, and nothing stops it.
abbrev pub solo : ℕ → ℕ → List Event
solo id k = receive ∷ worker id ∷ worker id ∷ rounds id k

module _ (sum256 : Bytes → Bytes) (pred : Bytes → Result Bool) (e : EnrollRegister) where
  abbrev runs : List Event → Search Phase ℕ → Result (Search Phase ℕ)
  runs = run workers (act sum256 pred e)

  -- A goroutine in a phase, with the shared nonce and the main goroutine waiting.
  record Here (id : ℕ) (p : Phase) (nonce : ℕ) (s : Search Phase ℕ) : Type 0 where
    at : At workers (act sum256 pred e) id p s
    shared : s.shared ≡ nonce
    receiving : s.receiving ≡ true

  -- One action, and the state behind it.
  Moves : ℕ → Phase → ℕ → Search Phase ℕ → Type 0
  Moves id p nonce s =
      (t : Search Phase ℕ) × Here id p nonce t
      × ((events : List Event) → runs (worker id ∷ events) s ≡ runs events t)

  act-missed :
      (id nonce : ℕ) (h block : Bytes) (s : Search Phase ℕ)
      → ltb id workers ≡ true
      → nonce + workers < 2 ^ 64
      → Here id (Phase.missed h block) nonce s
      → Moves id (Phase.probing h block) (nonce + workers) s
  unfolding Moves act
  act-missed id nonce h block s known range a =
      let t =
        set_phase id (Phase.probing h block)
          (record s { shared = (s.shared + workers) % 2 ^ 64 }) in
      (
        t,
        record {
          at = record { phase = rw (==_refl id) refl; open_yet = a.at.open_yet };
          shared = ap (λ n. (n + workers) % 2 ^ 64) a.shared ∙ mod-eq_of_lt range;
          receiving = a.receiving;
        },
        run-At workers (act sum256 pred e) id (Phase.missed h block) s t known a.at refl,
      )

  act-idle :
      (id nonce : ℕ) (block : Bytes) (s : Search Phase ℕ)
      → ltb id workers ≡ true
      → search_block (record e { nonce = nonce }) ≡ ok block
      → Here id Phase.idle nonce s
      → Moves id (Phase.marshalled block) nonce s
  unfolding Moves act
  act-idle id nonce block s known made a =
      let t = set_phase id (Phase.marshalled block) s in
      (
        t,
        record {
          at = record { phase = rw (==_refl id) refl; open_yet = a.at.open_yet };
          shared = a.shared;
          receiving = a.receiving;
        },
        run-At workers (act sum256 pred e) id Phase.idle s t known a.at (rw (a.shared, made) refl),
      )

  act-marshalled :
      (id nonce : ℕ) (block : Bytes) (s : Search Phase ℕ)
      → ltb id workers ≡ true
      → Here id (Phase.marshalled block) nonce s
      → Moves id (Phase.probing [] block) id s
  unfolding Moves act
  act-marshalled id nonce block s known a =
      let t = set_phase id (Phase.probing [] block) (record s { shared = id }) in
      (
        t,
        record {
          at = record { phase = rw (==_refl id) refl; open_yet = a.at.open_yet };
          shared = refl;
          receiving = a.receiving;
        },
        run-At workers (act sum256 pred e) id (Phase.marshalled block) s t known a.at refl,
      )

  act-probing :
      (id nonce : ℕ) (h block : Bytes) (b : Bool) (s : Search Phase ℕ)
      → ltb id workers ≡ true
      → pred (sum256 (h ++ block)) ≡ ok b
      → Here id (Phase.probing h block) nonce s
      → Moves id (if b then Phase.passed else Phase.missed (h ++ block) block) nonce s
  unfolding Moves act
  act-probing id nonce h block b s known tested a =
      let q = if b then Phase.passed else Phase.missed (h ++ block) block in
      let t = set_phase id q s in
      (
        t,
        record {
          at = record { phase = rw (==_refl id) refl; open_yet = a.at.open_yet };
          shared = a.shared;
          receiving = a.receiving;
        },
        run-At workers (act sum256 pred e) id (Phase.probing h block) s t known a.at
            (rw tested refl),
      )

  started :
      (events : List Event)
      → runs (receive ∷ events) (start_search e)
        ≡ runs events (record (start_search e) { receiving = true })
  unfolding run on_event
  started events = refl

  -- The rounds of a goroutine that is alone, up to the result.
  rounds-Hit :
      (id k start nonce : ℕ) (block : Bytes) (s : Search Phase ℕ)
      → ltb id workers ≡ true
      → Hit sum256 pred block start k
      → nonce + workers * k < 2 ^ 64
      → Here id (Phase.probing (repeated start block) block) nonce s
      → (t : Search Phase ℕ) × (runs (rounds id k) s ≡ ok t)
        × (t.result ≡ some (nonce + workers * k))
  unfolding rounds repeated Moves act run
  rounds-Hit id zero start nonce block s known h range a =
      let (t, here, step) =
        act-probing id nonce (repeated start block) block true s known (now sum256 pred h) a in
      let u = set_phase id Phase.stopped (offer t.shared t) in
      let n : t.shared ≡ nonce + workers * 0 = here.shared ∙ omega arith in
      (
        u,
        step (worker id ∷ [])
            ∙ run-At workers (act sum256 pred e) id Phase.passed t u known here.at refl []
            ∙ refl,
        rw here.receiving (ap some n),
      )
  rounds-Hit id (suc k) start nonce block s known h range a =
      let (t, here, step) =
        act-probing id nonce (repeated start block) block false s known (later sum256 pred h) a in
      let (u, au, step') =
        act-missed id nonce (repeated start block ++ block) block t known (omega arith) here in
      let (v, ends, result) =
        rounds-Hit id k (suc start) (nonce + workers) block u known (next sum256 pred h)
          (omega arith) au in
      let n : nonce + workers + workers * k ≡ nonce + workers * suc k = omega arith in
      (v, step (worker id ∷ rounds id k) ∙ step' (rounds id k) ∙ ends, result ∙ ap some n)

  -- If one goroutine is alone after the main one has come to wait, the search ends: with nonce
  -- `id + 32 k` for goroutine `id` of the 32, where round `k` is the first one whose digest passes,
  -- over the challenge and the rest of the message, `k + 1` times in a row, for a nonce of 64 bits.
  pub parallel_proof_of_work2-solo :
      (id k : ℕ)
      → id < workers
      → e.header.type ≡ enroll_register_type
      → Hit sum256 pred (be 8 e.challenge ++ drop 8 (register_bytes e)) 0 k
      → id + workers * k < 2 ^ 64
      → parallel_proof_of_work2 sum256 pred e (solo id k) ≡ ok (some (id + workers * k))
  unfolding parallel_proof_of_work2 result_of repeated Moves
  parallel_proof_of_work2-solo id k known typed h range =
      let block = be 8 e.challenge ++ drop 8 (register_bytes e) in
      let s = record (start_search e) { receiving = true } in
      let small : ltb id workers ≡ true = ground arith in
      let (t, here, step) =
        act-idle id e.nonce block s small (search_block-register_bytes e typed) (record {
          at = record { phase = refl; open_yet = refl };
          shared = refl;
          receiving = refl;
        }) in
      let (u, au, step') = act-marshalled id e.nonce block t small here in
      let (v, ends, result) = rounds-Hit id k 0 id block u small h range au in
      let ran : runs (solo id k) (start_search e) ≡ ok v =
        started (worker id ∷ worker id ∷ rounds id k)
        ∙ step (worker id ∷ rounds id k)
        ∙ step' (rounds id k)
        ∙ ends in
      rw ran (ap ok result)
