-- ===== src/Registration/Found.antt =====
-- What the searches of p2p_reg/main.go look for: a number of repetitions of one block.
use native.Mathlib.Nat.{mod-eq_of_lt}
use whisper2peer.Base.{
  ℕ, zero, suc, ◌+◌, ◌%◌, ◌^◌, ◌≡◌, ◌<◌, ap, sym, ◌∙◌, Bool, true, false, some, [], ◌++◌, Bytes, ok,
  arith, length, be, drop, leb, refl,
}
use whisper2peer.Registration.{Result, EnrollRegister, enroll_register_type}
use whisper2peer.Registration.Layout.{register_bytes, marshal_register-bytes}
use whisper2peer.Registration.Search.{
  search_block, message_rest, sequential_loop, sequential_proof_of_work,
}

length-register_bytes : (e : EnrollRegister) → leb 8 (length (register_bytes e)) ≡ true
unfolding be
length-register_bytes e = ground arith

pub search_block-register_bytes :
    (e : EnrollRegister)
    → e.header.type ≡ enroll_register_type
    → search_block e ≡ ok (be 8 e.challenge ++ drop 8 (register_bytes e))
unfolding search_block message_rest
search_block-register_bytes e typed =
    rw (marshal_register-bytes e typed, search_block, message_rest, length-register_bytes e) refl

-- A block, so many times.
unfoldable pub repeated : ℕ → Bytes → Bytes
repeated zero block = []
repeated (suc k) block = repeated k block ++ block

module _ (sum256 : Bytes → Bytes) (pred : Bytes → Result Bool) where
  -- The test of the digest of a round.
  unfoldable pub round : Bytes → ℕ → Result Bool
  round block k = pred (sum256 (repeated k block ++ block))

  -- The first round, from a round on, whose digest passes.
  pub record Hit (block : Bytes) (start k : ℕ) : Type 0 where
    pub misses : (j : ℕ) → j < k → round block (start + j) ≡ ok false
    pub hits : round block (start + k) ≡ ok true

  pub next : {block : Bytes} {start k : ℕ} → Hit block start (suc k) → Hit block (suc start) k
  next {block} {start} {k} h = record {
    misses = λ j l.
        let e : suc start + j ≡ start + suc j = omega arith in
        rw e (h.misses (suc j) (omega arith));
    hits = let e : suc start + k ≡ start + suc k = omega arith in rw e h.hits;
  }

  pub now :
      {block : Bytes} {start : ℕ}
      → Hit block start 0
      → pred (sum256 (repeated start block ++ block)) ≡ ok true
  unfolding round
  now {block} {start} h =
      let e : start + 0 ≡ start = omega arith in ap (round block) (sym e) ∙ h.hits

  pub later :
      {block : Bytes} {start k : ℕ}
      → Hit block start (suc k)
      → pred (sum256 (repeated start block ++ block)) ≡ ok false
  unfolding round
  later {block} {start} h =
      let e : start + 0 ≡ start = omega arith in ap (round block) (sym e) ∙ h.misses 0 (omega arith)

  sequential_loop-Hit :
      (fuel start k nonce : ℕ) (block : Bytes)
      → Hit block start k
      → k < fuel
      → nonce + k < 2 ^ 64
      → sequential_loop sum256 pred fuel block (repeated start block) nonce ≡ ok (some (nonce + k))
  unfolding sequential_loop repeated
  sequential_loop-Hit zero start k nonce block h room range = absurd (omega arith)
  sequential_loop-Hit (suc fuel) start zero nonce block h room range =
      let e : nonce ≡ nonce + 0 = omega arith in
      rw (now h, sequential_loop) (ap (λ n. ok (some n)) e)
  sequential_loop-Hit (suc fuel) start (suc k) nonce block h room range =
      let step : (nonce + 1) % 2 ^ 64 ≡ nonce + 1 = mod-eq_of_lt (omega arith) in
      let e : nonce + 1 + k ≡ nonce + suc k = omega arith in
      rw (later h, sequential_loop, step)
        (sequential_loop-Hit fuel (suc start) k (nonce + 1) block (next h) (omega arith)
            (omega arith)
          ∙ ap (λ n. ok (some n)) e)

  -- If the first digest that passes is that of round `k`, counted from 0, over the challenge and
  -- the message behind its first eight bytes, `k + 1` times in a row, then the search of one thread
  -- gives `k`, for a nonce of 64 bits and with fuel for `k + 1` rounds.
  pub sequential_proof_of_work-Hit :
      (e : EnrollRegister) (fuel k : ℕ)
      → e.header.type ≡ enroll_register_type
      → Hit (be 8 e.challenge ++ drop 8 (register_bytes e)) 0 k
      → k < fuel
      → k < 2 ^ 64
      → sequential_proof_of_work sum256 pred fuel e ≡ ok (some k)
  unfolding sequential_proof_of_work repeated
  sequential_proof_of_work-Hit e fuel k typed h room range =
      let block = be 8 e.challenge ++ drop 8 (register_bytes e) in
      rw (search_block-register_bytes e typed) (
        sequential_loop-Hit fuel 0 k 0 block h room (omega arith)
        ∙ ap (λ n. ok (some n)) (let z : 0 + k ≡ k = omega arith in z))
