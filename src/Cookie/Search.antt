-- ===== src/Cookie/Search.antt =====
-- The search for a proof of work in gossip/pow/pow.go.
use native.Mathlib.Nat.{mod-eq_of_lt}
use whisper2peer.Base.{
  ℕ, zero, suc, ◌+◌, ◌*◌, ◌%◌, ◌^◌, ◌≡◌, ◌<◌, ap, ◌∙◌, Bool, true, false, some, Bytes, ok, arith,
}
use whisper2peer.Cookie.{Result, probe, check_proof_of_work, worker, workers, compute_pow_start}
use whisper2peer.Cookie.RoundTrip.{probe-check_proof_of_work}

module _ (sum256 : Bytes → Bytes) (pred : Bytes → Result Bool) where
  -- Whether the check of a proof of work accepts a nonce for a cookie.
  abbrev pub checked : Bytes → ℕ → Result Bool
  checked cookie nonce =
      check_proof_of_work sum256 pred (record { pow_nonce = nonce; cookie = cookie })

  worker-first_from :
      (fuel k nonce : ℕ) (cookie : Bytes)
      → k < fuel
      → nonce + k * workers < 2 ^ 64
      → ((j : ℕ) → j < k → checked cookie (nonce + j * workers) ≡ ok false)
      → checked cookie (nonce + k * workers) ≡ ok true
      → worker fuel sum256 pred (record { pow_nonce = nonce; cookie = cookie })
        ≡ ok (some (nonce + k * workers))
  unfolding worker
  worker-first_from zero k nonce cookie room range misses hit = absurd (omega arith)
  worker-first_from (suc fuel) zero nonce cookie room range misses hit =
      let start : probe sum256 pred (record { pow_nonce = nonce; cookie = cookie }) nonce
          ≡ ok true =
        probe-check_proof_of_work sum256 pred (record { pow_nonce = nonce; cookie = cookie }) nonce
        ∙ ap (checked cookie) (omega arith)
        ∙ hit in
      rw (start, worker) (ap (λ n. ok (some n)) (omega arith))
  worker-first_from (suc fuel) (suc k) nonce cookie room range misses hit =
      let start : probe sum256 pred (record { pow_nonce = nonce; cookie = cookie }) nonce
          ≡ ok false =
        probe-check_proof_of_work sum256 pred (record { pow_nonce = nonce; cookie = cookie }) nonce
        ∙ ap (checked cookie) (omega arith)
        ∙ misses 0 (omega arith) in
      let next : (nonce + workers) % 2 ^ 64 ≡ nonce + workers = mod-eq_of_lt (omega arith) in
      let rest =
        worker-first_from fuel k (nonce + workers) cookie (omega arith) (omega arith)
          (λ j h. ap (checked cookie) (omega arith) ∙ misses (suc j) (omega arith))
          (ap (checked cookie) (omega arith) ∙ hit) in
      rw (start, worker)
        (ap (λ n. worker fuel sum256 pred (record { pow_nonce = n; cookie = cookie })) next
          ∙ rest
          ∙ ap (λ n. ok (some n)) (omega arith))

  -- Worker `id` of the search over a cookie finds its first nonce that the check accepts, if the
  -- check refuses each of its nonces before, none of these is beyond 64 bits, and it is given fuel
  -- for one more than the nonces refused.
  pub worker-first :
      (fuel k id : ℕ) (cookie : Bytes)
      → k < fuel
      → id + k * workers < 2 ^ 64
      → ((j : ℕ) → j < k → checked cookie (id + j * workers) ≡ ok false)
      → checked cookie (id + k * workers) ≡ ok true
      → worker fuel sum256 pred (compute_pow_start cookie id) ≡ ok (some (id + k * workers))
  worker-first fuel k id cookie = worker-first_from fuel k id cookie
