-- ===== src/Cookie/Examples.antt =====
-- A cipher and a hash that are easy to evaluate, and the theorems there.
use whisper2peer.Base.{
  ℕ, zero, suc, false, ◌+◌, ◌*◌, ◌%◌, ◌<◌, ◌≡◌, refl, true, some, [], ◌∷◌, Bytes, grown, be, ok,
  arith, replicate,
}
use whisper2peer.Cookie.{
  Aead, ConnCookie, nonce_size, new_conn_cookie, marshal, unmarshal, create_cookie, read_cookie,
  marshal_pow, first8bits0, check_proof_of_work, probe,
}
use whisper2peer.Goroutines.{receive, worker, result_of, run, on_event}
use whisper2peer.Cookie.Workers.{act, parallel_proof_of_work3}
use whisper2peer.Cookie.Handover.{parallel_proof_of_work3-check_proof_of_work}
use whisper2peer.Cookie.Search.{checked}
use whisper2peer.Cookie
use whisper2peer.Cookie.{workers, compute_pow_start}

program : Unit {0}
unfolding marshal unmarshal create_cookie read_cookie marshal_pow check_proof_of_work probe grown be
program = tt

-- Nothing is hidden.
abbrev pub plain : Aead
plain = record { seal = λ n p. p; open_sealed = λ n c. some c; open-seal = λ n p h. refl }

-- The digest is the last byte in front of the rest.
abbrev pub last_in_front : Bytes → Bytes
last_in_front [] = []
last_in_front (b ∷ []) = b ∷ []
last_in_front (b ∷ c ∷ bs) = last_in_front (c ∷ bs)

abbrev pub nonce : Bytes
nonce = replicate nonce_size 5

abbrev pub cookie : ConnCookie
cookie = new_conn_cookie nonce 300 (1 ∷ [])

answer_checked :
    check_proof_of_work last_in_front first8bits0 (record { pow_nonce = 512; cookie = 9 ∷ [] })
    ≡ ok true
unfolding program
answer_checked = refl

-- A digest that is 0 for the nonce 32, which is the second one of worker 0.
abbrev pub rotated : Bytes → Bytes
rotated bs = elim (last_in_front bs) [ [] ↦ [] | b ∷ _ ↦ (b + 224) % 256 ∷ [] ]

searched : Cookie.worker 2 rotated first8bits0 (compute_pow_start (9 ∷ []) 0) ≡ ok (some 32)
unfolding program Cookie.worker
searched = refl

refused : (j : ℕ) → j < 1 → checked rotated first8bits0 (9 ∷ []) (0 + j * workers) ≡ ok false
unfolding program
refused zero h = refl
refused (suc j) h = absurd (omega arith)

taken : checked rotated first8bits0 (9 ∷ []) (0 + 1 * workers) ≡ ok true
unfolding program
taken = refl

-- A goroutine hands over 32, and another one stays behind.
found_on :
    parallel_proof_of_work3 rotated first8bits0
      (record { pow_nonce = 0; cookie = 9 ∷ [] })
      (worker 0 ∷ worker 3 ∷ receive ∷ worker 0 ∷ worker 0 ∷ worker 3 ∷ worker 0 ∷ [])
    ≡ ok (some 32)
unfolding program parallel_proof_of_work3 result_of run on_event act
found_on = refl

parallel_proof_of_work3-check_proof_of_work_example :
    check_proof_of_work rotated first8bits0 (record { pow_nonce = 32; cookie = 9 ∷ [] }) ≡ ok true
parallel_proof_of_work3-check_proof_of_work_example =
    parallel_proof_of_work3-check_proof_of_work rotated first8bits0
      (record { pow_nonce = 0; cookie = 9 ∷ [] })
      (worker 0 ∷ worker 3 ∷ receive ∷ worker 0 ∷ worker 0 ∷ worker 3 ∷ worker 0 ∷ []) 32 found_on

-- A digest that always passes.
abbrev zeros : Bytes → Bytes
zeros bs = 0 ∷ []
