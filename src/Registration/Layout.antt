-- ===== src/Registration/Layout.antt =====
-- The bytes of the packets of p2p_reg/main.go.
use whisper2peer.Base.{
  ℕ, zero, suc, ◌+◌, ◌-◌, ◌*◌, ◌≡◌, ◌<◌, refl, ap, ◌∙◌, [], ◌∷◌, ◌++◌, Bytes, be, be16, copy,
  copy_full, grown, replicate, length, ltb, false, length-append, ◌≢◌, err, length-grown, ◌-◌,
  length-replicate, take_all, ok, arith,
}
use whisper2peer.Registration.{
  EnrollRegister, EnrollFailure, marshal_register, wrong_type, register_size, register_text,
  newline, header_size, enroll_register_type, enroll_failure_type, unmarshal_failure, failure_size,
}

-- The zero bytes of a new buffer, of which one is left behind the text.
copy-replicate : (src : Bytes) → copy (replicate {A = ℕ} (suc (length src)) 0) src ≡ src ++ 0 ∷ []
copy-replicate [] = refl
copy-replicate (s ∷ src) = ap (◌∷◌ s) (copy-replicate src)

replicate-plus : (a b : ℕ) → replicate {A = ℕ} (a + b) 0 ≡ replicate a 0 ++ replicate b 0
replicate-plus zero b = let e : zero + b ≡ b = omega arith in ap (λ n. replicate n 0) e
replicate-plus (suc a) b =
    let e : suc a + b ≡ suc (a + b) = omega arith in
    ap (λ n. replicate n 0) e ∙ ap (◌∷◌ 0) (replicate-plus a b)

grown-nil : (n : ℕ) → grown [] n ≡ replicate n 0
unfolding grown
grown-nil n = take_all n (replicate n 0) (omega (arith, length-replicate {A = ℕ} n 0))

length-register_text :
    (e : EnrollRegister) → register_size e + 3 * 2 ≡ 24 + suc (length (register_text e))
length-register_text e =
    let a = e.email ++ newline in
    let b = a ++ e.firstname in
    let c = b ++ newline in
    omega (
      arith,
      length-append e.email newline,
      length-append a e.firstname,
      length-append b newline,
      length-append c e.lastname,
      length-append (c ++ e.lastname) (110 ∷ e.gitlab_handle),
    )

abbrev pub register_bytes : EnrollRegister → Bytes
register_bytes e =
    be16 e.header.size
    ++ be16 e.header.type
    ++ be 8 e.challenge
    ++ be16 e.team_number
    ++ be16 e.project_choice
    ++ be 8 e.nonce
    ++ register_text e
    ++ 0 ∷ []

pub marshal_register-bytes :
    (e : EnrollRegister)
    → e.header.type ≡ enroll_register_type
    → marshal_register e [] ≡ ok (register_bytes e)
unfolding marshal_register grown be
marshal_register-bytes e typed =
    let text = register_text e in
    let front : Bytes =
      be16 e.header.size
      ++ be16 enroll_register_type
      ++ be 8 e.challenge
      ++ be16 e.team_number
      ++ be16 e.project_choice
      ++ be 8 e.nonce in
    let room : grown [] (register_size e + 3 * 2)
        ≡ replicate 24 0 ++ replicate (suc (length text)) 0 =
      grown-nil (register_size e + 3 * 2)
      ∙ ap (λ n. replicate n 0) (length-register_text e)
      ∙ replicate-plus 24 (suc (length text)) in
    let fits : ltb (length {A = ℕ} (replicate 24 0 ++ replicate (suc (length text)) 0)) header_size
        ≡ false =
      ground arith in
    rw (typed, room, fits) (ap (λ t. ok (front ++ t)) (copy-replicate text))

pub marshal_register-typed :
    (e : EnrollRegister)
    → e.header.type ≢ enroll_register_type
    → marshal_register e [] ≡ err wrong_type
unfolding marshal_register
marshal_register-typed e other = ground arith

-- The bytes of a packet of a failure.
abbrev pub failure_bytes : EnrollFailure → Bytes
failure_bytes e =
    be16 e.header.size
    ++ be16 e.header.type
    ++ be16 e.reserved
    ++ be16 e.error_number
    ++ e.description

-- A packet with the type and the size of a failure is read as the failure that its bytes are of,
-- with its description whole, into whatever the receiving packet held.
pub unmarshal_failure-failure_bytes :
    (e old : EnrollFailure)
    → e.header.type ≡ enroll_failure_type
    → e.header.size ≡ failure_size e
    → e.reserved < 65536
    → e.error_number < 65536
    → unmarshal_failure (record old { header = e.header }) (failure_bytes e)
      ≡ ok (e, 32 + length e.description)
unfolding unmarshal_failure
unmarshal_failure-failure_bytes e old typed sized r n =
    let old_room = length-grown [] (e.header.size - 8) in
    ground (arith, old_room, copy_full (grown [] (e.header.size - 8)) e.description (omega arith))
