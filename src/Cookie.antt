-- ===== src/Cookie.antt =====
-- gossip/strats/cookie.go, and the methods of `powMarsh` in gossip/strats/main.go with
-- `CheckProofOfWork` and the predicates of gossip/pow/pow.go: the cookies of a handshake and the
-- check of a proof of work over one.
--
-- The cipher (chacha20poly1305) and the hash (SHA-256) are parameters. A time is the 64-bit pattern
-- of its nanoseconds since 1970, as it stands in the cookie. Randomness is an argument.
pub mod RoundTrip
pub mod Search
pub mod Workers
pub mod Handover
pub mod Lost
pub mod Examples
use whisper2peer.Base.{
  ℕ, zero, false, suc, ◌+◌, ◌-◌, ◌≡◌, ◌%◌, ◌^◌, Bool, true, false, ◌&&◌, Option, none, some, List,
  [], ◌∷◌, ◌++◌, Bytes, be, from_be, copy_at, grown, Outcome, ok, err, panics, ◌>>=◌, or_panic,
  get_elem?, length, take, drop, leb, ltb, ◌==◌, if◌then◌else◌,
}

-- `chacha20poly1305.NonceSizeX`.
abbrev pub nonce_size : ℕ
nonce_size = 24

-- `cipher.AEAD` under one key, without additional data. `Open` gives what `Seal` took, and fails
-- on what `Seal` does not give.
pub record Aead : Type 0 where
  pub seal : Bytes → Bytes → Bytes
  pub open_sealed : Bytes → Bytes → Option Bytes
  pub open-seal : (n p : Bytes) → length n ≡ nonce_size → open_sealed n (seal n p) ≡ some p

pub record ConnCookie : Type 0 where
  pub chall : Bytes
  pub timestamp : ℕ
  pub dest : Bytes

-- `NewConnCookie`, given the random bytes and the time that it reads.
abbrev pub new_conn_cookie : Bytes → ℕ → Bytes → ConnCookie
new_conn_cookie nonce now dest = record { chall = nonce; timestamp = now; dest = dest }

-- `Marshal` writes the time, the nonce and the destination one behind the other.
unfoldable pub marshal : ConnCookie → Bytes
marshal x =
    let buf = grown [] (length x.chall + 8 + length x.dest) in
    let buf' = copy_at buf 0 (be 8 x.timestamp) in
    let buf'' = copy_at buf' 8 x.chall in copy_at buf'' (8 + length x.chall) x.dest

pub data Error : Type 0 where
  decrypting : Error

abbrev pub Result : Type 0 → Type 0
Result A = Outcome Error A

-- `buf[lo:hi]` and `buf[lo:]`.
abbrev pub slice : Bytes → ℕ → ℕ → Result Bytes
slice buf lo hi = if leb hi (length buf) then ok (drop lo (take hi buf)) else panics

abbrev pub slice_from : Bytes → ℕ → Result Bytes
slice_from buf lo = if leb lo (length buf) then ok (drop lo buf) else panics

-- `Unmarshal`.
unfoldable pub unmarshal : Bytes → Result ConnCookie
unmarshal buf = do
  t ← slice buf 0 8
  chall ← slice buf 8 (8 + nonce_size)
  dest ← slice_from buf (8 + nonce_size)
  ok (record { chall = chall; timestamp = from_be 0 t; dest = dest })

-- `CreateCookie`: the nonce in the clear, and the sealed payload.
unfoldable pub create_cookie : Aead → ConnCookie → Bytes
create_cookie aead x = x.chall ++ aead.seal x.chall (marshal x)

-- `ReadCookie`.
unfoldable pub read_cookie : Aead → Bytes → Result ConnCookie
read_cookie aead cookie = do
  nonce ← slice cookie 0 nonce_size
  rest ← slice_from cookie nonce_size
  elim (aead.open_sealed nonce rest) [
    | none ↦ err decrypting
    | some plaintext ↦ unmarshal plaintext
  ]

-- `powMarsh`, which is a `ConnPoW` without its id.
pub record PowMarsh : Type 0 where
  pub pow_nonce : ℕ
  pub cookie : Bytes

-- `Marshal` of `powMarsh`: the cookie, and the nonce as a 64-bit integer.
unfoldable pub marshal_pow : PowMarsh → Bytes → Bytes
marshal_pow x buf =
    let buf' = grown buf (8 + length x.cookie) in
    let buf'' = copy_at buf' 0 x.cookie in copy_at buf'' (length x.cookie) (be 8 x.pow_nonce)

-- `AddToNonce`.
abbrev pub add_to_nonce : PowMarsh → ℕ → PowMarsh
add_to_nonce x n = record x { pow_nonce = (x.pow_nonce + n) % 2 ^ 64 }

abbrev pub strip_prefix_len : ℕ
strip_prefix_len = 0

abbrev pub prefix_len : PowMarsh → ℕ
prefix_len x = length x.cookie

-- `WriteNonce`: the bytes written.
abbrev pub write_nonce : PowMarsh → Bytes
write_nonce x = be 8 x.pow_nonce

abbrev pub is_zero_at : Bytes → ℕ → Outcome Error Bool
is_zero_at digest i = do b ← or_panic (get_elem? digest i); ok (b == 0)

-- `First8bits0`.
abbrev pub first8bits0 : Bytes → Result Bool
first8bits0 digest = is_zero_at digest 0

-- `CheckProofOfWork`, for the hash of a byte slice.
unfoldable pub check_proof_of_work :
    (Bytes → Bytes) → (Bytes → Result Bool) → PowMarsh → Result Bool
check_proof_of_work sum256 pred e = pred (sum256 (drop strip_prefix_len (marshal_pow e [])))

-- The test of one nonce in a worker of `parallelProofOfWork3`: the hash takes up the state that it
-- had behind the prefix, and is written the nonce. A hash object is what was written to it.
unfoldable pub probe : (Bytes → Bytes) → (Bytes → Result Bool) → PowMarsh → ℕ → Result Bool
probe sum256 pred e nonce =
    let m1 = take (prefix_len e) (drop strip_prefix_len (marshal_pow e [])) in
    pred (sum256 (m1 ++ write_nonce (record e { pow_nonce = nonce })))

-- `WORKERS`.
abbrev pub workers : ℕ
workers = 32

-- `SetNonce`.
abbrev pub set_nonce : PowMarsh → ℕ → PowMarsh
set_nonce x n = record x { pow_nonce = n }

-- The loop of one worker of `parallelProofOfWork3`, which no other worker has stopped: the first
-- of its nonces that passes, `ok none` where the fuel runs out.
unfoldable pub worker : ℕ → (Bytes → Bytes) → (Bytes → Result Bool) → PowMarsh → Result (Option ℕ)
worker zero sum256 pred e = ok none
worker (suc fuel) sum256 pred e = elim (probe sum256 pred e e.pow_nonce) [
  | panics ↦ panics
  | err x ↦ err x
  | ok true ↦ ok (some e.pow_nonce)
  | ok false ↦ worker fuel sum256 pred (add_to_nonce e workers)
]

-- What `ComputePoW` starts worker `id` with.
abbrev pub compute_pow_start : Bytes → ℕ → PowMarsh
compute_pow_start cookie id = set_nonce (record { pow_nonce = 0; cookie = cookie }) id
