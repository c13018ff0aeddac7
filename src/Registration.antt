-- ===== src/Registration.antt =====
-- p2p_reg/main.go: the client that registers a team, with the packets of its protocol.
--
-- `Unmarshal` is given the packet with its header, and gives the packet and the number that the
-- code returns with it. `Marshal` is given the backing array of its buffer. A string is its bytes.
pub mod Layout
pub mod Search
pub mod Found
pub mod Parallel
pub mod Race
pub mod Solo
pub mod Client
pub mod Session
pub mod Conversation
pub mod Examples
use whisper2peer.Base.{
  ℕ, ◌+◌, ◌-◌, ◌*◌, Bool, true, [], ◌∷◌, ◌++◌, Bytes, be16, be, from_be, uint16?, copy_at, grown,
  Outcome, ok, err, panics, ◌>>=◌, or_panic, take, drop, length, ltb, leb, ◌==◌, not, if◌then◌else◌,
  get_elem?,
}

pub data Error : Type 0 where
  wrong_type : Error

abbrev pub Result : Type 0 → Type 0
Result A = Outcome Error A

-- `binary.BigEndian.Uint16(buf[i:])` and `binary.BigEndian.Uint64(buf[i:])`.
abbrev pub read16 : Bytes → ℕ → Result ℕ
read16 buf i = or_panic (uint16? (drop i buf))

abbrev pub read64 : Bytes → ℕ → Result ℕ
read64 buf i = if leb (i + 8) (length buf) then ok (from_be 0 (take 8 (drop i buf))) else panics

pub record MessageHeader : Type 0 where
  pub size : ℕ
  pub type : ℕ

-- `MessageHeader.CalcSize`.
abbrev pub header_size : ℕ
header_size = 4

unfoldable pub unmarshal_header : Bytes → Result (MessageHeader × ℕ)
unmarshal_header buf = do
  size ← read16 buf 0
  type ← read16 buf 2
  ok (record { size = size; type = type }, 32)

-- The bytes that `MessageHeader.Hash` writes.
abbrev pub hash_header : MessageHeader → Bytes
hash_header m = be16 m.size ++ be16 m.type

abbrev pub marshal_header : MessageHeader → Bytes → Result Bytes
marshal_header m buf =
    if ltb (length buf) header_size
    then panics
    else ok (copy_at (copy_at buf 0 (be16 m.size)) 2 (be16 m.type))

abbrev pub enroll_init_type : ℕ
enroll_init_type = 680

abbrev pub enroll_register_type : ℕ
enroll_register_type = 681

abbrev pub enroll_success_type : ℕ
enroll_success_type = 682

abbrev pub enroll_failure_type : ℕ
enroll_failure_type = 683

pub record EnrollInit : Type 0 where
  pub header : MessageHeader
  pub challenge : ℕ

abbrev pub unmarshal_init : EnrollInit → Bytes → Result (EnrollInit × ℕ)
unmarshal_init e buf =
    if not (e.header.type == enroll_init_type)
    then err wrong_type
    else do challenge ← read64 buf header_size; ok (record e { challenge = challenge }, 64)

-- `EnrollInit.CalcSize`.
abbrev pub init_size : ℕ
init_size = 12

pub record EnrollRegister : Type 0 where
  pub header : MessageHeader
  pub challenge : ℕ
  pub team_number : ℕ
  pub project_choice : ℕ
  pub nonce : ℕ
  pub email : Bytes
  pub firstname : Bytes
  pub lastname : Bytes
  pub gitlab_handle : Bytes

-- The zero value of Go.
abbrev pub zero_register : EnrollRegister
zero_register = record {
  header = record { size = 0; type = 0 };
  challenge = 0;
  team_number = 0;
  project_choice = 0;
  nonce = 0;
  email = [];
  firstname = [];
  lastname = [];
  gitlab_handle = [];
}

-- "\r\n".
abbrev pub newline : Bytes
newline = 13 ∷ 10 ∷ []

-- The bytes that `EnrollRegister.Hash` writes.
abbrev pub hash_register : EnrollRegister → Bytes
hash_register e =
    be 8 e.challenge
    ++ be16 e.team_number
    ++ be16 e.project_choice
    ++ be 8 e.nonce
    ++ e.email
    ++ newline
    ++ e.firstname
    ++ newline
    ++ e.lastname
    ++ newline
    ++ e.gitlab_handle

-- `EnrollRegister.CalcSize`.
abbrev pub register_size : EnrollRegister → ℕ
register_size e =
    header_size
    + 8
    + 2
    + 2
    + 8
    + length e.email
    + length e.firstname
    + length e.lastname
    + length e.gitlab_handle

-- `fmt.Sprintf` with the format "%s\r\n%s\r\n%sn%s".
abbrev pub register_text : EnrollRegister → Bytes
register_text e =
    e.email ++ newline ++ e.firstname ++ newline ++ e.lastname ++ 110 ∷ e.gitlab_handle

-- The buffer has 30 bytes or more, so that each integer fits.
unfoldable pub marshal_register : EnrollRegister → Bytes → Result Bytes
marshal_register e buf = if not (e.header.type == enroll_register_type) then err wrong_type else do
  buf1 ← marshal_header e.header (grown buf (register_size e + 3 * 2))
  let buf2 = copy_at buf1 header_size (be 8 e.challenge)
  let buf3 = copy_at buf2 (header_size + 8) (be16 e.team_number)
  let buf4 = copy_at buf3 (header_size + 10) (be16 e.project_choice)
  let buf5 = copy_at buf4 (header_size + 12) (be 8 e.nonce)
  ok (copy_at buf5 (header_size + 20) (register_text e))

pub record EnrollSuccess : Type 0 where
  pub header : MessageHeader
  pub reserved : ℕ
  pub team_number : ℕ

abbrev pub unmarshal_success : EnrollSuccess → Bytes → Result (EnrollSuccess × ℕ)
unmarshal_success e buf = if not (e.header.type == enroll_success_type) then err wrong_type else do
  reserved ← read16 buf header_size
  team_number ← read16 buf (header_size + 2)
  ok (record e { reserved = reserved; team_number = team_number }, 32)

-- `EnrollSuccess.CalcSize`.
abbrev pub success_size : ℕ
success_size = 8

pub record EnrollFailure : Type 0 where
  pub header : MessageHeader
  pub reserved : ℕ
  pub error_number : ℕ
  pub description : Bytes

-- The description behind the fields; `make` panics on a negative length.
abbrev pub description_of : ℕ → Bytes → Result Bytes
description_of size buf =
    if ltb size 8 then panics else ok (copy_at (grown [] (size - 8)) 0 (drop (header_size + 4) buf))

unfoldable pub unmarshal_failure : EnrollFailure → Bytes → Result (EnrollFailure × ℕ)
unmarshal_failure e buf = if not (e.header.type == enroll_failure_type) then err wrong_type else do
  reserved ← read16 buf header_size
  error_number ← read16 buf (header_size + 2)
  desc ← description_of e.header.size buf
  ok (
    record e { reserved = reserved; error_number = error_number; description = desc },
    32 + length desc,
  )

-- `EnrollFailure.CalcSize`.
abbrev pub failure_size : EnrollFailure → ℕ
failure_size e = header_size + 2 + 2 + length e.description

-- `&&`, whose right side is not evaluated where the left one is false or panics.
and_also : Result Bool → Result Bool → Result Bool
and_also (ok true) q = q
and_also p q = p

zero_at : Bytes → ℕ → Result Bool
zero_at digest i = do b ← or_panic (get_elem? digest i); ok (b == 0)

unfoldable pub first24bits0 : Bytes → Result Bool
unfolding and_also zero_at
first24bits0 digest = and_also (and_also (zero_at digest 0) (zero_at digest 1)) (zero_at digest 2)
