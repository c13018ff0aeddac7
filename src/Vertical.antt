-- ===== src/Vertical.antt =====
-- gossip/verticalAPI/types and gossip/common/types.go: the packets between a node and its modules.
--
-- `Unmarshal` is a method of the packet that it fills in, and reads its header and, in `CalcSize`,
-- its old data: the old packet is an argument. It gives the packet and the number of bytes read.
-- `Marshal` is given the backing array of its buffer. Integers keep the ranges of their Go types by
-- hypotheses of the theorems.
pub mod Announce
pub mod Notification
pub mod Notify
pub mod Validation
pub mod Bounds
pub mod Examples
use whisper2peer.Base.{
  ℕ, suc, ◌≡◌, ap, arith, true, length-append, take_all, drop-length_append, ◌+◌, ◌-◌, ◌%◌, Bool,
  Option, none, some, List, [], ◌∷◌, ◌++◌, Bytes, be16, uint16?, copy_at, grown, Outcome, ok, err,
  panics, ◌>>=◌, or_panic, get_elem?, set, take, drop, length, min, ltb, leb, ◌==◌, not,
  if◌then◌else◌,
}

pub data Error : Type 0 where
  not_enough_data buf_size wrong_type : Error

abbrev pub Result : Type 0 → Type 0
Result A = Outcome Error A

abbrev pub announce_type : ℕ
announce_type = 500

abbrev pub notify_type : ℕ
notify_type = 501

abbrev pub notification_type : ℕ
notification_type = 502

abbrev pub validation_type : ℕ
validation_type = 503

pub record MessageHeader : Type 0 where
  pub size : ℕ
  pub type : ℕ

-- `binary.BigEndian.Uint16(buf[i:])` and `buf[i]`.
abbrev pub read16 : Bytes → ℕ → Result ℕ
read16 buf i = or_panic (uint16? (drop i buf))

abbrev pub read8 : Bytes → ℕ → Result ℕ
read8 buf i = or_panic (get_elem? buf i)

-- `buf[lo:min(hi, len(buf))]`.
abbrev pub slice_to : Bytes → ℕ → ℕ → Result Bytes
slice_to buf lo hi =
    let end = min hi (length buf) in if leb lo end then ok (drop lo (take end buf)) else panics

-- The rest of a buffer, behind the bytes that have been read.
pub slice_to-append :
    (front rest : Bytes) (hi : ℕ)
    → hi ≡ length front + length rest
    → slice_to (front ++ rest) (length front) hi ≡ ok rest
slice_to-append front rest hi e =
    let same : min hi (length (front ++ rest)) ≡ length (front ++ rest) =
      omega (arith, length-append front rest) in
    let fits : leb (length front) (length (front ++ rest)) ≡ true =
      ground (arith, length-append front rest) in
    rw (same, fits, take_all (length (front ++ rest)) (front ++ rest) (omega arith))
      (ap ok (drop-length_append front rest))

abbrev pub header_size : ℕ
header_size = 4

-- `MessageHeader.Unmarshal`.
unfoldable pub unmarshal_header : Bytes → Result (MessageHeader × ℕ)
unmarshal_header buf =
    if ltb (length buf) header_size
    then err not_enough_data
    else do size ← read16 buf 0; type ← read16 buf 2; ok (record { size = size; type = type }, 4)

-- `MessageHeader.Marshal`, which writes into the buffer that it is given.
unfoldable pub marshal_header : MessageHeader → Bytes → Result Bytes
marshal_header m buf =
    if ltb (length buf) header_size
    then err buf_size
    else ok (copy_at (copy_at buf 0 (be16 m.size)) 2 (be16 m.type))

-- `RecalcSize`: the `uint16` of the packet's size.
abbrev pub recalc_size : MessageHeader → ℕ → MessageHeader
recalc_size m size = record m { size = size % 65536 }
