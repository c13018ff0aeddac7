-- ===== src/Vertical/Validation.antt =====
-- gossip/verticalAPI/types/gossip_validation.go.
use whisper2peer.Base.{
  ℕ, ◌+◌, ◌%◌, ◌≡◌, ◌<◌, [], ◌∷◌, ◌++◌, Bytes, be16, copy_at, grown, length-grown, ok, err, ◌>>=◌,
  length, ltb, ◌==◌, not, if◌then◌else◌, arith,
}
use whisper2peer.Messages.{GossipValidation}
use whisper2peer.Vertical.{
  Result, not_enough_data, wrong_type, MessageHeader, header_size, validation_type, read16,
  marshal_header,
}

pub record Packet : Type 0 where
  pub gv : GossipValidation
  pub header : MessageHeader

abbrev pub calc_size : Packet → ℕ
calc_size e = header_size + 2 + 2

-- `Bitfield&0x1 == 0x1` is the test of the lowest bit.
unfoldable pub unmarshal : Packet → Bytes → Result (Packet × ℕ)
unmarshal e buf =
    if not (e.header.type == validation_type)
    then err wrong_type
    else if ltb (length buf) (calc_size e)
    then err not_enough_data
    else do
      message_id ← read16 buf 4
      bitfield ← read16 buf 6
      ok (
        record e {
          gv = record { message_id = message_id; bitfield = bitfield; valid = bitfield % 2 == 1 };
        },
        8,
      )

-- The writes of `Marshal`, into the grown buffer.
write_packet : Packet → Bytes → Result Bytes
write_packet e buf = do
  buf ← marshal_header e.header buf
  let buf' = copy_at buf 4 (be16 e.gv.message_id)
  ok (copy_at buf' 6 (be16 e.gv.bitfield))

unfoldable pub marshal : Packet → Bytes → Result Bytes
unfolding write_packet
marshal e buf =
    if not (e.header.type == validation_type)
    then err wrong_type
    else write_packet e (grown buf (calc_size e))

-- The bytes of a packet.
abbrev pub bytes : Packet → Bytes
bytes e = be16 e.header.size ++ be16 e.header.type ++ be16 e.gv.message_id ++ be16 e.gv.bitfield

-- Integers in the ranges of their Go types, a flag that agrees with the bitfield, and a header
-- with the type and the size of the packet.
pub record IsWellFormed (e : Packet) : Type 0 where
  pub typed : e.header.type ≡ validation_type
  pub sized : e.header.size ≡ calc_size e
  pub message_id_range : e.gv.message_id < 65536
  pub bitfield_range : e.gv.bitfield < 65536
  pub flagged : e.gv.valid ≡ (e.gv.bitfield % 2 == 1)

write_packet-bytes :
    (e : Packet) (buf : Bytes) → length buf ≡ calc_size e → write_packet e buf ≡ ok (bytes e)
unfolding write_packet marshal_header
write_packet-bytes e (a ∷ b ∷ c ∷ d ∷ r ∷ s ∷ h ∷ i ∷ []) l = ground arith
write_packet-bytes e _ l = absurd (omega arith)

pub marshal-bytes : (e : Packet) (buf : Bytes) → IsWellFormed e → marshal e buf ≡ ok (bytes e)
unfolding marshal
marshal-bytes e buf h =
    let w = write_packet-bytes e (grown buf (calc_size e)) (length-grown buf (calc_size e)) in
    ground arith

pub unmarshal-bytes :
    (e : Packet) (old : GossipValidation)
    → IsWellFormed e
    → unmarshal (record { gv = old; header = e.header }) (bytes e) ≡ ok (e, 8)
unfolding unmarshal
unmarshal-bytes e old h = ground arith

-- A well-formed packet written into any buffer is read back as it was, by a receiver with the
-- header.
pub unmarshal_validation-marshal :
    (e : Packet) (buf : Bytes) (old : GossipValidation)
    → IsWellFormed e
    → (marshal e buf ≡ ok (bytes e))
      × (unmarshal (record { gv = old; header = e.header }) (bytes e) ≡ ok (e, 8))
unmarshal_validation-marshal e buf old h = (marshal-bytes e buf h, unmarshal-bytes e old h)
