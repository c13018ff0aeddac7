-- ===== src/Vertical/Notify.antt =====
-- gossip/verticalAPI/types/gossip_notify.go.
use whisper2peer.Base.{
  ℕ, ◌+◌, ◌*◌, ◌≡◌, ◌<◌, [], ◌∷◌, ◌++◌, Bytes, be16, copy_at, grown, length-grown, ok, err, ◌>>=◌,
  length, ltb, ◌==◌, not, if◌then◌else◌, arith,
}
use whisper2peer.Messages.{GossipNotify}
use whisper2peer.Vertical.{
  Result, not_enough_data, wrong_type, MessageHeader, header_size, notify_type, read16,
  marshal_header,
}

pub record Packet : Type 0 where
  pub gn : GossipNotify
  pub header : MessageHeader

abbrev pub calc_size : Packet → ℕ
calc_size e = header_size + 2 + 2

unfoldable pub unmarshal : Packet → Bytes → Result (Packet × ℕ)
unmarshal e buf =
    if not (e.header.type == notify_type)
    then err wrong_type
    else if ltb (length buf) (calc_size e)
    then err not_enough_data
    else do
      reserved ← read16 buf 4
      data_type ← read16 buf 6
      ok (record e { gn = record { reserved = reserved; data_type = data_type } }, 8)

-- The writes of `Marshal`, into the grown buffer. The reserved bytes are skipped.
write_packet : Packet → Bytes → Result Bytes
write_packet e buf = do buf ← marshal_header e.header buf; ok (copy_at buf 6 (be16 e.gn.data_type))

unfoldable pub marshal : Packet → Bytes → Result Bytes
unfolding write_packet
marshal e buf =
    if not (e.header.type == notify_type)
    then err wrong_type
    else write_packet e (grown buf (calc_size e))

-- The bytes of a packet, with the reserved bytes given.
abbrev pub bytes : Packet → ℕ → ℕ → Bytes
bytes e r s = be16 e.header.size ++ be16 e.header.type ++ r ∷ s ∷ be16 e.gn.data_type

-- Integers in the ranges of their Go types, and a header with the type and the size of the packet.
pub record IsWellFormed (e : Packet) : Type 0 where
  pub typed : e.header.type ≡ notify_type
  pub sized : e.header.size ≡ calc_size e
  pub data_type_range : e.gn.data_type < 65536

write_packet-bytes :
    (e : Packet) (buf : Bytes)
    → length buf ≡ calc_size e
    → (r : ℕ) × (s : ℕ) × (write_packet e buf ≡ ok (bytes e r s))
unfolding write_packet marshal_header
write_packet-bytes e (a ∷ b ∷ c ∷ d ∷ r ∷ s ∷ h ∷ i ∷ []) l = (r, s, ground arith)
write_packet-bytes e _ l = absurd (omega arith)

pub marshal-bytes :
    (e : Packet) (buf : Bytes)
    → IsWellFormed e
    → (r : ℕ) × (s : ℕ) × (marshal e buf ≡ ok (bytes e r s))
unfolding marshal
marshal-bytes e buf h =
    let (r, s, w) =
      write_packet-bytes e (grown buf (calc_size e)) (length-grown buf (calc_size e)) in
    (r, s, ground arith)

pub unmarshal-bytes :
    (e : Packet) (old : GossipNotify) (r s : ℕ)
    → IsWellFormed e
    → unmarshal (record { gn = old; header = e.header }) (bytes e r s)
      ≡ ok (record e { gn = record { reserved = r * 256 + s; data_type = e.gn.data_type } }, 8)
unfolding unmarshal
unmarshal-bytes e old r s h = ground arith
