-- ===== src/Vertical/Notification.antt =====
-- gossip/verticalAPI/types/gossip_notification.go.
use whisper2peer.Base.{
  ℕ, ◌+◌, ◌≡◌, ◌<◌, ◌≤◌, ap, [], ◌∷◌, ◌++◌, Bytes, be16, copy_at, copy_full, grown, length-grown,
  ok, err, ◌>>=◌, length, ltb, ◌==◌, not, if◌then◌else◌, arith,
}
use whisper2peer.Messages.{GossipNotification}
use whisper2peer.Vertical.{
  Result, not_enough_data, wrong_type, MessageHeader, header_size, notification_type, read16,
  slice_to, slice_to-append, marshal_header,
}

pub record Packet : Type 0 where
  pub gn : GossipNotification
  pub header : MessageHeader

abbrev pub calc_size : Packet → ℕ
calc_size e = header_size + 2 + 2 + length e.gn.payload

unfoldable pub unmarshal : Packet → Bytes → Result (Packet × ℕ)
unmarshal e buf =
    if not (e.header.type == notification_type)
    then err wrong_type
    else if ltb (length buf) (calc_size e)
    then err not_enough_data
    else do
      message_id ← read16 buf 4
      data_type ← read16 buf 6
      payload ← slice_to buf 8 e.header.size
      ok (
        record e {
          gn = record { message_id = message_id; data_type = data_type; payload = payload };
        },
        8 + length payload,
      )

-- The writes of `Marshal`, into the grown buffer.
write_packet : Packet → Bytes → Result Bytes
write_packet e buf = do
  buf ← marshal_header e.header buf
  let buf' = copy_at buf 4 (be16 e.gn.message_id)
  let buf'' = copy_at buf' 6 (be16 e.gn.data_type)
  ok (copy_at buf'' 8 e.gn.payload)

unfoldable pub marshal : Packet → Bytes → Result Bytes
unfolding write_packet
marshal e buf =
    if not (e.header.type == notification_type)
    then err wrong_type
    else write_packet e (grown buf (calc_size e))

-- The bytes of a packet.
abbrev pub bytes : Packet → Bytes
bytes e =
    be16 e.header.size
    ++ be16 e.header.type
    ++ be16 e.gn.message_id
    ++ be16 e.gn.data_type
    ++ e.gn.payload

write_packet-bytes :
    (e : Packet) (buf : Bytes) → length buf ≡ calc_size e → write_packet e buf ≡ ok (bytes e)
unfolding write_packet marshal_header
write_packet-bytes e (a ∷ b ∷ c ∷ d ∷ f ∷ r ∷ h ∷ i ∷ rest) l =
    ground (arith, copy_full rest e.gn.payload)
write_packet-bytes e _ l = absurd (omega arith)

-- Whatever the buffer held from earlier packets, the bytes written are those of this packet.
pub marshal-bytes :
    (e : Packet) (buf : Bytes) → e.header.type ≡ notification_type → marshal e buf ≡ ok (bytes e)
unfolding marshal
marshal-bytes e buf h =
    ground (arith, write_packet-bytes e (grown buf (calc_size e)) (length-grown buf (calc_size e)))

-- Integers in the ranges of their Go types, and a header with the type and the size of the packet.
pub record IsWellFormed (e : Packet) : Type 0 where
  pub typed : e.header.type ≡ notification_type
  pub sized : e.header.size ≡ calc_size e
  pub message_id_range : e.gn.message_id < 65536
  pub data_type_range : e.gn.data_type < 65536
  pub size_range : e.header.size < 65536

-- The receiver's old data may be as long as the new.
pub unmarshal-bytes :
    (e : Packet) (old : GossipNotification)
    → IsWellFormed e
    → length old.payload ≤ length e.gn.payload
    → unmarshal (record { gn = old; header = e.header }) (bytes e) ≡ ok (e, calc_size e)
unfolding unmarshal
unmarshal-bytes e old h shorter =
    let front : Bytes =
      be16 e.header.size ++ be16 e.header.type ++ be16 e.gn.message_id ++ be16 e.gn.data_type in
    ground (arith, shorter, slice_to-append front e.gn.payload e.header.size)

-- Longer old data is taken for data that is missing.
pub unmarshal-bytes_shorter :
    (e : Packet) (old : GossipNotification)
    → IsWellFormed e
    → length e.gn.payload < length old.payload
    → unmarshal (record { gn = old; header = e.header }) (bytes e) ≡ err not_enough_data
unfolding unmarshal
unmarshal-bytes_shorter e old h shorter = ground (arith, shorter)

-- A well-formed packet written into any buffer is read back as it was, by a receiver with the
-- header and no data of its own.
pub unmarshal_notification-marshal :
    (e : Packet) (buf : Bytes) (old : GossipNotification)
    → IsWellFormed e
    → old.payload ≡ []
    → (out : Bytes) × (marshal e buf ≡ ok out)
      × (unmarshal (record { gn = old; header = e.header }) out ≡ ok (e, calc_size e))
unmarshal_notification-marshal e buf old h clean = (
  bytes e,
  marshal-bytes e buf h.typed,
  unmarshal-bytes e old h (ground (arith, ap length clean)),
)
