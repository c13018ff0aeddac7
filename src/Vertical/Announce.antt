-- ===== src/Vertical/Announce.antt =====
-- gossip/verticalAPI/types/gossip_announce.go.
--
-- `Unmarshal` gives the payload as a slice of the buffer, here as the bytes that the buffer has then;
-- VerticalApi/Buffers keeps the slice.
use whisper2peer.Base.{
  ℕ, ◌+◌, ◌≡◌, ◌<◌, ap, [], ◌∷◌, ◌++◌, Bytes, be16, copy_at, copy_full, grown, length-grown, ok,
  err, ◌>>=◌, set, length, ltb, ◌==◌, not, if◌then◌else◌, arith,
}
use whisper2peer.Messages.{GossipAnnounce}
use whisper2peer.Vertical.{
  Result, not_enough_data, wrong_type, MessageHeader, header_size, announce_type, read8, read16,
  slice_to, slice_to-append, marshal_header,
}

pub record Packet : Type 0 where
  pub ga : GossipAnnounce
  pub header : MessageHeader

abbrev pub calc_size : Packet → ℕ
calc_size e = header_size + 1 + 1 + 2 + length e.ga.payload

unfoldable pub unmarshal : Packet → Bytes → Result (Packet × ℕ)
unmarshal e buf =
    if not (e.header.type == announce_type)
    then err wrong_type
    else if ltb (length buf) (calc_size e)
    then err not_enough_data
    else do
      ttl ← read8 buf 4
      reserved ← read8 buf 5
      data_type ← read16 buf 6
      payload ← slice_to buf 8 e.header.size
      ok (
        record e {
          ga = record { ttl = ttl; reserved = reserved; data_type = data_type; payload = payload };
        },
        8 + length payload,
      )

-- The writes of `Marshal`, into the grown buffer. The reserved byte is skipped: what the buffer
-- held stays there.
write_packet : Packet → Bytes → Result Bytes
write_packet e buf = do
  buf ← marshal_header e.header buf
  let buf' = set buf 4 e.ga.ttl
  let buf'' = copy_at buf' 6 (be16 e.ga.data_type)
  ok (copy_at buf'' 8 e.ga.payload)

unfoldable pub marshal : Packet → Bytes → Result Bytes
unfolding write_packet
marshal e buf =
    if not (e.header.type == announce_type)
    then err wrong_type
    else write_packet e (grown buf (calc_size e))

-- The bytes of a packet, with the reserved byte given.
abbrev pub bytes : Packet → ℕ → Bytes
bytes e reserved =
    be16 e.header.size
    ++ be16 e.header.type
    ++ e.ga.ttl ∷ reserved ∷ be16 e.ga.data_type
    ++ e.ga.payload

-- Integers in the ranges of their Go types, and a header with the type and the size of the packet.
pub record IsWellFormed (e : Packet) : Type 0 where
  pub typed : e.header.type ≡ announce_type
  pub sized : e.header.size ≡ calc_size e
  pub ttl_range : e.ga.ttl < 256
  pub data_type_range : e.ga.data_type < 65536
  pub size_range : e.header.size < 65536

write_packet-bytes :
    (e : Packet) (buf : Bytes)
    → length buf ≡ calc_size e
    → (r : ℕ) × (write_packet e buf ≡ ok (bytes e r))
unfolding write_packet marshal_header
write_packet-bytes e (a ∷ b ∷ c ∷ d ∷ f ∷ r ∷ h ∷ i ∷ rest) l =
    (r, ground (arith, copy_full rest e.ga.payload))
write_packet-bytes e _ l = absurd (omega arith)

-- A well-formed packet is written into whatever the buffer held: all bytes but the reserved one
-- are the packet's.
pub marshal-bytes :
    (e : Packet) (buf : Bytes) → IsWellFormed e → (r : ℕ) × (marshal e buf ≡ ok (bytes e r))
unfolding marshal
marshal-bytes e buf h =
    let (r, w) = write_packet-bytes e (grown buf (calc_size e)) (length-grown buf (calc_size e)) in
    (r, ground arith)

-- What a module has marshalled is read back by a node that has read the header, whatever the
-- receiving packet held, with the reserved byte that the sender's buffer held.
pub unmarshal-bytes :
    (e : Packet) (old : GossipAnnounce) (r : ℕ)
    → IsWellFormed e
    → old.payload ≡ []
    → unmarshal (record { ga = old; header = e.header }) (bytes e r)
      ≡ ok (
        record e {
          ga = record {
            ttl = e.ga.ttl;
            reserved = r;
            data_type = e.ga.data_type;
            payload = e.ga.payload;
          };
        },
        calc_size e,
      )
unfolding unmarshal
unmarshal-bytes e old r h clean =
    let front : Bytes =
      be16 e.header.size ++ be16 e.header.type ++ e.ga.ttl ∷ r ∷ be16 e.ga.data_type in
    ground (arith, ap length clean, slice_to-append front e.ga.payload e.header.size)

-- A well-formed packet written into any buffer is read back as it was, but for the reserved byte,
-- by a receiver with the header and no data of its own.
pub unmarshal_announce-marshal :
    (e : Packet) (buf : Bytes) (old : GossipAnnounce)
    → IsWellFormed e
    → old.payload ≡ []
    → (out : Bytes) × (r : ℕ) × (marshal e buf ≡ ok out)
      × (unmarshal (record { ga = old; header = e.header }) out
          ≡ ok (
            record e {
              ga = record {
                ttl = e.ga.ttl;
                reserved = r;
                data_type = e.ga.data_type;
                payload = e.ga.payload;
              };
            },
            calc_size e,
          ))
unmarshal_announce-marshal e buf old h clean =
    let (r, w) = marshal-bytes e buf h in (bytes e r, r, w, unmarshal-bytes e old r h clean)
