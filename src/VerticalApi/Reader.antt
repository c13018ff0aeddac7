-- ===== src/VerticalApi/Reader.antt =====
-- What `handleConnection` of verticalApi.go makes of a stream of packets, and what makes it panic.
use whisper2peer.Base.{
  ℕ, zero, suc, ◌+◌, ◌*◌, ◌/◌, ◌%◌, ◌≡◌, ◌≤◌, ◌<◌, refl, ap, ◌∙◌, List, [], ◌∷◌, ◌++◌, map, Bytes,
  be16, length, drop, length-append, take-length_append, drop-length_append, le→ltb, arith,
}
use whisper2peer.Messages.{Module, FromVert}
use whisper2peer.Vertical.{MessageHeader, unmarshal_header}
use whisper2peer.Vertical.Announce
use whisper2peer.Vertical.Notify
use whisper2peer.Vertical.Validation
use whisper2peer.VerticalApi.{
  sends, zero_announce, zero_notify, zero_validation, dispatch, read_body, read_round, closed,
  handle_connection,
}

-- A packet that a module may send, well formed, with the reserved bytes that it happens to have.
pub data Packet : Type 0 where
  announce : (e : Announce.Packet) → ℕ → Announce.IsWellFormed e → Packet
  notify : (e : Notify.Packet) → ℕ → ℕ → Notify.IsWellFormed e → Packet
  validation : (e : Validation.Packet) → Validation.IsWellFormed e → Packet

abbrev pub bytes : Packet → Bytes
bytes (announce e r h) = Announce.bytes e r
bytes (notify e r s h) = Notify.bytes e r s
bytes (validation e h) = Validation.bytes e

-- The message that the main component is to get.
abbrev pub message : Module → Packet → FromVert
message m (announce e r h) = FromVert.announce (record e.ga { reserved = r })
message m (notify e r s h) =
    FromVert.register (record { reserved = r * 256 + s; data_type = e.gn.data_type }) m
message m (validation e h) = FromVert.validation e.gv

-- The body of a packet is what its header counts.
read_body-append :
    (m : Module) (header : MessageHeader) (buf rest : Bytes)
    → header.size ≡ length buf
    → 4 ≤ length buf
    → read_body m header (buf ++ rest) ≡ dispatch m header buf rest
unfolding read_body
read_body-append m header buf rest e h =
    rw
      (
        e,
        le→ltb (length buf) 4 h,
        le→ltb (length (buf ++ rest)) (length buf) (omega (arith, length-append buf rest)),
        take-length_append buf rest,
        drop-length_append buf rest,
      )
      refl

read_round-header :
    (m : Module) (header : MessageHeader) (tail : Bytes)
    → header.size < 65536
    → header.type < 65536
    → let input = be16 header.size ++ be16 header.type ++ tail in
      read_round m input ≡ read_body m header input
unfolding read_round unmarshal_header
read_round-header m header tail p q =
    let size : header.size / 256 % 256 * 256 + header.size % 256 ≡ header.size = omega arith in
    let type : header.type / 256 % 256 * 256 + header.type % 256 ≡ header.type = omega arith in
    let input : Bytes = be16 header.size ++ be16 header.type ++ tail in
    rw (le→ltb (length input) 4 (omega arith), read_round)
      (ap (λ (h : MessageHeader). read_body m h input)
        (λ i. record { size = size i; type = type i }))

-- A stream that begins with a packet gives its message in one round.
pub read_round-bytes :
    (m : Module) (p : Packet) (rest : Bytes)
    → read_round m (bytes p ++ rest) ≡ sends (message m p) rest
unfolding dispatch
read_round-bytes m (announce e r h) rest =
    let buf : Bytes = Announce.bytes e r in
    read_round-header m e.header (drop 4 buf ++ rest) h.size_range (omega (arith, h.typed))
    ∙ read_body-append m e.header buf rest (omega (arith, h.sized)) (omega arith)
    ∙ ground (arith, h.typed, Announce.unmarshal-bytes e zero_announce r h)
read_round-bytes m (notify e r s h) rest =
    let buf : Bytes = Notify.bytes e r s in
    read_round-header m e.header (drop 4 buf ++ rest) (omega (arith, h.sized))
      (omega (arith, h.typed))
    ∙ read_body-append m e.header buf rest h.sized (omega arith)
    ∙ ground (arith, h.typed, Notify.unmarshal-bytes e zero_notify r s h)
read_round-bytes m (validation e h) rest =
    let buf : Bytes = Validation.bytes e in
    read_round-header m e.header (drop 4 buf ++ rest) (omega (arith, h.sized))
      (omega (arith, h.typed))
    ∙ read_body-append m e.header buf rest h.sized (omega arith)
    ∙ ground (arith, h.typed, Validation.unmarshal-bytes e zero_validation h)

abbrev pub stream : List Packet → Bytes
stream [] = []
stream (p ∷ ps) = bytes p ++ stream ps

-- The reader gives the main component the messages of a stream of packets, each once and in
-- order, and then unregisters the module; a round for each packet and one more suffice.
pub handle_connection-stream :
    (m : Module) (ps : List Packet) (fuel : ℕ)
    → length ps < fuel
    → handle_connection fuel m (stream ps)
      ≡ (map (message m) ps ++ FromVert.unregister m.id ∷ [], closed)
unfolding handle_connection read_round
handle_connection-stream m ps zero h = elim h [ ]
handle_connection-stream m [] (suc fuel) h = refl
handle_connection-stream m (p ∷ ps) (suc fuel) h =
    rw (read_round-bytes m p (stream ps), handle_connection)
      (rw (handle_connection-stream m ps fuel (omega arith)) refl)
