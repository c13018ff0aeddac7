-- ===== src/VerticalApi.antt =====
-- gossip/verticalAPI/verticalApi.go: the reader and the writer of one connection to a module.
--
-- The reader is a function of the bytes that arrive. `handle_connection` is for the bytes before the
-- end of the stream: a short read is then `io.EOF` or `io.ErrUnexpectedEOF`; the loop logs the second
-- and meets the first in its next round, so both end it. `handle_until` has the other errors as well.
-- A message is given as it is when it is sent: the payload of an announcement is a slice of the
-- buffer of the reader, which Buffers has, and is written to by later packets. The table of
-- connections, with `Listen` and `Close`, is in ConnTable. Each round takes four bytes or more, which
-- is what the fuel counts.
pub mod Reader
pub mod Panics
pub mod Stopping
pub mod Buffers
pub mod Writer
pub mod Examples
use whisper2peer.Base.{
  ℕ, zero, suc, ◌+◌, ◌%◌, Bool, false, Option, List, [], ◌∷◌, ◌++◌, Bytes, Outcome, ok, err, panics,
  length, take, drop, ltb, ◌==◌, if◌then◌else◌,
}
use whisper2peer.Messages.{
  Module, FromVert, GossipAnnounce, GossipNotification, GossipNotify, GossipValidation,
}
use whisper2peer.Vertical.{
  Error, Result, MessageHeader, header_size, unmarshal_header, recalc_size, announce_type,
  notify_type, notification_type, validation_type,
}
use whisper2peer.Vertical.Announce
use whisper2peer.Vertical.Notification
use whisper2peer.Vertical.Notify
use whisper2peer.Vertical.Validation

-- What one round of the reader's loop does: it sends a message to the main component or goes on
-- without, it ends, or it panics. `rest` are the bytes still to come.
pub data Round : Type 0 where
  sends : FromVert → Bytes → Round
  skips : Bytes → Round
  ends : Round
  crashes : Round

-- A packet that cannot be unmarshalled is logged.
abbrev pub sent : {P : Type 0} → (P → FromVert) → Result (P × ℕ) → Bytes → Round
sent f (ok (p, _)) rest = sends (f p) rest
sent f (err e) rest = skips rest
sent f panics rest = crashes

-- The zero values of the packets' structs.
abbrev pub zero_announce : GossipAnnounce
zero_announce = record { ttl = 0; reserved = 0; data_type = 0; payload = [] }

abbrev pub zero_notify : GossipNotify
zero_notify = record { reserved = 0; data_type = 0 }

abbrev pub zero_validation : GossipValidation
zero_validation = record { message_id = 0; bitfield = 0; valid = false }

-- The `switch` on the type, for the whole packet in `buf`, with a message as it is when it is sent.
pub dispatch : Module → MessageHeader → Bytes → Bytes → Round
dispatch m header buf rest =
    if header.type == announce_type
    then sent (λ e. FromVert.announce e.ga)
        (Announce.unmarshal (record { ga = zero_announce; header = header }) buf) rest
    else if header.type == notify_type
    then sent (λ e. FromVert.register e.gn m)
        (Notify.unmarshal (record { gn = zero_notify; header = header }) buf) rest
    else if header.type == validation_type
    then sent (λ e. FromVert.validation e.gv)
        (Validation.unmarshal (record { gv = zero_validation; header = header }) buf) rest
    else skips rest

-- The read of the body: `slices.Grow` panics on the negative number that a size below four gives.
pub read_body : Module → MessageHeader → Bytes → Round
unfolding dispatch
read_body m header input =
    if ltb header.size header_size
    then crashes
    else if ltb (length input) header.size
    then ends
    else dispatch m header (take header.size input) (drop header.size input)

-- One round of the loop of `handleConnection`.
unfoldable pub read_round : Module → Bytes → Round
unfolding read_body
read_round m input =
    if ltb (length input) header_size
    then ends
    else elim (unmarshal_header (take header_size input)) [
      | ok (header, _) ↦ read_body m header input
      | err e ↦ skips (drop header_size input)
      | panics ↦ crashes
    ]

pub data End : Type 0 where
  closed crashed running : End

-- `handleConnection`: the messages sent to the main component, and how it ended. The deferred
-- calls, of which one unregisters the module, run at a panic too. `running` says that the fuel
-- ran out.
unfoldable pub handle_connection : ℕ → Module → Bytes → List FromVert × End
unfolding read_round
handle_connection zero m input = ([], running)
handle_connection (suc fuel) m input = elim (read_round m input) [
  | sends x rest ↦ let (xs, end) = handle_connection fuel m rest in (x ∷ xs, end)
  | skips rest ↦ handle_connection fuel m rest
  | ends ↦ (FromVert.unregister m.id ∷ [], closed)
  | crashes ↦ (FromVert.unregister m.id ∷ [], crashed)
]

-- What each read gives behind the bytes that arrive: `io.EOF`, an error when the context of the
-- connection is done, or another error, as for a connection that was reset.
pub data Stop : Type 0 where
  eof cancelled fails : Stop

-- An error that is neither `io.EOF` nor met with the context done is logged, and the loop goes on.
abbrev pub at_stop : Stop → Module → List FromVert × End → List FromVert × End
at_stop eof m again = (FromVert.unregister m.id ∷ [], closed)
at_stop cancelled m again = (FromVert.unregister m.id ∷ [], closed)
at_stop fails m again = again

-- `handleConnection` for each way in which the bytes may stop.
unfoldable pub handle_until : Stop → ℕ → Module → Bytes → List FromVert × End
unfolding read_round
handle_until stop zero m input = ([], running)
handle_until stop (suc fuel) m input =
    let again = handle_until stop fuel m [] in
    elim (read_round m input) [
      | sends x rest ↦ let (xs, end) = handle_until stop fuel m rest in (x ∷ xs, end)
      | skips rest ↦ handle_until stop fuel m rest
      | ends ↦ at_stop stop m again
      | crashes ↦ (FromVert.unregister m.id ∷ [], crashed)
    ]

-- The packet that `writeToConnection` makes of a notification.
abbrev pub notification_packet : GossipNotification → Notification.Packet
notification_packet msg =
    let header : MessageHeader = record { size = 0; type = notification_type } in
    let size = Notification.calc_size (record { gn = msg; header = header }) in
    record { gn = msg; header = recalc_size header size }

-- The bytes that `writeToConnection` writes for the notifications that it is sent. `buf` is the
-- array behind its buffer, of which a packet overwrites the front. Writing to the connection
-- succeeds.
unfoldable pub write_to_connection : Bytes → List GossipNotification → Bytes
write_to_connection buf [] = []
write_to_connection buf (msg ∷ msgs) = elim (Notification.marshal (notification_packet msg) buf) [
  | ok out ↦ out ++ write_to_connection (out ++ drop (length out) buf) msgs
  | err e ↦ write_to_connection buf msgs
  | panics ↦ []
]
