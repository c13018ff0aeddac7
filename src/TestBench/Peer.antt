-- ===== src/TestBench/Peer.antt =====
-- gossip/internal/testutils/peer.go: a module of the test bench, which accepts each notification.
--
-- The reader of the connection is a function of the bytes that arrive before the end of the stream,
-- on fuel, one for each round of its loop, which reads a byte or more but for the last. `front` are
-- the first four bytes of the array behind its buffer. Writing to the connection succeeds, and it
-- is closed by the other side.
pub mod Answers
pub mod Examples
use whisper2peer.Base.{
  ℕ, zero, suc, Bool, true, false, List, [], ◌∷◌, ◌++◌, Bytes, ok, err, panics, length, take, drop,
  ltb, ◌==◌, not, if◌then◌else◌,
}
use whisper2peer.Messages.{GossipNotification, GossipValidation, set_valid}
use whisper2peer.Vertical.{
  Result, MessageHeader, header_size, unmarshal_header, recalc_size, notification_type,
  validation_type,
}
use whisper2peer.Vertical.Notification
use whisper2peer.Vertical.Validation
use whisper2peer.VerticalApi.{End, closed, crashed, running}

-- What one round does: it answers with some bytes, with the notification that `gn` holds then, it
-- goes on without, it ends, or it panics.
pub data Round : Type 0 where
  answers : Bytes → GossipNotification → Bytes → Round
  passes : Bytes → Round
  ends crashes : Round

-- The validation of a message.
abbrev pub validation_packet : ℕ → Validation.Packet
validation_packet id =
    let gv = set_valid (record { message_id = id; bitfield = 0; valid = false }) true in
    let header : MessageHeader = record { size = 0; type = validation_type } in
    record {
      gv = gv;
      header = recalc_size header (Validation.calc_size (record { gv = gv; header = header }));
    }

-- `SendMsg`: an error of `Marshal` ends the loop.
abbrev pub send_msg : GossipNotification → Bytes → Result Bytes → Round
send_msg gn rest (ok out) = answers out gn rest
send_msg gn rest (err e) = ends
send_msg gn rest panics = crashes

-- A notification that cannot be unmarshalled is printed.
abbrev pub answer : Bytes → Result (Notification.Packet × ℕ) → Round
answer rest (ok (e, _)) =
    send_msg e.gn rest (Validation.marshal (validation_packet e.gn.message_id) [])
answer rest (err e) = passes rest
answer rest panics = crashes

-- The read of the body, where `n` bytes of the header were read; an error of it takes all that is
-- left.
pub mark_body : MessageHeader → ℕ → GossipNotification → Bytes → Round
mark_body header n gn input =
    if ltb header.size n
    then crashes
    else if ltb (length input) header.size
    then passes []
    else if not (header.type == notification_type)
    then passes (drop header.size input)
    else answer (drop header.size input)
        (Notification.unmarshal (record { gn = gn; header = header }) (take header.size input))

-- One round, where there is a byte to read.
unfoldable pub mark_round : Bytes → GossipNotification → Bytes → Round
unfolding mark_body
mark_round front gn input =
    let n = length (take header_size input) in
    elim (unmarshal_header front) [
      | ok (header, _) ↦ mark_body header n gn input
      | err e ↦ passes (drop header_size input)
      | panics ↦ crashes
    ]

-- The bytes at the front of the buffer behind the read of a header.
abbrev pub overwritten : Bytes → Bytes → Bytes
overwritten front input = let start = take header_size input in start ++ drop (length start) front

unfoldable pub mark_all_valid : ℕ → Bytes → GossipNotification → Bytes → Bytes × End
unfolding mark_round
mark_all_valid fuel front gn [] = ([], closed)
mark_all_valid zero front gn (b ∷ input) = ([], running)
mark_all_valid (suc fuel) front gn (b ∷ input) =
    let front' = overwritten front (b ∷ input) in
    elim (mark_round front' gn (b ∷ input)) [
      | answers out gn' rest ↦ let r = mark_all_valid fuel front' gn' rest in (out ++ r.0, r.1)
      | passes rest ↦ mark_all_valid fuel front' gn rest
      | ends ↦ ([], closed)
      | crashes ↦ ([], crashed)
    ]
