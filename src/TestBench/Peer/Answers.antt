-- ===== src/TestBench/Peer/Answers.antt =====
-- Which notifications a module of the test bench accepts.
use whisper2peer.Base.{
  ℕ, zero, suc, ◌+◌, ◌*◌, ◌/◌, ◌%◌, ◌≡◌, ◌≤◌, ◌<◌, refl, ap, sym, ◌∙◌, Bool, true, false, List, [],
  ◌∷◌, ◌++◌, map, Bytes, ok, err, panics, length, drop, length-append, take-length_append,
  drop-length_append, le→ltb, leb, if◌then◌else◌, arith, All,
}
use whisper2peer.Messages.{Module, FromVert, GossipNotification, GossipValidation, set_valid}
use whisper2peer.Vertical.{MessageHeader, unmarshal_header}
use whisper2peer.Vertical.Notification
use whisper2peer.Vertical.Validation
use whisper2peer.VerticalApi.{
  notification_packet, write_to_connection, End, closed, crashed, handle_connection,
}
use whisper2peer.VerticalApi.Writer.{encoded, write_to_connection-encoded}
use whisper2peer.VerticalApi.Reader.{Packet, validation, message, stream, handle_connection-stream}
use whisper2peer.TestBench.Peer.{
  Round, answers, passes, ends, crashes, validation_packet, send_msg, answer, mark_body, mark_round,
  overwritten, mark_all_valid,
}

-- A notification that fits a packet.
pub record Fits (msg : GossipNotification) : Type 0 where
  pub id_range : msg.message_id < 65536
  pub type_range : msg.data_type < 65536
  pub short : length msg.payload < 65528

-- The notifications that are at least as long as the last one that was kept.
unfoldable pub no_shorter : ℕ → List GossipNotification → List GossipNotification
no_shorter longest [] = []
no_shorter longest (msg ∷ msgs) =
    let kept = no_shorter (length msg.payload) msgs in
    let others = no_shorter longest msgs in
    if leb longest (length msg.payload) then msg ∷ kept else others

notification_packet-IsWellFormed :
    (msg : GossipNotification) → Fits msg → Notification.IsWellFormed (notification_packet msg)
notification_packet-IsWellFormed msg h = record {
  typed = refl;
  sized = omega (arith, h.short);
  message_id_range = h.id_range;
  data_type_range = h.type_range;
  size_range = omega (arith, h.short);
}

validation_packet-IsWellFormed :
    (id : ℕ) → id < 65536 → Validation.IsWellFormed (validation_packet id)
unfolding set_valid
validation_packet-IsWellFormed id h = record {
  typed = refl;
  sized = refl;
  message_id_range = h;
  bitfield_range = omega arith;
  flagged = refl;
}

-- The validation that is to arrive.
abbrev pub accepting : ℕ → GossipValidation
accepting id = record { message_id = id; bitfield = 1; valid = true }

-- The body of a packet is what its header counts.
mark_body-append :
    (header : MessageHeader) (gn : GossipNotification) (buf rest : Bytes)
    → header.size ≡ length buf
    → 4 ≤ length buf
    → header.type ≡ 502
    → mark_body header 4 gn (buf ++ rest)
      ≡ answer rest (Notification.unmarshal (record { gn = gn; header = header }) buf)
unfolding mark_body Notification.unmarshal
mark_body-append header gn buf rest e h t =
    rw
      (
        e,
        t,
        le→ltb (length buf) 4 h,
        le→ltb (length (buf ++ rest)) (length buf) (omega (arith, length-append buf rest)),
        take-length_append buf rest,
        drop-length_append buf rest,
      )
      refl

-- The header that is read in front of a packet.
header-overwritten :
    (msg : GossipNotification) (front rest : Bytes)
    → let e = notification_packet msg in
      unmarshal_header (overwritten front (Notification.bytes e ++ rest)) ≡ ok (e.header, 4)
unfolding unmarshal_header
header-overwritten msg front rest =
    let n : ℕ = (8 + length msg.payload) % 65536 in
    let size : n / 256 % 256 * 256 + n % 256 ≡ n = omega arith in
    let long : 4 ≤ suc (suc (suc (suc (length (drop 4 front))))) = omega arith in
    rw (le→ltb (suc (suc (suc (suc (length (drop 4 front)))))) 4 long)
      (ap (λ (m : ℕ). ok (record { size = m; type = 502 }, 4)) size)

mark_round-bytes :
    (msg gn : GossipNotification) (front rest : Bytes)
    → Fits msg
    → let e = notification_packet msg in
      mark_round
        (overwritten front (Notification.bytes e ++ rest))
        gn
        (Notification.bytes e ++ rest)
      ≡ answer rest
          (Notification.unmarshal (record { gn = gn; header = e.header }) (Notification.bytes e))
unfolding mark_round
mark_round-bytes msg gn front rest h =
    let e = notification_packet msg in
    let input : Bytes = Notification.bytes e ++ rest in
    ap
      (λ r. elim r as (λ _. Round) [
        | ok (header, _) ↦ mark_body header 4 gn input
        | err x ↦ passes (drop 4 input)
        | panics ↦ crashes
      ])
      (header-overwritten msg front rest)
    ∙ mark_body-append e.header gn (Notification.bytes e) rest (omega (arith, h.short))
        (omega arith) refl

-- The answer to a notification.
answer-bytes :
    (msg gn : GossipNotification) (rest : Bytes) (kept : Bool)
    → Fits msg
    → leb (length gn.payload) (length msg.payload) ≡ kept
    → let e = notification_packet msg in
      answer rest
        (Notification.unmarshal (record { gn = gn; header = e.header }) (Notification.bytes e))
      ≡ (if kept
          then answers (Validation.bytes (validation_packet msg.message_id)) msg rest
          else passes rest)
answer-bytes msg gn rest true h k =
    ap (answer rest) (
      Notification.unmarshal-bytes (notification_packet msg) gn
        (notification_packet-IsWellFormed msg h) (ground (arith, k)))
    ∙ ap (send_msg msg rest) (
        Validation.marshal-bytes (validation_packet msg.message_id) []
          (validation_packet-IsWellFormed msg.message_id h.id_range))
answer-bytes msg gn rest false h k = ap (answer rest) (
    Notification.unmarshal-bytes_shorter (notification_packet msg) gn
      (notification_packet-IsWellFormed msg h) (ground (arith, k)))

-- The bytes that accept some messages.
abbrev answered : List GossipNotification → Bytes
answered [] = []
answered (msg ∷ msgs) = Validation.bytes (validation_packet msg.message_id) ++ answered msgs

-- The rounds behind one.
abbrev continued : ℕ → Bytes → GossipNotification → Round → Bytes × End
continued fuel front gn round = elim round [
  | answers out gn' rest ↦ let r = mark_all_valid fuel front gn' rest in (out ++ r.0, r.1)
  | passes rest ↦ mark_all_valid fuel front gn rest
  | ends ↦ ([], closed)
  | crashes ↦ ([], crashed)
]

-- What the module answers to the notifications that the vertical API writes.
mark_all_valid-encoded :
    (fuel : ℕ) (front : Bytes) (gn : GossipNotification) (msgs : List GossipNotification)
    → All Fits msgs
    → length msgs < fuel
    → mark_all_valid fuel front gn (encoded msgs)
      ≡ (answered (no_shorter (length gn.payload) msgs), closed)
unfolding mark_all_valid no_shorter
mark_all_valid-encoded zero front gn msgs h f = absurd (omega (arith, f))
mark_all_valid-encoded (suc fuel) front gn [] h f = refl
mark_all_valid-encoded (suc fuel) front gn (msg ∷ msgs) h f =
    let e = notification_packet msg in
    let rest : Bytes = encoded msgs in
    let front' : Bytes = overwritten front (Notification.bytes e ++ rest) in
    let kept = leb (length gn.payload) (length msg.payload) in
    let taken = mark_all_valid-encoded fuel front' msg msgs h.1 (omega (arith, f)) in
    let left = mark_all_valid-encoded fuel front' gn msgs h.1 (omega (arith, f)) in
    let out : Bytes = Validation.bytes (validation_packet msg.message_id) in
    ap (continued fuel front' gn)
      (mark_round-bytes msg gn front rest (h.0) ∙ answer-bytes msg gn rest kept h.0 refl)
    ∙ elim kept
        as (λ b. continued fuel front' gn (if b then answers out msg rest else passes rest) ≡ (
          answered (
              if b
              then msg ∷ no_shorter (length msg.payload) msgs
              else no_shorter (length gn.payload) msgs),
          closed,
        )) [ true ↦ ap (λ r. (out ++ r.0, r.1)) taken | false ↦ left ]

no_shorter-Fits :
    (longest : ℕ) (msgs : List GossipNotification)
    → All Fits msgs
    → All Fits (no_shorter longest msgs)
unfolding no_shorter
no_shorter-Fits longest [] h = tt
no_shorter-Fits longest (msg ∷ msgs) h =
    elim (leb longest (length msg.payload))
      as (λ b.
        All Fits
          (if b then msg ∷ no_shorter (length msg.payload) msgs else no_shorter longest msgs)) [
            | true ↦ (h.0, no_shorter-Fits (length msg.payload) msgs h.1)
            | false ↦ no_shorter-Fits longest msgs h.1
          ]

-- The answers as packets for the reader of the vertical API.
abbrev validations : (msgs : List GossipNotification) → All Fits msgs → List Packet
validations [] h = []
validations (msg ∷ msgs) h =
    validation (validation_packet msg.message_id)
      (validation_packet-IsWellFormed msg.message_id (h.0).id_range)
    ∷ validations msgs h.1

stream-validations :
    (msgs : List GossipNotification) (h : All Fits msgs)
    → stream (validations msgs h) ≡ answered msgs
stream-validations [] h = refl
stream-validations (msg ∷ msgs) h =
    ap (λ (b : Bytes). Validation.bytes (validation_packet msg.message_id) ++ b)
      (stream-validations msgs h.1)

length-validations :
    (msgs : List GossipNotification) (h : All Fits msgs) → length (validations msgs h) ≡ length msgs
length-validations [] h = refl
length-validations (msg ∷ msgs) h = ap suc (length-validations msgs h.1)

message-validations :
    (m : Module) (msgs : List GossipNotification) (h : All Fits msgs)
    → map (message m) (validations msgs h)
      ≡ map (λ msg. FromVert.validation (accepting msg.message_id)) msgs
unfolding set_valid
message-validations m [] h = refl
message-validations m (msg ∷ msgs) h =
    ap (λ l. FromVert.validation (accepting msg.message_id) ∷ l) (message-validations m msgs h.1)

-- A module of the test bench that reads what the vertical API writes to it for some notifications
-- that fit their packets answers, on a round for each and one more, with packets from which the
-- reader of the vertical API makes a validation of each notification, in order, whose payload is no
-- shorter than that of the one accepted before it; the others are not accepted.
pub handle_connection-mark_all_valid :
    (m : Module) (front buf : Bytes) (gn : GossipNotification) (msgs : List GossipNotification)
    → All Fits msgs
    → let kept = no_shorter (length gn.payload) msgs in
      handle_connection
        (suc (length kept))
        m
        (mark_all_valid (suc (length msgs)) front gn (write_to_connection buf msgs)).0
      ≡ (
        map (λ msg. FromVert.validation (accepting msg.message_id)) kept
            ++ FromVert.unregister m.id ∷ [],
        closed,
      )
handle_connection-mark_all_valid m front buf gn msgs h =
    let kept = no_shorter (length gn.payload) msgs in
    let fits = no_shorter-Fits (length gn.payload) msgs h in
    let ps = validations kept fits in
    let read = mark_all_valid-encoded (suc (length msgs)) front gn msgs h (omega arith) in
    let enough : length ps < suc (length kept) = omega (arith, length-validations kept fits) in
    ap
      (λ (b : Bytes).
        handle_connection (suc (length kept)) m (mark_all_valid (suc (length msgs)) front gn b).0)
      (write_to_connection-encoded buf msgs)
    ∙ ap (λ (r : Bytes × End). handle_connection (suc (length kept)) m r.0) read
    ∙ ap (handle_connection (suc (length kept)) m) (sym (stream-validations kept fits))
    ∙ handle_connection-stream m ps (suc (length kept)) enough
    ∙ ap (λ l. (l ++ FromVert.unregister m.id ∷ [], closed)) (message-validations m kept fits)
