-- ===== src/VerticalApi/Writer.antt =====
-- What `writeToConnection` of verticalApi.go sends.
use whisper2peer.Base.{◌≡◌, ◌↔◌, ◌<◌, refl, ap, List, [], ◌∷◌, ◌++◌, Bytes, length, drop, arith}
use whisper2peer.Messages.{GossipNotification}
use whisper2peer.Vertical.Notification
use whisper2peer.VerticalApi.{notification_packet, write_to_connection}

abbrev pub encoded : List GossipNotification → Bytes
encoded [] = []
encoded (msg ∷ msgs) = Notification.bytes (notification_packet msg) ++ encoded msgs

-- The bytes written are those of the notifications, in order, whatever the buffer held before and
-- though it is used again for each.
pub write_to_connection-encoded :
    (buf : Bytes) (msgs : List GossipNotification) → write_to_connection buf msgs ≡ encoded msgs
unfolding write_to_connection
write_to_connection-encoded buf [] = refl
write_to_connection-encoded buf (msg ∷ msgs) =
    let out : Bytes = Notification.bytes (notification_packet msg) in
    rw (Notification.marshal-bytes (notification_packet msg) buf refl, write_to_connection)
      (ap (◌++◌ out) (write_to_connection-encoded (out ++ drop (length out) buf) msgs))

-- The size in the header of a notification is the size of the packet exactly where the payload has
-- fewer than 65528 bytes: a longer one wraps the 16-bit size.
pub notification_packet-size_iff :
    (msg : GossipNotification)
    → let e = notification_packet msg in
      (e.header.size ≡ length (Notification.bytes e)) ↔ (length msg.payload < 65528)
notification_packet-size_iff msg = (λ h. omega arith, λ h. omega arith)
