-- ===== src/VerticalApi/Examples.antt =====
-- Streams at concrete values, and the theorems there.
use whisper2peer.Base.{
  ℕ, ◌≡◌, ◌<◌, ◌≤◌, ◌↔◌, refl, List, [], ◌∷◌, ◌++◌, map, length, Bytes, true, arith, grown,
}
use whisper2peer.Messages.{Module, FromVert, GossipNotification}
use whisper2peer.Vertical.Announce
use whisper2peer.Vertical.Validation
use whisper2peer.Vertical.Notification
use whisper2peer.Vertical.{unmarshal_header, marshal_header}
use whisper2peer.VerticalApi.{
  read_round, crashes, closed, crashed, running, fails, handle_connection, handle_until,
  write_to_connection, notification_packet,
}
use whisper2peer.VerticalApi.Reader.{Packet, announce, validation, message, stream}
use whisper2peer.VerticalApi.Panics.{size_of, read_round-crashes_iff}
use whisper2peer.VerticalApi.Stopping.{handle_until-running_iff}
use whisper2peer.VerticalApi.Buffers.{
  ReadBuffer, new_buffer, after_read, HeldMessage, view, read_all,
}
use whisper2peer.VerticalApi.Buffers.Views.{read_all-stream}
use whisper2peer.VerticalApi.Writer.{notification_packet-size_iff}

program : Unit {0}
unfolding read_round handle_connection write_to_connection unmarshal_header marshal_header grown
    Announce.unmarshal Validation.unmarshal Notification.marshal
program = tt

abbrev client : Module
client = record { id = 5 ∷ []; chan = 1 }

abbrev announced : Announce.Packet
announced = record {
  ga = record { ttl = 3; reserved = 0; data_type = 258; payload = 7 ∷ 8 ∷ [] };
  header = record { size = 10; type = 500 };
}

abbrev validated : Validation.Packet
validated = record {
  gv = record { message_id = 5; bitfield = 3; valid = true };
  header = record { size = 8; type = 503 };
}

abbrev packets : List Packet
packets =
    announce announced 0 (omega arith)
    ∷ validation validated (record {
      typed = refl;
      sized = refl;
      message_id_range = omega arith;
      bitfield_range = omega arith;
      flagged = refl;
    })
    ∷ []

abbrev truncated : Bytes
truncated = 0 ∷ 8 ∷ 1 ∷ 247 ∷ 0 ∷ 5 ∷ []

truncated_read : handle_connection 9 client truncated ≡ (FromVert.unregister (5 ∷ []) ∷ [], closed)
unfolding program
truncated_read = refl

-- A header that counts three bytes takes the node down.
small_size_read :
    handle_connection 9 client (0 ∷ 3 ∷ 1 ∷ 244 ∷ []) ≡ (FromVert.unregister (5 ∷ []) ∷ [], crashed)
unfolding program
small_size_read = refl

-- New arrays are as long as they have to be.
abbrev exactly : ℕ → ℕ → ℕ
exactly cap size = size

read_all-stream_example :
    map (λ r. view (r.1).arrays r.0) (read_all exactly 3 client new_buffer (stream packets))
    ≡ map (message client) packets ++ FromVert.unregister (5 ∷ []) ∷ []
read_all-stream_example = read_all-stream exactly client packets 3 new_buffer (omega arith)

-- A second announcement, and what the first one shows behind it.
abbrev second : Announce.Packet
second = record announced { ga = record announced.ga { payload = 1 ∷ 2 ∷ [] } }

abbrev both : Bytes
both = Announce.bytes announced 0 ++ Announce.bytes second 0

abbrev payload_of : FromVert → Bytes
payload_of (FromVert.announce x) = x.payload
payload_of x = []

-- What the first message shows with the buffers of each moment at which one is sent.
abbrev first_seen : List (HeldMessage × ReadBuffer) → List Bytes
first_seen [] = []
first_seen (first ∷ rs) = map (λ r. payload_of (view (r.1).arrays first.0)) (first ∷ rs)

shown :
    first_seen (read_all exactly 3 client new_buffer both)
    ≡ (7 ∷ 8 ∷ []) ∷ (1 ∷ 2 ∷ []) ∷ (1 ∷ 2 ∷ []) ∷ []
unfolding program read_all after_read
shown = refl

handle_until-running_iff_example :
    ((handle_until fails 7 client truncated).1 ≡ running)
    ↔ ((fails ≡ fails) × ((handle_connection 7 client truncated).1 ≡ closed))
handle_until-running_iff_example = handle_until-running_iff fails 7 client truncated (omega arith)

read_round-crashes_iff_example : (read_round client truncated ≡ crashes) ↔ (
    (a : ℕ) × (b : ℕ) × (rest : Bytes) × (truncated ≡ a ∷ b ∷ rest)
    × (2 ≤ length rest)
    × (size_of a b < 4))
read_round-crashes_iff_example = read_round-crashes_iff client truncated

abbrev notes : List GossipNotification
notes =
    record { message_id = 5; data_type = 258; payload = 7 ∷ 8 ∷ 9 ∷ [] }
    ∷ record { message_id = 6; data_type = 258; payload = 1 ∷ [] }
    ∷ []

abbrev note : GossipNotification
note = record { message_id = 6; data_type = 258; payload = 1 ∷ [] }

notification_packet-size_iff_example :
    ((notification_packet note).header.size
      ≡ length (Notification.bytes (notification_packet note)))
    ↔ (length note.payload < 65528)
notification_packet-size_iff_example = notification_packet-size_iff note
