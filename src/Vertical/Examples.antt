-- ===== src/Vertical/Examples.antt =====
-- Packets at concrete values.
use whisper2peer.Base.{ℕ, ◌≡◌, refl, [], ◌∷◌, Bytes, ok, err, true, false, arith, grown}
use whisper2peer.Messages.{GossipAnnounce, GossipNotification, GossipValidation}
use whisper2peer.Vertical.{not_enough_data, unmarshal_header, marshal_header}
use whisper2peer.Vertical.Announce
use whisper2peer.Vertical.Notification
use whisper2peer.Vertical.Validation

program : Unit {0}
unfolding unmarshal_header marshal_header Announce.unmarshal Announce.marshal Notification.unmarshal
    Notification.marshal Validation.unmarshal Validation.marshal grown
program = tt

abbrev announced : Announce.Packet
announced = record {
  ga = record { ttl = 3; reserved = 0; data_type = 258; payload = 7 ∷ 8 ∷ [] };
  header = record { size = 10; type = 500 };
}

abbrev empty_announce : GossipAnnounce
empty_announce = record { ttl = 0; reserved = 0; data_type = 0; payload = [] }

-- A buffer that was used before: its sixth byte comes out as the reserved byte.
announce_marshalled :
    Announce.marshal announced (9 ∷ 9 ∷ 9 ∷ 9 ∷ 9 ∷ 9 ∷ 9 ∷ [])
    ≡ ok (0 ∷ 10 ∷ 1 ∷ 244 ∷ 3 ∷ 9 ∷ 1 ∷ 2 ∷ 7 ∷ 8 ∷ [])
unfolding program
announce_marshalled = refl

announce_short : Announce.unmarshal announced (0 ∷ 10 ∷ 1 ∷ 244 ∷ []) ≡ err not_enough_data
unfolding program
announce_short = refl

announced-IsWellFormed : Announce.IsWellFormed announced
announced-IsWellFormed = omega arith

announce_round_trip :
    (out : Bytes) × (r : ℕ) × (Announce.marshal announced [] ≡ ok out)
    × (Announce.unmarshal (record { ga = empty_announce; header = announced.header }) out
        ≡ ok (
          record announced {
            ga = record { ttl = 3; reserved = r; data_type = 258; payload = 7 ∷ 8 ∷ [] };
          },
          10,
        ))
announce_round_trip =
    Announce.unmarshal_announce-marshal announced [] empty_announce announced-IsWellFormed refl

abbrev notified : Notification.Packet
notified = record {
  gn = record { message_id = 5; data_type = 258; payload = 7 ∷ [] };
  header = record { size = 9; type = 502 };
}

abbrev empty_notification : GossipNotification
empty_notification = record { message_id = 0; data_type = 0; payload = [] }

abbrev validated : Validation.Packet
validated = record {
  gv = record { message_id = 5; bitfield = 3; valid = true };
  header = record { size = 8; type = 503 };
}

abbrev empty_validation : GossipValidation
empty_validation = record { message_id = 0; bitfield = 0; valid = false }
