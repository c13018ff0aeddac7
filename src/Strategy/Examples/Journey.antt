-- ===== src/Strategy/Examples/Journey.antt =====
-- An announced message on its way to a peer.
use whisper2peer.Base.{◌≡◌, refl, false, [], ◌∷◌, ◌++◌, map, ℕ, All, arith}
use whisper2peer.Connections.{new_connection_manager, permuted_valid}
use whisper2peer.Cookie.Examples.{plain, last_in_front}
use whisper2peer.HorizontalApi.{FromHz}
use whisper2peer.HorizontalApi.Objects.{objects}
use whisper2peer.HorizontalApi.Transmit.{Sent, delivered, write_to_connection}
use whisper2peer.HorizontalApi.Receive.{handle_connection}
use whisper2peer.HorizontalApi.RoundTrip.{arrival, decoded, reaching}
use whisper2peer.Strategy.Policy.{Sends}
use whisper2peer.Strategy.Vetted.{AllowedPush, listen-Vetted}
use whisper2peer.Strategy.Wired.{TypedEvent, for_channel, with_fates, listen-handle_connection}
use whisper2peer.Strategy.Examples.{program, after, visitor_peer, visitor_id, events, ticked, ran}
use whisper2peer.Ringbuffer.Valid.{IsValid, elements}

listen-Vetted_example : All (Sends (AllowedPush events)) (ticked.1 ++ [])
listen-Vetted_example =
    listen-Vetted plain last_in_front (new_connection_manager []) 4 2 events ticked.0
      (ticked.1 ++ []) ran

typed : All TypedEvent events
typed = (tt, (tt, ((omega arith, omega arith), (tt, tt))))

abbrev fates : ℕ → Sent
fates i = delivered

listen-handle_connection_example :
    handle_connection objects visitor_id (
      decoded objects
        (write_to_connection objects (with_fates fates (for_channel 20 (ticked.1 ++ [])))))
    ≡ (
      map
            (arrival visitor_id)
            (reaching objects (with_fates fates (for_channel 20 (ticked.1 ++ []))))
          ++ FromHz.unregister visitor_id ∷ [],
      false,
    )
listen-handle_connection_example =
    listen-handle_connection objects plain last_in_front (new_connection_manager []) 4 2 events
      ticked.0 (ticked.1 ++ []) 20 fates visitor_id typed ran

-- No message waits to be relayed.
pub idle-IsValid : IsValid after.valid_messages
unfolding program
idle-IsValid = record { sized = refl; bounded = omega arith; roomy = omega arith }

pub idle : elements after.valid_messages ≡ []
unfolding program
idle = refl

-- The peer that is drawn at a tick.
pub one_peer : permuted_valid after.manager (0 ∷ []) after.degree ≡ visitor_peer ∷ []
unfolding program permuted_valid
one_peer = refl
