-- ===== src/Network/Examples.antt =====
-- A module announces two bytes, and a module of the neighbour reads them.
use whisper2peer.Base.{ℕ, ◌≡◌, refl, ap, ◌∙◌, none, some, List, [], ◌∷◌, arith}
use whisper2peer.Messages.{Module}
use whisper2peer.Main.{NotifyMap, load}
use whisper2peer.Vertical.Announce
use whisper2peer.Vertical.Notification
use whisper2peer.VerticalApi
use whisper2peer.VerticalApi.{notification_packet}
use whisper2peer.Cookie.Examples.{plain, last_in_front}
use whisper2peer.HorizontalApi.{ToHz}
use whisper2peer.HorizontalApi.Objects.{objects, empty, read_data, put, with_ref}
use whisper2peer.HorizontalApi.Transmit.{create_message}
use whisper2peer.Strategy.{convert_announce_to_push}
use whisper2peer.Strategy.Examples.{visitor_peer, after, valid_after, unknown}
use whisper2peer.Strategy.Examples.Journey.{idle, idle-IsValid, one_peer}
use whisper2peer.Network.{sends, carries, hears, tells}
use whisper2peer.Network.Leaving.{drawn}
use whisper2peer.Network.Arriving.{listed}
use whisper2peer.Network.Delivery.{write_to_connection-sends}

abbrev announced : Announce.Packet
announced = record {
  ga = record { ttl = 3; reserved = 0; data_type = 5; payload = 8 ∷ 9 ∷ [] };
  header = record { size = 10; type = 500 };
}

abbrev writer : Module
writer = record { id = 1 ∷ []; chan = 1 }

abbrev reader : Module
reader = record { id = 3 ∷ []; chan = 3 }

abbrev registered : NotifyMap
registered = (5, reader ∷ []) ∷ []

-- The permutations and the ids that are drawn.
abbrev perms : ℕ → List ℕ
perms i = 0 ∷ []

abbrev ids : ℕ → ℕ
ids i = 77

abbrev root : objects.Struct
unfolding objects
root = elim (create_message objects (ToHz.push (convert_announce_to_push 77 announced.ga))) [
  | none ↦ empty 8
  | some r ↦ r
]

made : create_message objects (ToHz.push (convert_announce_to_push 77 announced.ga)) ≡ some root
unfolding objects create_message read_data with_ref put convert_announce_to_push
made = refl

registered_here : load registered 5 ≡ reader ∷ []
unfolding load
registered_here = refl

drawn_once : drawn 20 (visitor_peer ∷ []) ≡ 1
unfolding drawn
drawn_once = refl

listed_once : listed 3 (load registered 5) ≡ 1
unfolding load listed
listed_once = refl

write_to_connection-sends_example :
    VerticalApi.write_to_connection [] (
      tells registered 3 (
        hears plain last_in_front [] 400 after (
          carries objects
            (2 ∷ [])
            (sends 2 registered after writer ids perms 20 (Announce.bytes announced 0)))))
    ≡ Notification.bytes
        (notification_packet (record { message_id = 77; data_type = 5; payload = 8 ∷ 9 ∷ [] }))
write_to_connection-sends_example =
    write_to_connection-sends objects plain last_in_front registered after writer reader []
      announced 0 ids perms 20 root (2 ∷ []) [] 400 registered after visitor_peer 3 [] (omega arith)
      registered_here idle-IsValid idle (ap (drawn 20) one_peer ∙ drawn_once) made valid_after
      unknown listed_once
