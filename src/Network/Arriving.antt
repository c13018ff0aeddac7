-- ===== src/Network/Arriving.antt =====
-- What a node does with a message of a neighbour, up to the notification of one of its modules.
use whisper2peer.Base.{
  ℕ, suc, ◌≡◌, refl, ap, ◌∙◌, false, Option, none, some, List, [], ◌∷◌, ◌++◌, append-nil, map,
  Bytes, ◌==◌, if◌then◌else◌, arith,
}
use whisper2peer.Messages.{Module, GossipNotification}
use whisper2peer.Main.{NotifyMap, to_vert, load, handle_notification}
use whisper2peer.Cookie.{Aead}
use whisper2peer.Connections.{ConnectionId, Peer, find_valid, unsafe_remove}
use whisper2peer.HorizontalApi.{Push, FromHz, ToHz}
use whisper2peer.HorizontalApi.Capnp.{Capnp}
use whisper2peer.HorizontalApi.Transmit.{create_message, delivered}
use whisper2peer.HorizontalApi.Members.{IsTyped}
use whisper2peer.HorizontalApi.RoundTrip.{reaching, handle_connection-write_to_connection}
use whisper2peer.Strategy.{Strategy, Output, convert_push_to_notification}
use whisper2peer.Strategy.Handlers.{is_known, on_unregister, on_from_hz}
use whisper2peer.Strategy.Flow.{received, on_push-new}
use whisper2peer.Strategy.Wired.{with_fates}
use whisper2peer.Network.{carries, notifications, hears, for_module, tells}
use whisper2peer.Network.Leaving.{copies, one_more}

-- How many of some modules are connected by a channel.
unfoldable pub listed : ℕ → List Module → ℕ
listed chan [] = 0
listed chan (m ∷ ms) = let n = listed chan ms in if m.chan == chan then suc n else n

pub for_module-map :
    (chan : ℕ) (x : GossipNotification) (ms : List Module)
    → for_module chan (map (λ m. to_vert m x) ms) ≡ copies (listed chan ms) x
unfolding for_module listed
for_module-map chan x [] = refl
for_module-map chan x (m ∷ ms) = one_more (m.chan == chan) x _ _ (for_module-map chan x ms)

no_notifications :
    (o : Option Peer)
    → notifications (elim o [ none ↦ [] | some peer ↦ Output.cancel peer.connection ∷ [] ]) ≡ []
unfolding notifications
no_notifications none = refl
no_notifications (some peer) = refl

-- The end of a peer's connection is nothing to the main component.
notifications-unregister :
    (s : Strategy) (id : ConnectionId) → notifications (on_unregister s id).1 ≡ []
unfolding on_unregister
notifications-unregister s id = no_notifications (unsafe_remove s.manager id).1

passed_on :
    (nm : NotifyMap) (x : GossipNotification) (m : Module) (ms : List Module)
    → load nm x.data_type ≡ m ∷ ms
    → handle_notification nm x ≡ map (λ d. to_vert d x) (m ∷ ms)
unfolding handle_notification
passed_on nm x m ms e = rw (e, handle_notification) refl

-- One push that can be written, at the other end of its connection.
pub carries-push :
    (c : Capnp) (id : ConnectionId) (msg : Push) (root : c.Struct)
    → IsTyped (ToHz.push msg)
    → create_message c (ToHz.push msg) ≡ some root
    → carries c id (ToHz.push msg ∷ [])
      ≡ FromHz.push (record msg { id = id }) ∷ FromHz.unregister id ∷ []
unfolding carries with_fates
carries-push c id msg root typed made =
    ap (λ r. r.0)
      (handle_connection-write_to_connection c id ((ToHz.push msg, delivered) ∷ []) (typed, tt))
    ∙ rw (made, reaching) refl

-- The neighbour notifies a push that it does not know.
pub hears-push :
    (aead : Aead) (sum256 : Bytes → Bytes) (nonce : Bytes) (now : ℕ) (s : Strategy) (msg : Push)
    (peer : Peer)
    → find_valid s.manager msg.id ≡ some peer
    → is_known s msg.message_id ≡ false
    → hears aead sum256 nonce now s (FromHz.push msg ∷ FromHz.unregister msg.id ∷ [])
      ≡ convert_push_to_notification msg ∷ []
unfolding hears on_from_hz notifications
hears-push aead sum256 nonce now s msg peer valid new =
    ap (λ r. notifications r.1 ++ (notifications (on_unregister r.0 msg.id).1 ++ []))
      (on_push-new s msg peer valid new)
    ∙ ap (λ l. convert_push_to_notification msg ∷ (l ++ []))
        (notifications-unregister (received s msg) msg.id)

-- The main component of the neighbour passes a notification on.
pub tells-notification :
    (nm : NotifyMap) (chan : ℕ) (x : GossipNotification) (ms : List Module)
    → load nm x.data_type ≡ ms
    → listed chan ms ≡ 1
    → tells nm chan (x ∷ []) ≡ x ∷ []
unfolding tells handle_notification listed
tells-notification nm chan x [] e one = absurd (ground (arith, one))
tells-notification nm chan x (m ∷ ms) e one =
    append-nil _
    ∙ ap (for_module chan) (passed_on nm x m ms e)
    ∙ for_module-map chan x (m ∷ ms)
    ∙ ap (λ n. copies n x) one
