-- ===== src/Strategy/Relay.antt =====
-- One hop of a message in gossip/strats/dummy.go: a push that comes in is relayed after its
-- validation.
use whisper2peer.Base.{
  ℕ_discrete, Bytes, ok, ℕ, ◌-◌, ◌≡◌, ◌≤◌, ◌<◌, refl, ap, ◌∙◌, true, false, some, List, [], ◌∷◌,
  arith, ◌==◌, ==_refl, if◌then◌else◌,
}
use whisper2peer.HorizontalApi.{Push, FromHz, ToHz}
use whisper2peer.HorizontalApi.Capnp.{Capnp}
use whisper2peer.HorizontalApi.Members.{IsTyped}
use whisper2peer.HorizontalApi.Transmit.{create_message}
use whisper2peer.HorizontalApi.Receive.{read_message}
use whisper2peer.HorizontalApi.RoundTrip.{read_message-create_message}
use whisper2peer.Cookie.{Aead}
use whisper2peer.Ringbuffer.{remove}
use whisper2peer.Ringbuffer.Valid.{elements, elements-insert}
use whisper2peer.Connections.{ConnectionId, Peer, find_valid}
use whisper2peer.Strategy.{
  Strategy, notify, convert_push_to_notification, accept_message, lower_ttl, on_validation,
}
use whisper2peer.Strategy.Handlers.{is_known, on_push, on_from_hz}
use whisper2peer.Strategy.Flow.{received, find_first_message-insert, on_push-new}

-- What the node holds of a message to be relayed, as the newest of its buffer.
record Relays (s : Strategy) (msg : Push) : Type 0 where
  place : ℕ
  others : List ℕ
  newest : elements s.valid_messages ≡ place ∷ others
  held : s.messages place ≡ msg

lower_ttl_lem : (t : ℕ) → 2 ≤ t → t < 256 → lower_ttl t ≡ t - 1
unfolding lower_ttl
lower_ttl_lem t low high = omega arith

accept_message-Relays :
    (s : Strategy) (p : ℕ) (msg : Push)
    → s.messages p ≡ msg
    → 2 ≤ msg.ttl
    → msg.ttl < 256
    → Relays (accept_message s p true) (record msg { ttl = msg.ttl - 1 })
unfolding accept_message
accept_message-Relays s p msg e low high =
    let last : ((s.messages p).ttl == 1) ≡ false = ground (arith, e) in
    let (others, newest) = elements-insert s.valid_messages p in
    let lower : record (s.messages p) { ttl = lower_ttl (s.messages p).ttl }
        ≡ record msg { ttl = msg.ttl - 1 } =
      ap (λ (m : Push). record m { ttl = lower_ttl m.ttl }) e
      ∙ ap (λ t. record msg { ttl = t }) (lower_ttl_lem msg.ttl low high) in
    rw last (record { place = p; others = others; newest = newest; held = rw (==_refl p) lower })

-- A push from a valid peer of a message that is not known, with a TTL from 2 to 255, is notified to
-- the main component; when a module accepts it, it is the newest message to be relayed, with its
-- TTL lowered by one and else as it came.
on_validation-on_push :
    (s : Strategy) (msg : Push) (peer : Peer) (bits : ℕ)
    → find_valid s.manager msg.id ≡ some peer
    → is_known s msg.message_id ≡ false
    → 2 ≤ msg.ttl
    → msg.ttl < 256
    → let s' =
        on_validation
          (on_push s msg).0
          (record { message_id = msg.message_id; bitfield = bits; valid = true }) in
      ((on_push s msg).1 ≡ notify (convert_push_to_notification msg) ∷ [])
      × Relays s' (record msg { ttl = msg.ttl - 1 })
unfolding on_validation
on_validation-on_push s msg peer bits e new low high =
    let messages : ℕ → Push = λ p. if s.stored == p then msg else s.messages p in
    let t = received s msg in
    let found =
      find_first_message-insert messages s.invalid_messages s.stored msg.message_id
        (rw (==_refl s.stored) refl) in
    rw (on_push-new s msg peer e new) (
      refl,
      rw (found, on_validation)
          (accept_message-Relays
            (record t { invalid_messages = (remove ℕ_discrete t.invalid_messages s.stored).0 })
            s.stored msg (rw (==_refl s.stored) refl) low high),
    )

-- A push that one node has written is read by its neighbour and, if the writer is valid there and
-- the message is not known, stored under the id of the connection and notified with the type, the
-- id and the payload that were sent, for integers in the ranges of their types.
pub on_from_hz-create_message :
    (c : Capnp) (aead : Aead) (sum256 : Bytes → Bytes) (s : Strategy) (id : ConnectionId)
    (peer : Peer) (m : Push) (root : c.Struct) (nonce : Bytes) (now : ℕ)
    → IsTyped (ToHz.push m)
    → create_message c (ToHz.push m) ≡ some root
    → find_valid s.manager id ≡ some peer
    → is_known s m.message_id ≡ false
    → (x : FromHz) × (read_message c id root ≡ ok x)
      × (on_from_hz aead sum256 s nonce now x
          ≡ some (received s (record m { id = id }), notify (convert_push_to_notification m) ∷ []))
unfolding on_from_hz convert_push_to_notification
on_from_hz-create_message c aead sum256 s id peer m root nonce now typed made valid new = (
  FromHz.push (record m { id = id }),
  read_message-create_message c id (ToHz.push m) root typed made,
  ap some (on_push-new s (record m { id = id }) peer valid new),
)
