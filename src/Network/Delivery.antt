-- ===== src/Network/Delivery.antt =====
-- An announcement of a module reaches a module of a neighbour.
use whisper2peer.Base.{
  ℕ, ◌%◌, ◌^◌, ◌≡◌, refl, ap, ◌∙◌, false, some, List, [], ◌∷◌, append-nil, Bytes, arith,
}
use whisper2peer.Messages.{Module}
use whisper2peer.Main.{NotifyMap, load}
use whisper2peer.Vertical.Announce
use whisper2peer.Vertical.Notification
use whisper2peer.VerticalApi
use whisper2peer.VerticalApi.{notification_packet}
use whisper2peer.VerticalApi.Writer.{write_to_connection-encoded}
use whisper2peer.Cookie.{Aead}
use whisper2peer.Ringbuffer.Valid.{IsValid, elements}
use whisper2peer.Connections.{ConnectionId, Peer, find_valid, permuted_valid}
use whisper2peer.HorizontalApi.{FromHz, ToHz}
use whisper2peer.HorizontalApi.Capnp.{Capnp}
use whisper2peer.HorizontalApi.Transmit.{create_message}
use whisper2peer.Strategy.{Strategy, convert_announce_to_push, convert_push_to_notification}
use whisper2peer.Strategy.Handlers.{is_known}
use whisper2peer.Network.{take_in, sends, carries, hears, tells}
use whisper2peer.Network.Leaving.{drawn, sends-bytes}
use whisper2peer.Network.Arriving.{listed, carries-push, hears-push, tells-notification}

-- A module of one node writes an announcement and closes its connection. Some module of the node is
-- registered for the type, and no message waits to be relayed. At the next tick the peer on a
-- channel is drawn, once; the push can be written. There the node is a valid peer, the id that was
-- drawn is not known, and a module is registered for the type, once. Then the bytes that this module
-- reads are those of a notification with the type and the payload that were announced and the id
-- that was drawn.
pub write_to_connection-sends :
    (c : Capnp) (aead : Aead) (sum256 : Bytes → Bytes) (nm : NotifyMap) (s : Strategy)
    (m first : Module) (others : List Module) (e : Announce.Packet) (reserved : ℕ) (ids : ℕ → ℕ)
    (perms : ℕ → List ℕ) (channel : ℕ) (root : c.Struct) (id : ConnectionId) (nonce : Bytes)
    (now : ℕ) (nm' : NotifyMap) (s' : Strategy) (peer : Peer) (chan : ℕ) (buf : Bytes)
    → Announce.IsWellFormed e
    → load nm e.ga.data_type ≡ first ∷ others
    → IsValid s.valid_messages
    → elements s.valid_messages ≡ []
    → drawn channel (permuted_valid s.manager (perms 0) s.degree) ≡ 1
    → create_message c (ToHz.push (convert_announce_to_push (ids 0) e.ga)) ≡ some root
    → find_valid s'.manager id ≡ some peer
    → is_known s' (ids 0 % 2 ^ 16) ≡ false
    → listed chan (load nm' e.ga.data_type) ≡ 1
    → VerticalApi.write_to_connection buf (
        tells nm' chan (
          hears aead sum256 nonce now s'
            (carries c id (sends 2 nm s m ids perms channel (Announce.bytes e reserved)))))
      ≡ Notification.bytes (
          notification_packet (record {
            message_id = ids 0 % 2 ^ 16;
            data_type = e.ga.data_type;
            payload = e.ga.payload;
          }))
unfolding sends take_in convert_announce_to_push convert_push_to_notification
write_to_connection-sends c aead sum256 nm s m first others e reserved ids perms channel root id
      nonce now nm' s' peer chan buf wf registered valid idle once made known new listening =
    let msg = convert_announce_to_push (ids 0) e.ga in
    let there = record msg { id = id } in
    let note = convert_push_to_notification there in
    ap (λ ms. heard (carries c id ms))
      (sends-bytes nm s m first others e reserved ids perms channel wf registered valid idle once)
    ∙ ap heard (carries-push c id msg root (wf.ttl_range, wf.data_type_range, omega arith) made)
    ∙ ap (λ xs. VerticalApi.write_to_connection buf (tells nm' chan xs))
        (hears-push aead sum256 nonce now s' there peer known new)
    ∙ ap (VerticalApi.write_to_connection buf)
        (tells-notification nm' chan note (load nm' e.ga.data_type) refl listening)
    ∙ write_to_connection-encoded buf (note ∷ [])
    ∙ append-nil (Notification.bytes (notification_packet note))
  where
    heard : List FromHz → Bytes
    heard xs =
        VerticalApi.write_to_connection buf (tells nm' chan (hears aead sum256 nonce now s' xs))
