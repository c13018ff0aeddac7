-- ===== src/Node/Stuck.antt =====
-- How the main component and the strategy come to wait for each other.
use whisper2peer.Base.{ℕ, ◌≡◌, refl, ap, false, some, List, [], ◌∷◌, Bytes}
use whisper2peer.Messages.{Module, GossipAnnounce, FromVert, ToStrat}
use whisper2peer.Main.{to_strat, load, on_from_vert, handle_gossip_announce}
use whisper2peer.Cookie.{Aead}
use whisper2peer.HorizontalApi.{Push, FromHz}
use whisper2peer.Connections.{Peer, find_valid}
use whisper2peer.Strategy.{notify, convert_push_to_notification}
use whisper2peer.Strategy.Handlers.{is_known, on_from_hz}
use whisper2peer.Strategy.Flow.{received, on_push-new}
use whisper2peer.Strategy.Run.{Event, on_event}
use whisper2peer.Node.{Node, Step, from_vert, event, Reach, here, next}
use whisper2peer.Node.Progress.{Stuck, Stuck-ne-Step}

module _ (aead : Aead) (sum256 : Bytes → Bytes) where
  announced :
      (n : Node) (x : GossipAnnounce) (m : Module) (ms : List Module)
      → load n.registered x.data_type ≡ m ∷ ms
      → on_from_vert n.registered (FromVert.announce x)
        ≡ (n.registered, to_strat (ToStrat.announce x) ∷ [])
  unfolding on_from_vert handle_gossip_announce
  announced n x m ms e = rw (e, handle_gossip_announce) refl

  pushed :
      (n : Node) (nonce : Bytes) (now : ℕ) (msg : Push) (peer : Peer)
      → find_valid n.strategy.manager msg.id ≡ some peer
      → is_known n.strategy msg.message_id ≡ false
      → on_event aead sum256 n.strategy (Event.from_hz nonce now (FromHz.push msg))
        ≡ some (received n.strategy msg, notify (convert_push_to_notification msg) ∷ [])
  unfolding on_event on_from_hz
  pushed n nonce now msg peer valid new = ap some (on_push-new n.strategy msg peer valid new)

  -- A node where both goroutines are at their `select`s comes to stand still for ever, when a
  -- module announces data of a type that is registered and a valid peer pushes a message that is
  -- not known, and each goroutine receives its own before it sends.
  pub Reach-Stuck :
      (n : Node) (x : GossipAnnounce) (m : Module) (ms : List Module) (msg : Push) (peer : Peer)
      → n.main_sends ≡ []
      → n.strategy_sends ≡ []
      → load n.registered x.data_type ≡ m ∷ ms
      → find_valid n.strategy.manager msg.id ≡ some peer
      → is_known n.strategy msg.message_id ≡ false
      → (t : Node) × Reach aead sum256 n t × ((u : Node) → ¬ Step aead sum256 t u)
  Reach-Stuck n x m ms msg peer main_idle strategy_idle registered valid new =
      let first = record n {
        registered = (on_from_vert n.registered (FromVert.announce x)).0;
        main_sends = (on_from_vert n.registered (FromVert.announce x)).1;
      } in
      let last = record first {
        strategy = received n.strategy msg;
        strategy_sends = notify (convert_push_to_notification msg) ∷ [];
      } in
      let stuck : Stuck last = record {
        forward = ToStrat.announce x;
        forwards = [];
        notification = convert_push_to_notification msg;
        notifications = [];
        main_waits = ap (λ r. r.1) (announced n x m ms registered);
        strategy_waits = refl;
      } in
      (
        last,
        next first last (next n first here (from_vert (FromVert.announce x) main_idle)) (
            event (Event.from_hz [] 0 (FromHz.push msg)) (received n.strategy msg)
              (notify (convert_push_to_notification msg) ∷ []) tt strategy_idle
              (pushed n [] 0 msg peer valid new)),
        Stuck-ne-Step aead sum256 last stuck,
      )
