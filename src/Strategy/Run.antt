-- ===== src/Strategy/Run.antt =====
-- The loop of gossip/strats/dummy.go as a sequence of events.
use whisper2peer.Base.{
  ℕ, ◌≡◌, ◌≤◌, refl, Bool, true, false, none, some, List, [], ◌∷◌, ◌++◌, Bytes, subst,
}
use whisper2peer.Messages.{GossipAnnounce, GossipValidation}
use whisper2peer.Ringbuffer.{extract_to_slice}
use whisper2peer.Ringbuffer.Valid.{insert-IsValid, new_ringbuffer-IsValid}
use whisper2peer.Connections.{Conn, Peer, new_connection_manager}
use whisper2peer.Connections.Run.{arrive, cull, step, step-Inv, new_connection_manager-Inv}
use whisper2peer.Cookie.{Aead}
use whisper2peer.Strategy.{
  Strategy, Output, Handled, new_dummy, on_announce, on_validation, on_tick, on_renewal, on_timeout,
  is_connection_invalid,
}
use whisper2peer.HorizontalApi.{FromHz}
use whisper2peer.Strategy.Handlers.{
  on_unregister, on_new_conn, on_conn_proved, on_pow_proved, on_conn_req, on_pow_req, on_from_hz,
}
use whisper2peer.Strategy.Steps.{
  StrategyInv, Keeps, with_peers, dropped, validated, restored, on_push-Inv, on_conn_chall-Inv,
  on_pow_chall-Inv, on_validation-Inv, send_messages-Inv, on_conn_pow-Keeps, on_pow_pow-Keeps,
}

-- What the loop selects, with what a handler reads from outside.
pub data Event : Type 0 where
  from_hz : Bytes → ℕ → FromHz → Event
  announce : ℕ → GossipAnnounce → Event
  validation : GossipValidation → Event
  tick : (ℕ → List ℕ) → Event
  renewal : Event
  timeout : ℕ → Event
  conn_proved : Peer → Bytes → ℕ → Bool → ℕ → Event
  pow_proved : Peer → Bytes → ℕ → Bool → Event

-- What has been sent, in front of what is sent afterwards.
abbrev pub preceded : List Output → Handled → Handled
preceded out none = none
preceded out (some (s, rest)) = some (s, out ++ rest)

preceded-Keeps : (out : List Output) (r : Handled) → Keeps r → Keeps (preceded out r)
preceded-Keeps out none k = k
preceded-Keeps out (some (s, rest)) k = k

module _ (aead : Aead) (sum256 : Bytes → Bytes) where
  -- One round of the loop.
  unfoldable pub on_event : Strategy → Event → Handled
  on_event s (Event.from_hz nonce now x) = on_from_hz aead sum256 s nonce now x
  on_event s (Event.announce id x) = some (on_announce s id x, [])
  on_event s (Event.validation x) = some (on_validation s x, [])
  on_event s (Event.tick perms) = some (on_tick s perms)
  on_event s Event.renewal = some (on_renewal s)
  on_event s (Event.timeout now) = some (on_timeout s now, [])
  on_event s (Event.conn_proved peer cookie nonce closed now) =
      some (on_conn_proved s peer cookie nonce closed now)
  on_event s (Event.pow_proved peer cookie nonce closed) =
      some (on_pow_proved s peer cookie nonce closed)

  -- The loop over a sequence of events, with all that it sends; it ends at a panic.
  unfoldable pub listen : Strategy → List Event → Handled
  listen s [] = some (s, [])
  listen s (x ∷ xs) = elim (on_event s x) [
    | none ↦ none
    | some (s', out) ↦ preceded out (listen s' xs)
  ]

  on_from_hz-Keeps :
      (s : Strategy) (nonce : Bytes) (now : ℕ) (x : FromHz)
      → StrategyInv s
      → Keeps (on_from_hz aead sum256 s nonce now x)
  unfolding on_from_hz on_unregister on_conn_req on_pow_req on_new_conn
  on_from_hz-Keeps s nonce now (FromHz.unregister id) h = dropped s id h
  on_from_hz-Keeps s nonce now (FromHz.push msg) h = on_push-Inv s msg h
  on_from_hz-Keeps s nonce now (FromHz.conn_req id) h = h
  on_from_hz-Keeps s nonce now (FromHz.conn_chall id cookie) h = on_conn_chall-Inv s id cookie h
  on_from_hz-Keeps s nonce now (FromHz.conn_pow id n cookie) h =
      on_conn_pow-Keeps aead sum256 s now id n cookie h
  on_from_hz-Keeps s nonce now (FromHz.pow_req id) h = h
  on_from_hz-Keeps s nonce now (FromHz.pow_chall id cookie) h = on_pow_chall-Inv s id cookie h
  on_from_hz-Keeps s nonce now (FromHz.pow_pow id n cookie) h =
      on_pow_pow-Keeps aead sum256 s id n cookie h
  on_from_hz-Keeps s nonce now (FromHz.new_conn conn) h =
      with_peers s _ h (unfold step in step-Inv s.manager (arrive conn) h.peers)

  on_event-Keeps : (s : Strategy) (x : Event) → StrategyInv s → Keeps (on_event s x)
  unfolding on_event on_announce on_tick on_renewal on_timeout on_conn_proved on_pow_proved
  on_event-Keeps s (Event.from_hz nonce now x) h = on_from_hz-Keeps s nonce now x h
  on_event-Keeps s (Event.announce id x) h = record {
    peers = h.peers;
    invalid = h.invalid;
    valid = insert-IsValid s.valid_messages s.stored h.valid;
    sent = h.sent;
  }
  on_event-Keeps s (Event.validation x) h = on_validation-Inv s x h
  on_event-Keeps s (Event.tick perms) h =
      send_messages-Inv s (extract_to_slice s.valid_messages) perms h
  on_event-Keeps s Event.renewal h = with_peers s _ h (restored s.manager _ h.peers)
  on_event-Keeps s (Event.timeout now) h =
      with_peers s _ h
        (unfold step in step-Inv s.manager (cull (is_connection_invalid now)) h.peers)
  on_event-Keeps s (Event.conn_proved peer cookie nonce true now) h = h
  on_event-Keeps s (Event.conn_proved peer cookie nonce false now) h =
      validated s peer.connection.id now h
  on_event-Keeps s (Event.pow_proved peer cookie nonce true) h = h
  on_event-Keeps s (Event.pow_proved peer cookie nonce false) h =
      with_peers s _ h (restored s.manager _ h.peers)

  listen-Keeps_round :
      (xs : List Event) (s : Strategy) (x : Event) (r : Handled)
      → ((s' : Strategy) → StrategyInv s' → Keeps (listen s' xs))
      → on_event s x ≡ r
      → Keeps r
      → Keeps (listen s (x ∷ xs))
  unfolding listen
  listen-Keeps_round xs s x none ih e k = rw (e, listen) tt
  listen-Keeps_round xs s x (some (s', out)) ih e k =
      rw (e, listen) (preceded-Keeps out (listen s' xs) (ih s' k))

  listen-Keeps : (xs : List Event) (s : Strategy) → StrategyInv s → Keeps (listen s xs)
  unfolding listen
  listen-Keeps [] s h = h
  listen-Keeps (x ∷ xs) s h =
      listen-Keeps_round xs s x (on_event s x) (listen-Keeps xs) refl (on_event-Keeps s x h)

  -- A new node with a cache size of two or more, after any events in any order, as long as no
  -- handler panics: the slice and the map of the valid peers hold the same peers, each once, the
  -- other maps keep each peer under its id, and each of the three buffers counts its elements,
  -- within its capacity of two or more.
  pub listen-StrategyInv :
      (conns : List Conn) (cache_size degree : ℕ) (xs : List Event) (s : Strategy)
      (out : List Output)
      → 2 ≤ cache_size
      → listen (new_dummy (new_connection_manager conns) cache_size degree) xs ≡ some (s, out)
      → StrategyInv s
  unfolding new_dummy
  listen-StrategyInv conns cache_size degree xs s out room e = subst Keeps e (
      listen-Keeps xs _ (record {
        peers = new_connection_manager-Inv conns;
        invalid = new_ringbuffer-IsValid cache_size room;
        valid = new_ringbuffer-IsValid cache_size room;
        sent = new_ringbuffer-IsValid cache_size room;
      }))
