-- ===== src/Strategy/Steps.antt =====
-- The invariant of the state of gossip/strats/dummy.go, and that the handlers keep it.
use whisper2peer.Base.{
  suc, ℕ, ◌≡◌, refl, inl, inr, Bool, true, false, Option, none, some, List, [], ◌∷◌, Bytes, Outcome,
  ok, err, panics, ltb, Option-cases, Bool-cases, ℕ_discrete, ◌==◌,
}
use whisper2peer.Messages.{GossipValidation}
use whisper2peer.Ringbuffer.{insert, remove}
use whisper2peer.Ringbuffer.Valid.{IsValid, insert-IsValid, remove-Removed}
use whisper2peer.Connections.{
  ConnectionId, Peer, Status, Manager, find_valid, find_in_progress, find_to_be_proved, make_valid,
}
use whisper2peer.Connections.Inv.{Inv}
use whisper2peer.Connections.Run.{drop, validate, step, step-Inv}
use whisper2peer.Cookie.{Aead, ConnCookie, Error}
use whisper2peer.Strategy.{
  Strategy, Handled, elapsed, pow_timeout, on_validation, accept_message, find_first_message,
  send_messages,
}
use whisper2peer.HorizontalApi.{Push}
use whisper2peer.Strategy.Handlers.{
  on_push, is_known, on_conn_chall, on_pow_chall, on_conn_pow, on_pow_pow, check_answer, drop_peer,
}

-- The peers of the manager and the buffers of the messages are in order.
pub record StrategyInv (s : Strategy) : Type 0 where
  pub peers : Inv s.manager
  pub invalid : IsValid s.invalid_messages
  pub valid : IsValid s.valid_messages
  pub sent : IsValid s.sent_messages

pub with_peers :
    (s : Strategy) (m : Manager) → StrategyInv s → Inv m → StrategyInv (record s { manager = m })
with_peers s m h p = record { peers = p; invalid = h.invalid; valid = h.valid; sent = h.sent }

pub dropped : (s : Strategy) (id : ConnectionId) → StrategyInv s → StrategyInv (drop_peer s id)
dropped s id h = with_peers s _ h (unfold step in step-Inv s.manager (drop id) h.peers)

pub validated :
    (s : Strategy) (id : ConnectionId) (t : ℕ)
    → StrategyInv s
    → StrategyInv (record s { manager = make_valid s.manager id t })
validated s id t h = with_peers s _ h (unfold step in step-Inv s.manager (validate id t) h.peers)

pub restored : (m : Manager) (store : ℕ → Status) → Inv m → Inv (record m { store = store })
restored m store h = record {
  mirrored = h.mirrored;
  distinct = h.distinct;
  proved_keyed = h.proved_keyed;
  progress_keyed = h.progress_keyed;
}

pub on_push-Inv : (s : Strategy) (msg : Push) → StrategyInv s → StrategyInv (on_push s msg).0
unfolding on_push
on_push-Inv s msg h = elim (Option-cases (find_valid s.manager msg.id)) [
  | inl e ↦ rw (e, on_push) h
  | inr (q, e) ↦ elim (Bool-cases (is_known s msg.message_id)) [
    | inl known ↦ rw (e, on_push) (rw (known, on_push) h)
    | inr new ↦
        rw (e, on_push)
          (rw (new, on_push)
            (record {
              peers = h.peers;
              invalid = insert-IsValid s.invalid_messages s.stored h.invalid;
              valid = h.valid;
              sent = h.sent;
            }))
  ]
]

pub on_conn_chall-Inv :
    (s : Strategy) (id : ConnectionId) (cookie : Bytes)
    → StrategyInv s
    → StrategyInv (on_conn_chall s id cookie).0
unfolding on_conn_chall
on_conn_chall-Inv s id cookie h = elim (Option-cases (find_to_be_proved s.manager id)) [
  | inl e ↦ rw (e, on_conn_chall) (dropped s id h)
  | inr (q, e) ↦ rw (e, on_conn_chall) h
]

pub on_pow_chall-Inv :
    (s : Strategy) (id : ConnectionId) (cookie : Bytes)
    → StrategyInv s
    → StrategyInv (on_pow_chall s id cookie).0
unfolding on_pow_chall
on_pow_chall-Inv s id cookie h = elim (Option-cases (find_valid s.manager id)) [
  | inl e ↦ rw (e, on_pow_chall) (dropped s id h)
  | inr (q, e) ↦ elim (Bool-cases (s.manager.store q.ptr).sent_pow_req) [
    | inl asked ↦ rw (e, on_pow_chall) (rw (asked, on_pow_chall) h)
    | inr no_request ↦ rw (e, on_pow_chall) (rw (no_request, on_pow_chall) (dropped s id h))
  ]
]

accept_message-Inv :
    (s : Strategy) (p : ℕ) (accepted : Bool)
    → StrategyInv s
    → StrategyInv (accept_message s p accepted)
unfolding accept_message
accept_message-Inv s p false h = h
accept_message-Inv s p true h = elim (Bool-cases ((s.messages p).ttl == 1)) [
  | inl last ↦ rw last (record {
    peers = h.peers;
    invalid = h.invalid;
    valid = h.valid;
    sent = insert-IsValid s.sent_messages p h.sent;
  })
  | inr more ↦ rw more (record {
    peers = h.peers;
    invalid = h.invalid;
    valid = insert-IsValid s.valid_messages p h.valid;
    sent = h.sent;
  })
]

pub on_validation-Inv :
    (s : Strategy) (x : GossipValidation) → StrategyInv s → StrategyInv (on_validation s x)
unfolding on_validation
on_validation-Inv s x h =
    elim (Option-cases (find_first_message s.messages s.invalid_messages x.message_id)) [
      | inl e ↦ rw (e, on_validation) h
      | inr (p, e) ↦
          rw (e, on_validation)
            (accept_message-Inv _ p x.valid (record {
              peers = h.peers;
              invalid = (remove-Removed ℕ_discrete p s.invalid_messages h.invalid).0;
              valid = h.valid;
              sent = h.sent;
            }))
    ]

pub send_messages-Inv :
    (s : Strategy) (ps : List ℕ) (perms : ℕ → List ℕ)
    → StrategyInv s
    → StrategyInv (send_messages s ps perms).0
unfolding send_messages
send_messages-Inv s [] perms h = h
send_messages-Inv s (p ∷ ps) perms h =
    send_messages-Inv
      (record s {
        valid_messages = (remove ℕ_discrete s.valid_messages p).0;
        sent_messages = insert s.sent_messages p;
      })
      ps (λ i. perms (suc i))
      (record {
        peers = h.peers;
        invalid = h.invalid;
        valid = (remove-Removed ℕ_discrete p s.valid_messages h.valid).0;
        sent = insert-IsValid s.sent_messages p h.sent;
      })

-- A handler that does not panic has kept the invariant.
abbrev pub Keeps : Handled → Type 0
Keeps none = Unit
Keeps (some (s, out)) = StrategyInv s

module _ (aead : Aead) (sum256 : Bytes → Bytes) where
  on_conn_pow-Keeps_answer :
      (s : Strategy) (now : ℕ) (id : ConnectionId) (nonce : ℕ) (cookie : Bytes) (q : Peer)
      (r : Outcome Error (Option ConnCookie))
      → StrategyInv s
      → find_in_progress s.manager id ≡ some q
      → check_answer aead sum256 id nonce cookie ≡ r
      → Keeps (on_conn_pow aead sum256 s now id nonce cookie)
  unfolding on_conn_pow
  on_conn_pow-Keeps_answer s now id nonce cookie q panics h e a =
      rw (e, on_conn_pow) (rw (a, on_conn_pow) tt)
  on_conn_pow-Keeps_answer s now id nonce cookie q (err x) h e a =
      rw (e, on_conn_pow) (rw (a, on_conn_pow) tt)
  on_conn_pow-Keeps_answer s now id nonce cookie q (ok none) h e a =
      rw (e, on_conn_pow) (rw (a, on_conn_pow) (dropped s id h))
  on_conn_pow-Keeps_answer s now id nonce cookie q (ok (some c)) h e a =
      elim (Bool-cases (ltb pow_timeout (elapsed now c.timestamp))) [
        | inl late ↦ rw (e, on_conn_pow) (rw (a, on_conn_pow) (rw late (dropped s id h)))
        | inr timely ↦
            rw (e, on_conn_pow) (rw (a, on_conn_pow) (rw timely (validated s id c.timestamp h)))
      ]

  pub on_conn_pow-Keeps :
      (s : Strategy) (now : ℕ) (id : ConnectionId) (nonce : ℕ) (cookie : Bytes)
      → StrategyInv s
      → Keeps (on_conn_pow aead sum256 s now id nonce cookie)
  unfolding on_conn_pow
  on_conn_pow-Keeps s now id nonce cookie h = elim (Option-cases (find_in_progress s.manager id)) [
    | inl e ↦ rw (e, on_conn_pow) (dropped s id h)
    | inr (q, e) ↦ on_conn_pow-Keeps_answer s now id nonce cookie q _ h e refl
  ]

  on_pow_pow-Keeps_answer :
      (s : Strategy) (id : ConnectionId) (nonce : ℕ) (cookie : Bytes) (q : Peer)
      (r : Outcome Error (Option ConnCookie))
      → StrategyInv s
      → find_valid s.manager id ≡ some q
      → check_answer aead sum256 id nonce cookie ≡ r
      → Keeps (on_pow_pow aead sum256 s id nonce cookie)
  unfolding on_pow_pow
  on_pow_pow-Keeps_answer s id nonce cookie q panics h e a =
      rw (e, on_pow_pow) (rw (a, on_pow_pow) tt)
  on_pow_pow-Keeps_answer s id nonce cookie q (err x) h e a =
      rw (e, on_pow_pow) (rw (a, on_pow_pow) tt)
  on_pow_pow-Keeps_answer s id nonce cookie q (ok none) h e a =
      rw (e, on_pow_pow) (rw (a, on_pow_pow) (dropped s id h))
  on_pow_pow-Keeps_answer s id nonce cookie q (ok (some c)) h e a =
      rw (e, on_pow_pow) (rw (a, on_pow_pow) (validated s id c.timestamp h))

  pub on_pow_pow-Keeps :
      (s : Strategy) (id : ConnectionId) (nonce : ℕ) (cookie : Bytes)
      → StrategyInv s
      → Keeps (on_pow_pow aead sum256 s id nonce cookie)
  unfolding on_pow_pow
  on_pow_pow-Keeps s id nonce cookie h = elim (Option-cases (find_valid s.manager id)) [
    | inl e ↦ rw (e, on_pow_pow) (dropped s id h)
    | inr (q, e) ↦ on_pow_pow-Keeps_answer s id nonce cookie q _ h e refl
  ]
