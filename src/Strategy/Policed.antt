-- ===== src/Strategy/Policed.antt =====
-- A policy on the messages of gossip/strats/dummy.go, for each case of the loop.
use whisper2peer.Base.{
  ℕ, ◌≡◌, refl, true, Option, none, some, List, [], ◌∷◌, Bytes, Outcome, ok, err, panics, ltb, All,
  Bool-cases, Option-cases, inl, inr,
}
use whisper2peer.HorizontalApi.{Push, ToHz, FromHz}
use whisper2peer.Connections.{
  ConnectionId, Peer, Manager, find_valid, find_in_progress, find_to_be_proved,
}
use whisper2peer.Cookie.{Aead, ConnCookie, Error, create_cookie, new_conn_cookie}
use whisper2peer.Strategy.{
  Strategy, Output, Handled, send, cancel, elapsed, pow_timeout, convert_announce_to_push,
}
use whisper2peer.Strategy.Handlers.{
  on_unregister, on_push, on_conn_req, on_pow_req, on_conn_chall, on_pow_chall, on_new_conn,
  on_conn_pow, on_pow_pow, check_answer, on_from_hz, is_known,
}
use whisper2peer.Strategy.Run.{Event}
use whisper2peer.Strategy.Policy.{Policy, Stocked, Sends, on_push-Stocked}

module _ (y : Policy) where
  -- What an event has to fulfil.
  abbrev pub AdmitsHz : FromHz → Type 0
  AdmitsHz (FromHz.push m) = y.Waiting m
  AdmitsHz _ = Unit

  abbrev pub Admits : Event → Type 0
  Admits (Event.from_hz nonce now x) = AdmitsHz x
  Admits (Event.announce id x) = y.Relayed (convert_announce_to_push id x)
  Admits (Event.validation x) =
      x.valid ≡ true → (m : Push) → y.Waiting m → m.message_id ≡ x.message_id → y.Relayed m
  Admits (Event.conn_proved peer cookie nonce closed now) = y.Allowed (ToHz.conn_pow nonce cookie)
  Admits (Event.pow_proved peer cookie nonce closed) = y.Allowed (ToHz.pow_pow nonce cookie)
  Admits _ = Unit

  -- A state with the outputs that have led to it.
  abbrev pub Policed : Strategy × List Output → Type 0
  Policed r = Stocked y r.0 × All (Sends y.Allowed) r.1

  abbrev pub PolicedIf : Handled → Type 0
  PolicedIf none = Unit
  PolicedIf (some r) = Policed r

  -- The manager has no part in it.
  pub managed : (s : Strategy) (m : Manager) → Stocked y s → Stocked y (record s { manager = m })
  managed s m h = record { relayed = h.relayed; waiting = h.waiting }

  on_push-Sends : (s : Strategy) (m : Push) → All (Sends y.Allowed) (on_push s m).1
  unfolding on_push
  on_push-Sends s m = elim (Option-cases (find_valid s.manager m.id)) [
    | inl e ↦ rw (e, on_push) tt
    | inr (q, e) ↦ elim (Bool-cases (is_known s m.message_id)) [
      | inl known ↦ rw (e, on_push) (rw (known, on_push) tt)
      | inr new ↦ rw (e, on_push) (rw (new, on_push) (tt, tt))
    ]
  ]

  cancelled :
      (o : Option Peer)
      → All (Sends y.Allowed) (elim o [ none ↦ [] | some peer ↦ cancel peer.connection ∷ [] ])
  cancelled none = tt
  cancelled (some peer) = (tt, tt)

  answered :
      (o : Option Peer) (m : ToHz)
      → y.Allowed m
      → All (Sends y.Allowed) (elim o [ none ↦ [] | some peer ↦ send peer.connection m ∷ [] ])
  answered none m h = tt
  answered (some peer) m h = (h, tt)

  on_conn_chall-Policed :
      (s : Strategy) (id : ConnectionId) (cookie : Bytes)
      → Stocked y s
      → Policed (on_conn_chall s id cookie)
  unfolding on_conn_chall
  on_conn_chall-Policed s id cookie h = elim (Option-cases (find_to_be_proved s.manager id)) [
    | inl e ↦ rw (e, on_conn_chall) (managed s _ h, tt)
    | inr (q, e) ↦ rw (e, on_conn_chall) (h, (tt, tt))
  ]

  on_pow_chall-Policed :
      (s : Strategy) (id : ConnectionId) (cookie : Bytes)
      → Stocked y s
      → Policed (on_pow_chall s id cookie)
  unfolding on_pow_chall
  on_pow_chall-Policed s id cookie h = elim (Option-cases (find_valid s.manager id)) [
    | inl e ↦ rw (e, on_pow_chall) (managed s _ h, tt)
    | inr (q, e) ↦ elim (Bool-cases (s.manager.store q.ptr).sent_pow_req) [
      | inl asked ↦ rw (e, on_pow_chall) (rw (asked, on_pow_chall) (h, (tt, tt)))
      | inr no_request ↦ rw (e, on_pow_chall) (rw (no_request, on_pow_chall) (managed s _ h, tt))
    ]
  ]

  module _ (aead : Aead) (sum256 : Bytes → Bytes) where
    on_conn_pow-Policed_answer :
        (s : Strategy) (now : ℕ) (id : ConnectionId) (nonce : ℕ) (cookie : Bytes) (q : Peer)
        (r : Outcome Error (Option ConnCookie))
        → Stocked y s
        → find_in_progress s.manager id ≡ some q
        → check_answer aead sum256 id nonce cookie ≡ r
        → PolicedIf (on_conn_pow aead sum256 s now id nonce cookie)
    unfolding on_conn_pow
    on_conn_pow-Policed_answer s now id nonce cookie q panics h e a =
        rw (e, on_conn_pow) (rw (a, on_conn_pow) tt)
    on_conn_pow-Policed_answer s now id nonce cookie q (err x) h e a =
        rw (e, on_conn_pow) (rw (a, on_conn_pow) tt)
    on_conn_pow-Policed_answer s now id nonce cookie q (ok none) h e a =
        rw (e, on_conn_pow) (rw (a, on_conn_pow) (managed s _ h, tt))
    on_conn_pow-Policed_answer s now id nonce cookie q (ok (some c)) h e a =
        elim (Bool-cases (ltb pow_timeout (elapsed now c.timestamp))) [
          | inl late ↦ rw (e, on_conn_pow) (rw (a, on_conn_pow) (rw late (managed s _ h, tt)))
          | inr timely ↦ rw (e, on_conn_pow) (rw (a, on_conn_pow) (rw timely (managed s _ h, tt)))
        ]

    on_conn_pow-Policed :
        (s : Strategy) (now : ℕ) (id : ConnectionId) (nonce : ℕ) (cookie : Bytes)
        → Stocked y s
        → PolicedIf (on_conn_pow aead sum256 s now id nonce cookie)
    unfolding on_conn_pow
    on_conn_pow-Policed s now id nonce cookie h =
        elim (Option-cases (find_in_progress s.manager id)) [
          | inl e ↦ rw (e, on_conn_pow) (managed s _ h, tt)
          | inr (q, e) ↦ on_conn_pow-Policed_answer s now id nonce cookie q _ h e refl
        ]

    on_pow_pow-Policed_answer :
        (s : Strategy) (id : ConnectionId) (nonce : ℕ) (cookie : Bytes) (q : Peer)
        (r : Outcome Error (Option ConnCookie))
        → Stocked y s
        → find_valid s.manager id ≡ some q
        → check_answer aead sum256 id nonce cookie ≡ r
        → PolicedIf (on_pow_pow aead sum256 s id nonce cookie)
    unfolding on_pow_pow
    on_pow_pow-Policed_answer s id nonce cookie q panics h e a =
        rw (e, on_pow_pow) (rw (a, on_pow_pow) tt)
    on_pow_pow-Policed_answer s id nonce cookie q (err x) h e a =
        rw (e, on_pow_pow) (rw (a, on_pow_pow) tt)
    on_pow_pow-Policed_answer s id nonce cookie q (ok none) h e a =
        rw (e, on_pow_pow) (rw (a, on_pow_pow) (managed s _ h, tt))
    on_pow_pow-Policed_answer s id nonce cookie q (ok (some c)) h e a =
        rw (e, on_pow_pow) (rw (a, on_pow_pow) (managed s _ h, tt))

    on_pow_pow-Policed :
        (s : Strategy) (id : ConnectionId) (nonce : ℕ) (cookie : Bytes)
        → Stocked y s
        → PolicedIf (on_pow_pow aead sum256 s id nonce cookie)
    unfolding on_pow_pow
    on_pow_pow-Policed s id nonce cookie h = elim (Option-cases (find_valid s.manager id)) [
      | inl e ↦ rw (e, on_pow_pow) (managed s _ h, tt)
      | inr (q, e) ↦ on_pow_pow-Policed_answer s id nonce cookie q _ h e refl
    ]

    pub on_from_hz-Policed :
        (s : Strategy) (nonce : Bytes) (now : ℕ) (x : FromHz)
        → Stocked y s
        → AdmitsHz x
        → PolicedIf (on_from_hz aead sum256 s nonce now x)
    unfolding on_from_hz on_unregister on_conn_req on_pow_req on_new_conn
    on_from_hz-Policed s nonce now (FromHz.unregister id) h a = (managed s _ h, cancelled _)
    on_from_hz-Policed s nonce now (FromHz.push msg) h a =
        (on_push-Stocked y s msg h a, on_push-Sends s msg)
    on_from_hz-Policed s nonce now (FromHz.conn_req id) h a = (
      h,
      answered (find_in_progress s.manager id) _
          (y.conn_chall_allowed (create_cookie aead (new_conn_cookie nonce now id))),
    )
    on_from_hz-Policed s nonce now (FromHz.conn_chall id cookie) h a =
        on_conn_chall-Policed s id cookie h
    on_from_hz-Policed s nonce now (FromHz.conn_pow id n cookie) h a =
        on_conn_pow-Policed s now id n cookie h
    on_from_hz-Policed s nonce now (FromHz.pow_req id) h a = (
      h,
      answered (find_valid s.manager id) _
          (y.pow_chall_allowed (create_cookie aead (new_conn_cookie nonce now id))),
    )
    on_from_hz-Policed s nonce now (FromHz.pow_chall id cookie) h a =
        on_pow_chall-Policed s id cookie h
    on_from_hz-Policed s nonce now (FromHz.pow_pow id n cookie) h a =
        on_pow_pow-Policed s id n cookie h
    on_from_hz-Policed s nonce now (FromHz.new_conn conn) h a = (managed s _ h, tt)
