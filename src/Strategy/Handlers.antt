-- ===== src/Strategy/Handlers.antt =====
-- The cases of gossip/strats/dummy.go for the messages of peers, over the cipher and the hash.
use whisper2peer.Base.{
  ℕ, Bool, true, false, Option, none, some, List, [], ◌∷◌, Bytes, bytes_discrete, ite, Outcome, ok,
  err, panics, ltb, not, if◌then◌else◌,
}
use whisper2peer.Ringbuffer.{insert}
use whisper2peer.Connections.{
  ConnectionId, Conn, Peer, write, alloc, unsafe_remove, make_valid, add_in_progress, find_valid,
  find_in_progress, find_to_be_proved,
}
use whisper2peer.Cookie.{
  Aead, ConnCookie, Error, new_conn_cookie, create_cookie, read_cookie, first8bits0,
  check_proof_of_work,
}
use whisper2peer.Strategy.{
  Strategy, Output, send, notify, cancel, prove_conn, prove_pow, Handled, elapsed, pow_timeout,
  find_first_message, convert_push_to_notification, store_message,
}
use whisper2peer.HorizontalApi.{Push, FromHz, ToHz}

-- `dummy.connManager.Remove(id)`, whose results the handlers drop.
abbrev pub drop_peer : Strategy → ConnectionId → Strategy
drop_peer s id = record s { manager = (unsafe_remove s.manager id).0 }

unfoldable pub on_unregister : Strategy → ConnectionId → Strategy × List Output
on_unregister s id =
    let (m, removed) = unsafe_remove s.manager id in
    (record s { manager = m }, elim removed [ none ↦ [] | some peer ↦ cancel peer.connection ∷ [] ])

-- A message that no buffer holds is stored, and the main component is notified.
abbrev pub is_known : Strategy → ℕ → Bool
is_known s message_id = elim (find_first_message s.messages s.sent_messages message_id) [
  | some _ ↦ true
  | none ↦ elim (find_first_message s.messages s.valid_messages message_id) [
    | some _ ↦ true
    | none ↦ elim (find_first_message s.messages s.invalid_messages message_id) [
      | some _ ↦ true
      | none ↦ false
    ]
  ]
]

unfoldable pub on_push : Strategy → Push → Strategy × List Output
on_push s msg = elim (find_valid s.manager msg.id) [
  | none ↦ (s, [])
  | some _ ↦
      if is_known s msg.message_id
      then (s, [])
      else let (s', p) = store_message s msg in
        (
          record s' { invalid_messages = insert s'.invalid_messages p },
          notify (convert_push_to_notification msg) ∷ [],
        )
]

unfoldable pub on_new_conn : Strategy → Conn → Strategy
on_new_conn s conn =
    let (m, peer) = alloc s.manager conn in record s { manager = add_in_progress m peer }

unfoldable pub on_conn_chall : Strategy → ConnectionId → Bytes → Strategy × List Output
on_conn_chall s id cookie = elim (find_to_be_proved s.manager id) [
  | none ↦ (drop_peer s id, [])
  | some peer ↦ (s, prove_conn peer cookie ∷ [])
]

-- The end of the goroutine that `ConnChall` starts; `closed` says that the connection's context
-- is done.
unfoldable pub on_conn_proved : Strategy → Peer → Bytes → ℕ → Bool → ℕ → Strategy × List Output
on_conn_proved s peer cookie nonce true now = (s, [])
on_conn_proved s peer cookie nonce false now = (
  record s { manager = make_valid s.manager peer.connection.id now },
  send peer.connection (ToHz.conn_pow nonce cookie) ∷ [],
)

unfoldable pub on_pow_chall : Strategy → ConnectionId → Bytes → Strategy × List Output
on_pow_chall s id cookie = elim (find_valid s.manager id) [
  | none ↦ (drop_peer s id, [])
  | some peer ↦
      if not (s.manager.store peer.ptr).sent_pow_req
      then (drop_peer s id, [])
      else (s, prove_pow peer cookie ∷ [])
]

-- The end of the goroutine that `PowChall` starts.
unfoldable pub on_pow_proved : Strategy → Peer → Bytes → ℕ → Bool → Strategy × List Output
on_pow_proved s peer cookie nonce true = (s, [])
on_pow_proved s peer cookie nonce false =
    let store = s.manager.store in
    (
      record s {
        manager = record s.manager {
          store =
              write store peer.ptr
                (record { timestamp = (store peer.ptr).timestamp; sent_pow_req = false });
        };
      },
      send peer.connection (ToHz.pow_pow nonce cookie) ∷ [],
    )

module _ (aead : Aead) (sum256 : Bytes → Bytes) where
  unfoldable pub on_conn_req : Strategy → Bytes → ℕ → ConnectionId → Strategy × List Output
  on_conn_req s nonce now id = (
    s,
    elim (find_in_progress s.manager id) [
      | none ↦ []
      | some peer ↦
          send peer.connection (ToHz.conn_chall (create_cookie aead (new_conn_cookie nonce now id)))
          ∷ []
    ],
  )

  unfoldable pub on_pow_req : Strategy → Bytes → ℕ → ConnectionId → Strategy × List Output
  on_pow_req s nonce now id = (
    s,
    elim (find_valid s.manager id) [
      | none ↦ []
      | some peer ↦
          send peer.connection (ToHz.pow_chall (create_cookie aead (new_conn_cookie nonce now id)))
          ∷ []
    ],
  )

  -- The checks that `ConnPoW` and `PowPoW` share, from the cookie to the destination: the cookie
  -- of an answer that passes, `none` for one that does not.
  unfoldable pub check_answer : ConnectionId → ℕ → Bytes → Outcome Error (Option ConnCookie)
  check_answer id nonce cookie = elim (read_cookie aead cookie) [
    | panics ↦ panics
    | err e ↦ ok none
    | ok c ↦
        elim (check_proof_of_work sum256 first8bits0
          (record { pow_nonce = nonce; cookie = cookie })) [
            | panics ↦ panics
            | err e ↦ ok none
            | ok valid ↦
                if not valid
                then ok none
                else ite (bytes_discrete c.dest id) (ok (some c)) (ok none)
          ]
  ]

  unfoldable pub on_conn_pow : Strategy → ℕ → ConnectionId → ℕ → Bytes → Handled
  on_conn_pow s now id nonce cookie = elim (find_in_progress s.manager id) [
    | none ↦ some (drop_peer s id, [])
    | some _ ↦ elim (check_answer id nonce cookie) [
      | panics ↦ none
      | err e ↦ none
      | ok none ↦ some (drop_peer s id, [])
      | ok (some c) ↦
          if ltb pow_timeout (elapsed now c.timestamp)
          then some (drop_peer s id, [])
          else some (record s { manager = make_valid s.manager id c.timestamp }, [])
    ]
  ]

  unfoldable pub on_pow_pow : Strategy → ConnectionId → ℕ → Bytes → Handled
  on_pow_pow s id nonce cookie = elim (find_valid s.manager id) [
    | none ↦ some (drop_peer s id, [])
    | some _ ↦ elim (check_answer id nonce cookie) [
      | panics ↦ none
      | err e ↦ none
      | ok none ↦ some (drop_peer s id, [])
      | ok (some c) ↦ some (record s { manager = make_valid s.manager id c.timestamp }, [])
    ]
  ]

  -- The `switch` on the message of a peer; `nonce` and `now` are what a new cookie draws.
  unfoldable pub on_from_hz : Strategy → Bytes → ℕ → FromHz → Handled
  on_from_hz s nonce now (FromHz.unregister id) = some (on_unregister s id)
  on_from_hz s nonce now (FromHz.push msg) = some (on_push s msg)
  on_from_hz s nonce now (FromHz.conn_req id) = some (on_conn_req s nonce now id)
  on_from_hz s nonce now (FromHz.conn_chall id cookie) = some (on_conn_chall s id cookie)
  on_from_hz s nonce now (FromHz.conn_pow id n cookie) = on_conn_pow s now id n cookie
  on_from_hz s nonce now (FromHz.pow_req id) = some (on_pow_req s nonce now id)
  on_from_hz s nonce now (FromHz.pow_chall id cookie) = some (on_pow_chall s id cookie)
  on_from_hz s nonce now (FromHz.pow_pow id n cookie) = on_pow_pow s id n cookie
  on_from_hz s nonce now (FromHz.new_conn conn) = some (on_new_conn s conn, [])
