-- ===== src/Network/Handshake.antt =====
-- A node takes a peer in: the messages between the node that dials and the node that is dialled, in
-- gossip/strats/dummy.go, one after the other.
use whisper2peer.Base.{
  ℕ, ◌≡◌, ◌≤◌, ◌<◌, ◌^◌, refl, ap, ◌∙◌, false, Option, none, some, List, [], ◌∷◌, Bytes, ok, err,
  panics, length,
}
use whisper2peer.Goroutines.{Event}
use whisper2peer.Connections.{
  ConnectionId, Peer, find_valid, find_in_progress, find_to_be_proved, make_valid,
}
use whisper2peer.Connections.Classes.{make_valid-to_be_proved, make_valid-in_progress}
use whisper2peer.Cookie.{
  Aead, nonce_size, new_conn_cookie, create_cookie, first8bits0, compute_pow_start,
}
use whisper2peer.Cookie.Workers.{parallel_proof_of_work3}
use whisper2peer.Cookie.Handover.{parallel_proof_of_work3-check_proof_of_work}
use whisper2peer.HorizontalApi.{FromHz, ToHz}
use whisper2peer.HorizontalApi.Capnp.{Capnp}
use whisper2peer.HorizontalApi.Transmit.{create_message, ◌>>=◌}
use whisper2peer.HorizontalApi.Receive.{read_message}
use whisper2peer.HorizontalApi.Wire.{Result}
use whisper2peer.HorizontalApi.Members.{IsTyped}
use whisper2peer.HorizontalApi.RoundTrip.{arrival, read_message-create_message}
use whisper2peer.Strategy.{Strategy, Output, send, prove_conn, elapsed, pow_timeout}
use whisper2peer.Strategy.Handlers.{on_from_hz, on_conn_req, on_conn_chall, on_conn_proved}
use whisper2peer.Strategy.Authorisation.{on_conn_pow-honest}

abbrev received_of : {A : Type 0} → Result A → Option A
received_of (ok x) = some x
received_of (err e) = none
received_of panics = none

-- What a message becomes at the other end of its connection.
unfoldable pub crosses : Capnp → ConnectionId → ToHz → Option FromHz
crosses c id m = do root ← create_message c m; received_of (read_message c id root)

-- The only message that a handler sends.
abbrev pub only_message : List Output → Option ToHz
only_message (send conn m ∷ []) = some m
only_message _ = none

-- The only challenge that a handler starts a goroutine for.
abbrev pub only_challenge : List Output → Option (Peer × Bytes)
only_challenge (prove_conn peer cookie ∷ []) = some (peer, cookie)
only_challenge _ = none

-- Who takes part, and what is given: the result of the goroutine by `solve`, when `b` makes the
-- cookie by `made`, when the goroutine ends by `solved`, and when `b` looks at the answer by `now`.
module _ (c : Capnp) (aead_a aead_b : Aead) (sum256 : Bytes → Bytes) (solve : Bytes → Option ℕ)
    (random : Bytes) (made solved now : ℕ) (id_a id_b : ConnectionId) where
  -- The answer of `a` at `b`.
  abbrev answering : Strategy → Strategy × List Output → Option (Strategy × Strategy)
  answering b ended = do
    answer ← only_message ended.1
    received ← crosses c id_b answer
    taken ← on_from_hz aead_b sum256 b [] now received
    some (ended.0, taken.0)

  -- The goroutine of `a`.
  abbrev proving : Strategy → Strategy × List Output → Option (Strategy × Strategy)
  proving b started = do
    task ← only_challenge started.1
    nonce ← solve task.1
    answering b (on_conn_proved started.0 task.0 task.1 nonce false solved)

  -- The challenge of `b` at `a`.
  abbrev challenging : Strategy → Strategy × List Output → Option (Strategy × Strategy)
  challenging a asked = do
    question ← only_message asked.1
    arrived ← crosses c id_a question
    started ← on_from_hz aead_a sum256 a [] made arrived
    proving asked.0 started

  -- The node `a` sends its request, `b` answers with a challenge, a goroutine of `a` solves it, and
  -- `b` takes the answer.
  unfoldable pub handshake : Strategy → Strategy → Option (Strategy × Strategy)
  handshake a b = do
    request ← crosses c id_b ToHz.conn_req
    asked ← on_from_hz aead_b sum256 b random made request
    challenging a asked

crosses-arrival :
    (c : Capnp) (id : ConnectionId) (m : ToHz) (root : c.Struct)
    → IsTyped m
    → create_message c m ≡ some root
    → crosses c id m ≡ some (arrival id m)
unfolding crosses
crosses-arrival c id m root typed made =
    ap (λ o. o >>= λ root. received_of (read_message c id root)) made
    ∙ ap received_of (read_message-create_message c id m root typed made)

then_some :
    {A B : Type 0} {o : Option A} {x : A} → o ≡ some x → (f : A → Option B) → (o >>= f) ≡ f x
then_some e f = ap (λ o. o >>= f) e

conn_req-asked :
    (aead : Aead) (sum256 : Bytes → Bytes) (s : Strategy) (random : Bytes) (made : ℕ)
    (id : ConnectionId) (peer : Peer)
    → find_in_progress s.manager id ≡ some peer
    → on_from_hz aead sum256 s random made (FromHz.conn_req id)
      ≡ some (
        s,
        send peer.connection (ToHz.conn_chall (create_cookie aead (new_conn_cookie random made id)))
            ∷ [],
      )
unfolding on_from_hz on_conn_req
conn_req-asked aead sum256 s random made id peer e = rw e refl

conn_chall-started :
    (aead : Aead) (sum256 : Bytes → Bytes) (s : Strategy) (made : ℕ) (id : ConnectionId)
    (cookie : Bytes) (peer : Peer)
    → find_to_be_proved s.manager id ≡ some peer
    → on_from_hz aead sum256 s [] made (FromHz.conn_chall id cookie)
      ≡ some (s, prove_conn peer cookie ∷ [])
unfolding on_from_hz on_conn_chall
conn_chall-started aead sum256 s made id cookie peer e = rw (e, on_conn_chall) refl

-- The node that is dialled finds the peer that dials in progress, the other one has that peer among
-- those to whom it has to prove itself, and the messages between them can be written. The goroutine
-- gives a nonce that the parallel search finds for the cookie, on some schedule, and the answer comes
-- in time. Then neither node refuses anything, and each of them has the other as a valid peer: the
-- one that dialled from the time at which the search ended, and the other one from the time at which
-- it made the cookie.
pub handshake-valid :
    (c : Capnp) (aead_a aead_b : Aead) (sum256 : Bytes → Bytes) (solve : Bytes → Option ℕ)
    (random : Bytes) (made solved now : ℕ) (id_a id_b : ConnectionId) (a b : Strategy)
    (peer_a peer_b : Peer) (start nonce : ℕ) (events : List Event)
    (request question answer : c.Struct)
    → let cookie = create_cookie aead_b (new_conn_cookie random made id_b) in
      find_to_be_proved a.manager id_a ≡ some peer_a
      → peer_a.connection.id ≡ id_a
      → find_valid a.manager id_a ≡ none
      → find_in_progress b.manager id_b ≡ some peer_b
      → find_valid b.manager id_b ≡ none
      → find_to_be_proved b.manager id_b ≡ none
      → length random ≡ nonce_size
      → made < 2 ^ 64
      → elapsed now made ≤ pow_timeout
      → solve cookie ≡ some nonce
      → parallel_proof_of_work3 sum256 first8bits0 (compute_pow_start cookie start) events
        ≡ ok (some nonce)
      → nonce < 2 ^ 64
      → create_message c ToHz.conn_req ≡ some request
      → create_message c (ToHz.conn_chall cookie) ≡ some question
      → create_message c (ToHz.conn_pow nonce cookie) ≡ some answer
      → let a' = record a { manager = make_valid a.manager id_a solved } in
        let b' = record b { manager = make_valid b.manager id_b made } in
        (handshake c aead_a aead_b sum256 solve random made solved now id_a id_b a b
          ≡ some (a', b'))
        × (find_valid a'.manager id_a ≡ some peer_a)
        × (find_valid b'.manager id_b ≡ some peer_b)
unfolding handshake on_from_hz on_conn_proved
handshake-valid c aead_a aead_b sum256 solve random made solved now id_a id_b a b peer_a peer_b
      start nonce events request question answer to_prove same fresh_a in_progress fresh_b listening
      sized range timely solves found small req chall pow =
    let cookie = create_cookie aead_b (new_conn_cookie random made id_b) in
    let proved =
      parallel_proof_of_work3-check_proof_of_work sum256 first8bits0
        (compute_pow_start cookie start) events nonce found in
    let taken =
      on_conn_pow-honest aead_b sum256 b now id_b nonce peer_b random made in_progress sized range
        proved timely in
    let b' = record b { manager = make_valid b.manager id_b made } in
    let req' = crosses-arrival c id_b ToHz.conn_req request tt req in
    let chall' = crosses-arrival c id_a (ToHz.conn_chall cookie) question tt chall in
    let pow' = crosses-arrival c id_b (ToHz.conn_pow nonce cookie) answer small pow in
    let challenging' = challenging c aead_a aead_b sum256 solve random made solved now id_a id_b in
    let proving' = proving c aead_a aead_b sum256 solve random made solved now id_a id_b in
    let answering' = answering c aead_a aead_b sum256 solve random made solved now id_a id_b in
    let last : Strategy × List Output → Option (Strategy × Strategy) =
      λ r. some ((on_conn_proved a peer_a cookie nonce false solved).0, r.0) in
    (
      then_some req' (λ x. on_from_hz aead_b sum256 b random made x >>= challenging' a)
          ∙ then_some (conn_req-asked aead_b sum256 b random made id_b peer_b in_progress)
              (challenging' a)
          ∙ then_some chall' (λ x. on_from_hz aead_a sum256 a [] made x >>= proving' b)
          ∙ then_some (conn_chall-started aead_a sum256 a made id_a cookie peer_a to_prove)
              (proving' b)
          ∙ then_some solves (λ n. answering' b (on_conn_proved a peer_a cookie n false solved))
          ∙ then_some pow' (λ x. on_from_hz aead_b sum256 b [] now x >>= last)
          ∙ then_some taken last
          ∙ ap (λ i. some (record a { manager = make_valid a.manager i solved }, b')) same,
      make_valid-to_be_proved a.manager id_a solved peer_a fresh_a to_prove,
      make_valid-in_progress b.manager id_b made peer_b fresh_b listening in_progress,
    )
