-- ===== src/HorizontalApi/Receive.antt =====
-- `handleConnection` of gossip/horizontalAPI/horizontalAPI.go: the reader of one connection.
use whisper2peer.Base.{
  Bool, true, false, Option, none, some, List, [], ◌∷◌, ok, err, panics, ◌>>=◌, if◌then◌else◌,
}
use whisper2peer.Connections.{ConnectionId}
use whisper2peer.HorizontalApi.{FromHz}
use whisper2peer.HorizontalApi.Capnp.{Capnp}
use whisper2peer.HorizontalApi.Wire.{
  Result, not_valid, has_push, get_push, has_conn_req, get_conn_req, has_conn_chall, get_conn_chall,
  has_conn_pow, get_conn_pow, has_pow_req, get_pow_req, has_pow_chall, get_pow_chall, has_pow_pow,
  get_pow_pow, ttl, gossip_type, message_id, payload, conn_chall_cookie, conn_pow_nonce,
  conn_pow_cookie, pow_chall_cookie, pow_pow_nonce, pow_pow_cookie,
}

-- The results of `Decode` before the end of the stream: a message, with the result of
-- `ReadRootMessage`, or an error that is not `io.EOF`, with whether the connection's context is
-- done.
pub data Decoded (c : Capnp) : Type 0 where
  message : Option c.Struct → Decoded c
  broken : Bool → Decoded c

module _ (c : Capnp) where
  -- The cases of the `switch` on the member of the union.
  unfoldable pub read_push : ConnectionId → c.Struct → Result FromHz
  read_push id msg = do
    push ← get_push c msg
    body ← payload c push
    ok (
        FromHz.push (record {
          id = id;
          ttl = ttl c push;
          gossip_type = gossip_type c push;
          message_id = message_id c push;
          payload = body;
        }))

  unfoldable pub read_conn_req : ConnectionId → c.Struct → Result FromHz
  read_conn_req id msg = do _ ← get_conn_req c msg; ok (FromHz.conn_req id)

  unfoldable pub read_conn_chall : ConnectionId → c.Struct → Result FromHz
  read_conn_chall id msg = do
    chall ← get_conn_chall c msg
    cookie ← conn_chall_cookie c chall
    ok (FromHz.conn_chall id cookie)

  unfoldable pub read_conn_pow : ConnectionId → c.Struct → Result FromHz
  read_conn_pow id msg = do
    pow ← get_conn_pow c msg
    cookie ← conn_pow_cookie c pow
    ok (FromHz.conn_pow id (conn_pow_nonce c pow) cookie)

  unfoldable pub read_pow_req : ConnectionId → c.Struct → Result FromHz
  read_pow_req id msg = do _ ← get_pow_req c msg; ok (FromHz.pow_req id)

  unfoldable pub read_pow_chall : ConnectionId → c.Struct → Result FromHz
  read_pow_chall id msg = do
    chall ← get_pow_chall c msg
    cookie ← pow_chall_cookie c chall
    ok (FromHz.pow_chall id cookie)

  unfoldable pub read_pow_pow : ConnectionId → c.Struct → Result FromHz
  read_pow_pow id msg = do
    pow ← get_pow_pow c msg
    cookie ← pow_pow_cookie c pow
    ok (FromHz.pow_pow id (pow_pow_nonce c pow) cookie)

  -- The `switch`, in which a struct without one of the members is logged.
  unfoldable pub read_message : ConnectionId → c.Struct → Result FromHz
  unfolding read_push read_conn_req read_conn_chall read_conn_pow read_pow_req read_pow_chall
      read_pow_pow
  read_message id msg =
      if has_push c msg
      then read_push id msg
      else if has_conn_req c msg
      then read_conn_req id msg
      else if has_conn_chall c msg
      then read_conn_chall id msg
      else if has_conn_pow c msg
      then read_conn_pow id msg
      else if has_pow_req c msg
      then read_pow_req id msg
      else if has_pow_chall c msg
      then read_pow_chall id msg
      else if has_pow_pow c msg
      then read_pow_pow id msg
      else err not_valid

  -- What the reader sends to the strategy, and whether it has panicked. The deferred calls, of
  -- which one unregisters the connection, run in each case. The list ends at `io.EOF`.
  unfoldable pub handle_connection : ConnectionId → List (Decoded c) → List FromHz × Bool
  handle_connection id [] = (FromHz.unregister id ∷ [], false)
  handle_connection id (broken true ∷ ds) = (FromHz.unregister id ∷ [], false)
  handle_connection id (broken false ∷ ds) = handle_connection id ds
  handle_connection id (message none ∷ ds) = handle_connection id ds
  handle_connection id (message (some msg) ∷ ds) = elim (read_message id msg) [
    | ok x ↦ let (xs, crashed) = handle_connection id ds in (x ∷ xs, crashed)
    | err e ↦ handle_connection id ds
    | panics ↦ (FromHz.unregister id ∷ [], true)
  ]
