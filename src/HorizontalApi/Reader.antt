-- ===== src/HorizontalApi/Reader.antt =====
-- The reader of horizontalAPI.go ends without a panic, whatever the peer sends.
use whisper2peer.Base.{
  ◌≡◌, ◌≢◌, refl, true, false, none, some, List, [], ◌∷◌, ◌++◌, ok, err, panics, arith,
}
use whisper2peer.Connections.{ConnectionId}
use whisper2peer.HorizontalApi.{FromHz}
use whisper2peer.HorizontalApi.Capnp.{Capnp}
use whisper2peer.HorizontalApi.Wire.{Result}
use whisper2peer.HorizontalApi.Receive.{
  Decoded, message, broken, read_message, read_push, read_conn_req, read_conn_chall, read_conn_pow,
  read_pow_req, read_pow_chall, read_pow_pow, handle_connection,
}

module _ (c : Capnp) where
  -- The messages that a connection brings before it ends.
  abbrev pub readable : ConnectionId → List (Decoded c) → List FromHz
  readable id [] = []
  readable id (broken true ∷ ds) = []
  readable id (broken false ∷ ds) = readable id ds
  readable id (message none ∷ ds) = readable id ds
  readable id (message (some msg) ∷ ds) = elim (read_message c id msg) [
    | ok x ↦ x ∷ readable id ds
    | err e ↦ readable id ds
    | panics ↦ readable id ds
  ]

  -- The tag that a test has seen is the one that the accessor wants.
  read_message-ne-panics : (id : ConnectionId) (msg : c.Struct) → read_message c id msg ≢ panics
  unfolding read_message read_push read_conn_req read_conn_chall read_conn_pow read_pow_req
      read_pow_chall read_pow_pow
  read_message-ne-panics id msg e = ground arith

  handle_connection-readable_of :
      (id : ConnectionId) (msg : c.Struct) (ds : List (Decoded c)) (r : Result FromHz)
      → read_message c id msg ≡ r
      → handle_connection c id ds ≡ (readable id ds ++ FromHz.unregister id ∷ [], false)
      → handle_connection c id (message (some msg) ∷ ds)
        ≡ (readable id (message (some msg) ∷ ds) ++ FromHz.unregister id ∷ [], false)
  unfolding handle_connection
  handle_connection-readable_of id msg ds (ok x) e ih =
      rw (e, handle_connection, readable) (rw (ih, handle_connection) refl)
  handle_connection-readable_of id msg ds (err x) e ih = rw (e, handle_connection, readable) ih
  handle_connection-readable_of id msg ds panics e ih = absurd (read_message-ne-panics id msg e)

  -- The reader does not panic, whatever its decoder gives: it sends the messages that can be read,
  -- in order, up to an error with the context of the connection done or to the end of the stream,
  -- and then unregisters the connection once.
  pub handle_connection-readable :
      (id : ConnectionId) (ds : List (Decoded c))
      → handle_connection c id ds ≡ (readable id ds ++ FromHz.unregister id ∷ [], false)
  unfolding handle_connection
  handle_connection-readable id [] = refl
  handle_connection-readable id (broken true ∷ ds) = refl
  handle_connection-readable id (broken false ∷ ds) = handle_connection-readable id ds
  handle_connection-readable id (message none ∷ ds) = handle_connection-readable id ds
  handle_connection-readable id (message (some msg) ∷ ds) =
      handle_connection-readable_of id msg ds (read_message c id msg) refl
        (handle_connection-readable id ds)
