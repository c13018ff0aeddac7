-- ===== src/HorizontalApi/RoundTrip.antt =====
-- What one node writes by horizontalAPI.go, another node reads.
use whisper2peer.Base.{
  List, [], ◌∷◌, ◌++◌, map, Option-cases, ◌≡◌, inl, inr, refl, false, Option, none, some, ok, arith,
}
use whisper2peer.Connections.{ConnectionId}
use whisper2peer.HorizontalApi.{FromHz, ToHz}
use whisper2peer.HorizontalApi.Capnp.{Capnp}
use whisper2peer.HorizontalApi.Wire.{
  new_root_message, new_push_msg, new_conn_req, new_pow_req, new_conn_chall, new_pow_chall,
  new_conn_pow, new_pow_pow,
}
use whisper2peer.HorizontalApi.Receive.{Decoded, message, handle_connection, read_message}
use whisper2peer.HorizontalApi.Transmit.{
  Sent, delivered, failed, closed, Written, count, count_non_pow, encode, counts,
  write_to_connection, create_message, ◌>>=◌,
}
use whisper2peer.HorizontalApi.Members.{
  IsTyped, set_member-Carries, bytes_field-set_data, push_fields, nonce_field,
  read_conn_req-carried, read_pow_req-carried, read_conn_chall-carried, read_pow_chall-carried,
  read_conn_pow-carried, read_pow_pow-carried, read_push-carried,
}

-- The message of a connection's peer, as the strategy is given it.
abbrev pub arrival : ConnectionId → ToHz → FromHz
arrival id (ToHz.push m) = FromHz.push (record m { id = id })
arrival id ToHz.conn_req = FromHz.conn_req id
arrival id (ToHz.conn_chall cookie) = FromHz.conn_chall id cookie
arrival id (ToHz.conn_pow nonce cookie) = FromHz.conn_pow id nonce cookie
arrival id ToHz.pow_req = FromHz.pow_req id
arrival id (ToHz.pow_chall cookie) = FromHz.pow_chall id cookie
arrival id (ToHz.pow_pow nonce cookie) = FromHz.pow_pow id nonce cookie

>>=-eq_some :
    {A B : Type 0} (m : Option A) (f : A → Option B) (b : B)
    → (m >>= f) ≡ some b
    → (a : A) × (m ≡ some a) × (f a ≡ some b)
>>=-eq_some none f b e = absurd (ground arith)
>>=-eq_some (some a) f b e = (a, refl, e)

module _ (c : Capnp) where
  -- A message that a node has created is read by its peer as it was, under the connection's id.
  pub read_message-create_message :
      (id : ConnectionId) (m : ToHz) (root : c.Struct)
      → IsTyped m
      → create_message c m ≡ some root
      → read_message c id root ≡ ok (arrival id m)
  unfolding create_message
  read_message-create_message id (ToHz.push m) root typed e =
      let (msg, made, e1) = >>=-eq_some (new_root_message c) _ root e in
      let (s, made_s, e2) = >>=-eq_some (new_push_msg c) _ root e1 in
      let (v, set, e3) = >>=-eq_some _ _ root e2 in
      let (t, g, n) = push_fields c m s v typed made_s set in
      read_push-carried c id v root m (set_member-Carries c 0 msg v root (omega arith) made e3) t g
        n (bytes_field-set_data c _ v m.payload set)
  read_message-create_message id ToHz.conn_req root typed e =
      let (msg, made, e1) = >>=-eq_some (new_root_message c) _ root e in
      let (s, made_s, e2) = >>=-eq_some (new_conn_req c) _ root e1 in
      read_conn_req-carried c id s root (set_member-Carries c 3 msg s root (omega arith) made e2)
  read_message-create_message id ToHz.pow_req root typed e =
      let (msg, made, e1) = >>=-eq_some (new_root_message c) _ root e in
      let (s, made_s, e2) = >>=-eq_some (new_pow_req c) _ root e1 in
      read_pow_req-carried c id s root (set_member-Carries c 6 msg s root (omega arith) made e2)
  read_message-create_message id (ToHz.conn_chall cookie) root typed e =
      let (msg, made, e1) = >>=-eq_some (new_root_message c) _ root e in
      let (s, made_s, e2) = >>=-eq_some (new_conn_chall c) _ root e1 in
      let (v, set, e3) = >>=-eq_some _ _ root e2 in
      read_conn_chall-carried c id v root cookie
        (set_member-Carries c 1 msg v root (omega arith) made e3)
        (bytes_field-set_data c s v cookie set)
  read_message-create_message id (ToHz.pow_chall cookie) root typed e =
      let (msg, made, e1) = >>=-eq_some (new_root_message c) _ root e in
      let (s, made_s, e2) = >>=-eq_some (new_pow_chall c) _ root e1 in
      let (v, set, e3) = >>=-eq_some _ _ root e2 in
      read_pow_chall-carried c id v root cookie
        (set_member-Carries c 4 msg v root (omega arith) made e3)
        (bytes_field-set_data c s v cookie set)
  read_message-create_message id (ToHz.conn_pow nonce cookie) root typed e =
      let (msg, made, e1) = >>=-eq_some (new_root_message c) _ root e in
      let (s, made_s, e2) = >>=-eq_some (new_conn_pow c) _ root e1 in
      let (v, set, e3) = >>=-eq_some _ _ root e2 in
      read_conn_pow-carried c id v root nonce cookie
        (set_member-Carries c 2 msg v root (omega arith) made e3)
        (nonce_field c s v nonce cookie typed made_s set) (bytes_field-set_data c _ v cookie set)
  read_message-create_message id (ToHz.pow_pow nonce cookie) root typed e =
      let (msg, made, e1) = >>=-eq_some (new_root_message c) _ root e in
      let (s, made_s, e2) = >>=-eq_some (new_pow_pow c) _ root e1 in
      let (v, set, e3) = >>=-eq_some _ _ root e2 in
      read_pow_pow-carried c id v root nonce cookie
        (set_member-Carries c 5 msg v root (omega arith) made e3)
        (nonce_field c s v nonce cookie typed made_s set) (bytes_field-set_data c _ v cookie set)

  -- The messages of a writer's list that reach the peer: those that can be created and are sent,
  -- before the context of the connection is done.
  abbrev pub reaching : List (ToHz × Sent) → List ToHz
  reaching [] = []
  reaching ((m, sent) ∷ ms) = elim (create_message c m) [
    | none ↦ reaching ms
    | some root ↦ elim sent [ delivered ↦ m ∷ reaching ms | failed ↦ reaching ms | closed ↦ [] ]
  ]

  -- The roots that a writer encodes.
  abbrev pub encoded : List (Written c) → List c.Struct
  encoded [] = []
  encoded (encode root ∷ ws) = root ∷ encoded ws
  encoded (count ∷ ws) = encoded ws
  encoded (count_non_pow ∷ ws) = encoded ws

  -- What the peer's decoder gives for what a writer encodes.
  abbrev pub decoded : List (Written c) → List (Decoded c)
  decoded ws = map (λ root. message (some root)) (encoded ws)

  abbrev pub AllTyped : List (ToHz × Sent) → Type 0
  AllTyped [] = Unit
  AllTyped ((m, sent) ∷ ms) = IsTyped m × AllTyped ms

  handle_connection-cons :
      (id : ConnectionId) (root : c.Struct) (x : FromHz) (ds : List (Decoded c)) (xs : List FromHz)
      → read_message c id root ≡ ok x
      → handle_connection c id ds ≡ (xs, false)
      → handle_connection c id (message (some root) ∷ ds) ≡ (x ∷ xs, false)
  unfolding handle_connection
  handle_connection-cons id root x ds xs read rest =
      rw (read, handle_connection) (rw (rest, handle_connection) refl)

  encoded-counts : (m : ToHz) (ws : List (Written c)) → encoded (counts c m ++ ws) ≡ encoded ws
  encoded-counts (ToHz.push m) ws = refl
  encoded-counts ToHz.conn_req ws = refl
  encoded-counts (ToHz.conn_chall cookie) ws = refl
  encoded-counts (ToHz.conn_pow nonce cookie) ws = refl
  encoded-counts ToHz.pow_req ws = refl
  encoded-counts (ToHz.pow_chall cookie) ws = refl
  encoded-counts (ToHz.pow_pow nonce cookie) ws = refl

  -- Where the peer's decoder gives the messages that a writer has encoded, in order, the peer's
  -- strategy is given each of the messages that reach it, as it was and in order, and then the end
  -- of the connection, for messages with integers in the ranges of their types.
  pub handle_connection-write_to_connection :
      (id : ConnectionId) (ms : List (ToHz × Sent))
      → AllTyped ms
      → handle_connection c id (decoded (write_to_connection c ms))
        ≡ (map (arrival id) (reaching ms) ++ FromHz.unregister id ∷ [], false)
  unfolding write_to_connection handle_connection
  handle_connection-write_to_connection id [] h = refl
  handle_connection-write_to_connection id ((m, delivered) ∷ ms) h =
      elim (Option-cases (create_message c m)) [
        | inl e ↦
            rw (e, handle_connection, map, encoded)
              (handle_connection-write_to_connection id ms h.1)
        | inr (root, e) ↦
            rw (e, handle_connection, map, encoded)
              (rw
                (encoded-counts m (encode root ∷ write_to_connection c ms), handle_connection, map)
                (handle_connection-cons id root (arrival id m) (decoded (write_to_connection c ms))
                  (map (arrival id) (reaching ms) ++ FromHz.unregister id ∷ [])
                  (read_message-create_message id m root h.0 e)
                  (handle_connection-write_to_connection id ms h.1)))
      ]
  handle_connection-write_to_connection id ((m, failed) ∷ ms) h =
      elim (Option-cases (create_message c m)) [
        | inl e ↦
            rw (e, handle_connection, map, encoded)
              (handle_connection-write_to_connection id ms h.1)
        | inr (root, e) ↦
            rw (e, handle_connection, map, encoded)
              (rw (encoded-counts m (write_to_connection c ms), handle_connection, map)
                (handle_connection-write_to_connection id ms h.1))
      ]
  handle_connection-write_to_connection id ((m, closed) ∷ ms) h =
      elim (Option-cases (create_message c m)) [
        | inl e ↦
            rw (e, handle_connection, map, encoded)
              (handle_connection-write_to_connection id ms h.1)
        | inr (root, e) ↦
            rw (e, handle_connection, map, encoded)
              (rw (encoded-counts m [], handle_connection, map) refl)
      ]
