-- ===== src/HorizontalApi/Transmit.antt =====
-- `writeToConnection` of gossip/horizontalAPI/horizontalAPI.go: the writer of one connection.
use whisper2peer.Base.{Option, none, some, List, [], ◌∷◌, ◌++◌, if◌then◌else◌}
use whisper2peer.HorizontalApi.{ToHz, is_pow}
use whisper2peer.HorizontalApi.Capnp.{Capnp}
use whisper2peer.HorizontalApi.Wire.{
  new_root_message, new_push_msg, set_push, set_ttl, set_gossip_type, set_message_id, set_payload,
  new_conn_req, set_conn_req, new_conn_chall, set_conn_chall, set_conn_chall_cookie, new_conn_pow,
  set_conn_pow, set_conn_pow_nonce, set_conn_pow_cookie, new_pow_req, set_pow_req, new_pow_chall,
  set_pow_chall, set_pow_chall_cookie, new_pow_pow, set_pow_pow, set_pow_pow_nonce,
  set_pow_pow_cookie,
}

-- What comes of `Encode`: the message is sent, or there is an error, with or without the context of
-- the connection done.
pub data Sent : Type 0 where
  delivered failed closed : Sent

-- What the writer does: it counts a packet, for all packets or for those that are not for a
-- renewal, or encodes a message.
pub data Written (c : Capnp) : Type 0 where
  count count_non_pow : Written c
  encode : c.Struct → Written c

infixl 5 ◌>>=◌
abbrev pub ◌>>=◌ : {A B : Type 0} → Option A → (A → Option B) → Option B
none >>= f = none
some a >>= f = f a

module _ (c : Capnp) where
  -- The `switch` on the message, with the root that it is put in.
  unfoldable pub create_message : ToHz → Option c.Struct
  create_message (ToHz.push m) = do
    msg ← new_root_message c
    push ← new_push_msg c
    push' ←
        set_payload c
          (set_message_id c (set_gossip_type c (set_ttl c push m.ttl) m.gossip_type) m.message_id)
          m.payload
    set_push c msg push'
  create_message ToHz.conn_req = do
    msg ← new_root_message c
    req ← new_conn_req c
    set_conn_req c msg req
  create_message (ToHz.conn_chall cookie) = do
    msg ← new_root_message c
    chall ← new_conn_chall c
    chall' ← set_conn_chall_cookie c chall cookie
    set_conn_chall c msg chall'
  create_message (ToHz.conn_pow nonce cookie) = do
    msg ← new_root_message c
    pow ← new_conn_pow c
    pow' ← set_conn_pow_cookie c (set_conn_pow_nonce c pow nonce) cookie
    set_conn_pow c msg pow'
  create_message ToHz.pow_req = do
    msg ← new_root_message c
    req ← new_pow_req c
    set_pow_req c msg req
  create_message (ToHz.pow_chall cookie) = do
    msg ← new_root_message c
    chall ← new_pow_chall c
    chall' ← set_pow_chall_cookie c chall cookie
    set_pow_chall c msg chall'
  create_message (ToHz.pow_pow nonce cookie) = do
    msg ← new_root_message c
    pow ← new_pow_pow c
    pow' ← set_pow_pow_cookie c (set_pow_pow_nonce c pow nonce) cookie
    set_pow_pow c msg pow'

  -- The counters of a message that has been created.
  abbrev pub counts : ToHz → List (Written c)
  counts m = if is_pow m then count ∷ [] else count_non_pow ∷ count ∷ []

  -- The messages come with what comes of their encoding.
  unfoldable pub write_to_connection : List (ToHz × Sent) → List (Written c)
  write_to_connection [] = []
  write_to_connection ((m, sent) ∷ ms) = elim (create_message m) [
    | none ↦ write_to_connection ms
    | some root ↦ counts m ++ elim sent [
      | delivered ↦ encode root ∷ write_to_connection ms
      | failed ↦ write_to_connection ms
      | closed ↦ []
    ]
  ]
