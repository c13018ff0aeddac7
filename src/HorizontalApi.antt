-- ===== src/HorizontalApi.antt =====
-- gossip/horizontalAPI/horizontalAPI.go and its generated messages in gossip/horizontalAPI/types/:
-- the messages that the horizontal API passes to and from the strategy, and, in the child modules,
-- the reader and the writer of one connection to another node.
--
-- The capnp library is a parameter (HorizontalApi/Capnp), and calls of the network are events of the
-- table of connections (ConnTable).
pub mod Capnp
pub mod Wire
pub mod Receive
pub mod Transmit
pub mod Reader
pub mod Members
pub mod RoundTrip
pub mod Objects
pub mod Examples
use whisper2peer.Base.{ℕ, Bool, true, false, Bytes}
use whisper2peer.Connections.{ConnectionId, Conn}

-- A push message.
pub record Push : Type 0 where
  pub id : ConnectionId
  pub ttl : ℕ
  pub gossip_type : ℕ
  pub message_id : ℕ
  pub payload : Bytes

-- What the horizontal API sends to the strategy.
pub data FromHz : Type 0 where
  push : Push → FromHz
  conn_req : ConnectionId → FromHz
  conn_chall : ConnectionId → Bytes → FromHz
  conn_pow : ConnectionId → ℕ → Bytes → FromHz
  pow_req : ConnectionId → FromHz
  pow_chall : ConnectionId → Bytes → FromHz
  pow_pow : ConnectionId → ℕ → Bytes → FromHz
  unregister : ConnectionId → FromHz
  new_conn : Conn → FromHz

-- What the strategy sends to a connection. The id of a message is not sent.
pub data ToHz : Type 0 where
  push : Push → ToHz
  conn_req : ToHz
  conn_chall : Bytes → ToHz
  conn_pow : ℕ → Bytes → ToHz
  pow_req : ToHz
  pow_chall : Bytes → ToHz
  pow_pow : ℕ → Bytes → ToHz

-- `isPow`.
abbrev pub is_pow : ToHz → Bool
is_pow (ToHz.push m) = false
is_pow ToHz.conn_req = false
is_pow (ToHz.conn_chall cookie) = false
is_pow (ToHz.conn_pow nonce cookie) = false
is_pow ToHz.pow_req = true
is_pow (ToHz.pow_chall cookie) = true
is_pow (ToHz.pow_pow nonce cookie) = true
