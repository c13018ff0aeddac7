-- ===== src/HorizontalApi/Wire.antt =====
-- The generated accessors of gossip/horizontalAPI/types/: a message holds a union of seven structs,
-- with the tag in the first two bytes of its data section and the struct behind its pointer.
use whisper2peer.Base.{
  ℕ, Bool, false, Option, none, some, Bytes, Outcome, ok, err, panics, ◌==◌, if◌then◌else◌,
}
use whisper2peer.HorizontalApi.Capnp.{Capnp}

pub data Error : Type 0 where
  unreadable not_valid : Error

abbrev pub Result : Type 0 → Type 0
Result A = Outcome Error A

module _ (c : Capnp) where
  -- `NewRootMessage`.
  abbrev pub new_root_message : Option c.Struct
  new_root_message = c.new_root_struct 8 1

  -- What the accessors of the union have in common, for the tag of a member.
  abbrev pub has_member : ℕ → c.Struct → Bool
  has_member tag s = if c.read s 0 2 == tag then c.has_ptr s 0 else false

  abbrev pub member : ℕ → c.Struct → Result c.Struct
  member tag s =
      if c.read s 0 2 == tag
      then elim (c.ptr s 0) [ none ↦ err unreadable | some p ↦ ok (c.ptr_struct p) ]
      else panics

  abbrev pub set_member : ℕ → c.Struct → c.Struct → Option c.Struct
  set_member tag s v = c.set_ptr (c.write s 0 2 tag) 0 (c.to_ptr v)

  abbrev pub has_push : c.Struct → Bool
  has_push = has_member 0

  abbrev pub get_push : c.Struct → Result c.Struct
  get_push = member 0

  abbrev pub set_push : c.Struct → c.Struct → Option c.Struct
  set_push = set_member 0

  abbrev pub has_conn_chall : c.Struct → Bool
  has_conn_chall = has_member 1

  abbrev pub get_conn_chall : c.Struct → Result c.Struct
  get_conn_chall = member 1

  abbrev pub set_conn_chall : c.Struct → c.Struct → Option c.Struct
  set_conn_chall = set_member 1

  abbrev pub has_conn_pow : c.Struct → Bool
  has_conn_pow = has_member 2

  abbrev pub get_conn_pow : c.Struct → Result c.Struct
  get_conn_pow = member 2

  abbrev pub set_conn_pow : c.Struct → c.Struct → Option c.Struct
  set_conn_pow = set_member 2

  abbrev pub has_conn_req : c.Struct → Bool
  has_conn_req = has_member 3

  abbrev pub get_conn_req : c.Struct → Result c.Struct
  get_conn_req = member 3

  abbrev pub set_conn_req : c.Struct → c.Struct → Option c.Struct
  set_conn_req = set_member 3

  abbrev pub has_pow_chall : c.Struct → Bool
  has_pow_chall = has_member 4

  abbrev pub get_pow_chall : c.Struct → Result c.Struct
  get_pow_chall = member 4

  abbrev pub set_pow_chall : c.Struct → c.Struct → Option c.Struct
  set_pow_chall = set_member 4

  abbrev pub has_pow_pow : c.Struct → Bool
  has_pow_pow = has_member 5

  abbrev pub get_pow_pow : c.Struct → Result c.Struct
  get_pow_pow = member 5

  abbrev pub set_pow_pow : c.Struct → c.Struct → Option c.Struct
  set_pow_pow = set_member 5

  abbrev pub has_pow_req : c.Struct → Bool
  has_pow_req = has_member 6

  abbrev pub get_pow_req : c.Struct → Result c.Struct
  get_pow_req = member 6

  abbrev pub set_pow_req : c.Struct → c.Struct → Option c.Struct
  set_pow_req = set_member 6

  -- Bytes behind the first pointer.
  abbrev pub bytes_field : c.Struct → Result Bytes
  bytes_field s = elim (c.ptr s 0) [ none ↦ err unreadable | some p ↦ ok (c.ptr_data p) ]

  -- `PushMsg`.
  abbrev pub new_push_msg : Option c.Struct
  new_push_msg = c.new_struct 8 1

  abbrev pub ttl : c.Struct → ℕ
  ttl s = c.read s 0 1

  abbrev pub set_ttl : c.Struct → ℕ → c.Struct
  set_ttl s v = c.write s 0 1 v

  abbrev pub gossip_type : c.Struct → ℕ
  gossip_type s = c.read s 2 2

  abbrev pub set_gossip_type : c.Struct → ℕ → c.Struct
  set_gossip_type s v = c.write s 2 2 v

  abbrev pub message_id : c.Struct → ℕ
  message_id s = c.read s 4 2

  abbrev pub set_message_id : c.Struct → ℕ → c.Struct
  set_message_id s v = c.write s 4 2 v

  abbrev pub payload : c.Struct → Result Bytes
  payload = bytes_field

  abbrev pub set_payload : c.Struct → Bytes → Option c.Struct
  set_payload s v = c.set_data s 0 v

  -- `ConnReq` and `PowReq`, which are empty.
  abbrev pub new_conn_req : Option c.Struct
  new_conn_req = c.new_struct 0 0

  abbrev pub new_pow_req : Option c.Struct
  new_pow_req = c.new_struct 0 0

  -- `ConnChall` and `PowChall`.
  abbrev pub new_conn_chall : Option c.Struct
  new_conn_chall = c.new_struct 0 1

  abbrev pub conn_chall_cookie : c.Struct → Result Bytes
  conn_chall_cookie = bytes_field

  abbrev pub set_conn_chall_cookie : c.Struct → Bytes → Option c.Struct
  set_conn_chall_cookie s v = c.set_data s 0 v

  abbrev pub new_pow_chall : Option c.Struct
  new_pow_chall = c.new_struct 0 1

  abbrev pub pow_chall_cookie : c.Struct → Result Bytes
  pow_chall_cookie = bytes_field

  abbrev pub set_pow_chall_cookie : c.Struct → Bytes → Option c.Struct
  set_pow_chall_cookie s v = c.set_data s 0 v

  -- `ConnPoW` and `PowPoW`.
  abbrev pub new_conn_pow : Option c.Struct
  new_conn_pow = c.new_struct 8 1

  abbrev pub conn_pow_nonce : c.Struct → ℕ
  conn_pow_nonce s = c.read s 0 8

  abbrev pub set_conn_pow_nonce : c.Struct → ℕ → c.Struct
  set_conn_pow_nonce s v = c.write s 0 8 v

  abbrev pub conn_pow_cookie : c.Struct → Result Bytes
  conn_pow_cookie = bytes_field

  abbrev pub set_conn_pow_cookie : c.Struct → Bytes → Option c.Struct
  set_conn_pow_cookie s v = c.set_data s 0 v

  abbrev pub new_pow_pow : Option c.Struct
  new_pow_pow = c.new_struct 8 1

  abbrev pub pow_pow_nonce : c.Struct → ℕ
  pow_pow_nonce s = c.read s 0 8

  abbrev pub set_pow_pow_nonce : c.Struct → ℕ → c.Struct
  set_pow_pow_nonce s v = c.write s 0 8 v

  abbrev pub pow_pow_cookie : c.Struct → Result Bytes
  pow_pow_cookie = bytes_field

  abbrev pub set_pow_pow_cookie : c.Struct → Bytes → Option c.Struct
  set_pow_pow_cookie s v = c.set_data s 0 v
