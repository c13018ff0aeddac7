-- ===== src/HorizontalApi/Members.antt =====
-- The members of a message of horizontalAPI.go, as they are set and as they are read.
use whisper2peer.Base.{ℕ, ◌^◌, ◌≡◌, ◌<◌, inr, refl, ◌∙◌, true, some, Bytes, ok, arith}
use whisper2peer.Connections.{ConnectionId}
use whisper2peer.HorizontalApi.{Push, FromHz, ToHz}
use whisper2peer.HorizontalApi.Capnp.{Capnp}
use whisper2peer.HorizontalApi.Wire.{
  new_root_message, set_member, member, bytes_field, new_push_msg, set_ttl, set_gossip_type,
  set_message_id, set_payload,
}
use whisper2peer.HorizontalApi.Receive.{
  read_message, read_push, read_conn_req, read_conn_chall, read_conn_pow, read_pow_req,
  read_pow_chall, read_pow_pow,
}

-- The ranges of the integers of a message.
abbrev pub IsTyped : ToHz → Type 0
IsTyped (ToHz.push m) = (m.ttl < 256) × (m.gossip_type < 65536) × (m.message_id < 65536)
IsTyped (ToHz.conn_pow nonce cookie) = nonce < 2 ^ 64
IsTyped (ToHz.pow_pow nonce cookie) = nonce < 2 ^ 64
IsTyped ToHz.conn_req = Unit
IsTyped (ToHz.conn_chall cookie) = Unit
IsTyped ToHz.pow_req = Unit
IsTyped (ToHz.pow_chall cookie) = Unit

module _ (c : Capnp) where
  -- A root that carries the struct `v` as the member with the tag.
  pub record Carries (tag : ℕ) (v root : c.Struct) : Type 0 where
    tagged : c.read root 0 2 ≡ tag
    present : c.has_ptr root 0 ≡ true
    behind : (p : c.Ptr) × (c.ptr root 0 ≡ some p) × (c.ptr_struct p ≡ v)

  pub set_member-Carries :
      (tag : ℕ) (msg v root : c.Struct)
      → tag < 65536
      → new_root_message c ≡ some msg
      → set_member c tag msg v ≡ some root
      → Carries tag v root
  set_member-Carries tag msg v root small made set =
      let sized = c.data_size-new_root_struct 8 1 msg made in
      record {
        tagged =
            c.read-set_ptr (c.write msg 0 2 tag) root 0 (c.to_ptr v) 0 2 set
            ∙ c.read-write msg 0 2 tag (omega arith) (omega (arith, sized)) small;
        present = c.has_ptr-set_ptr (c.write msg 0 2 tag) root 0 v set;
        behind = (
          c.to_ptr v,
          c.ptr-set_ptr (c.write msg 0 2 tag) root 0 (c.to_ptr v) set,
          c.ptr_struct-to_ptr v,
        );
      }

  member-Carries : (tag : ℕ) (v root : c.Struct) → Carries tag v root → member c tag root ≡ ok v
  member-Carries tag v root h = let (p, at, is) = h.behind in ground (arith, h.tagged, at, is)

  pub bytes_field-set_data :
      (s s' : c.Struct) (b : Bytes) → c.set_data s 0 b ≡ some s' → bytes_field c s' ≡ ok b
  bytes_field-set_data s s' b e = ground (arith, c.ptr-set_data s s' 0 b e)

  pub read_conn_req-carried :
      (id : ConnectionId) (v root : c.Struct)
      → Carries 3 v root
      → read_message c id root ≡ ok (FromHz.conn_req id)
  unfolding read_message read_conn_req
  read_conn_req-carried id v root h = ground (arith, h.tagged, h.present, member-Carries 3 v root h)

  pub read_pow_req-carried :
      (id : ConnectionId) (v root : c.Struct)
      → Carries 6 v root
      → read_message c id root ≡ ok (FromHz.pow_req id)
  unfolding read_message read_pow_req
  read_pow_req-carried id v root h = ground (arith, h.tagged, h.present, member-Carries 6 v root h)

  pub read_conn_chall-carried :
      (id : ConnectionId) (v root : c.Struct) (cookie : Bytes)
      → Carries 1 v root
      → bytes_field c v ≡ ok cookie
      → read_message c id root ≡ ok (FromHz.conn_chall id cookie)
  unfolding read_message read_conn_chall
  read_conn_chall-carried id v root cookie h b =
      let (p, at, is) = h.behind in rw (h.tagged, h.present) (rw (at, is, b) refl)

  pub read_pow_chall-carried :
      (id : ConnectionId) (v root : c.Struct) (cookie : Bytes)
      → Carries 4 v root
      → bytes_field c v ≡ ok cookie
      → read_message c id root ≡ ok (FromHz.pow_chall id cookie)
  unfolding read_message read_pow_chall
  read_pow_chall-carried id v root cookie h b =
      let (p, at, is) = h.behind in rw (h.tagged, h.present) (rw (at, is, b) refl)

  pub read_conn_pow-carried :
      (id : ConnectionId) (v root : c.Struct) (nonce : ℕ) (cookie : Bytes)
      → Carries 2 v root
      → c.read v 0 8 ≡ nonce
      → bytes_field c v ≡ ok cookie
      → read_message c id root ≡ ok (FromHz.conn_pow id nonce cookie)
  unfolding read_message read_conn_pow
  read_conn_pow-carried id v root nonce cookie h m b =
      let (p, at, is) = h.behind in rw (h.tagged, h.present) (rw (at, is, b, m) refl)

  pub read_pow_pow-carried :
      (id : ConnectionId) (v root : c.Struct) (nonce : ℕ) (cookie : Bytes)
      → Carries 5 v root
      → c.read v 0 8 ≡ nonce
      → bytes_field c v ≡ ok cookie
      → read_message c id root ≡ ok (FromHz.pow_pow id nonce cookie)
  unfolding read_message read_pow_pow
  read_pow_pow-carried id v root nonce cookie h m b =
      let (p, at, is) = h.behind in rw (h.tagged, h.present) (rw (at, is, b, m) refl)

  pub read_push-carried :
      (id : ConnectionId) (v root : c.Struct) (m : Push)
      → Carries 0 v root
      → c.read v 0 1 ≡ m.ttl
      → c.read v 2 2 ≡ m.gossip_type
      → c.read v 4 2 ≡ m.message_id
      → bytes_field c v ≡ ok m.payload
      → read_message c id root ≡ ok (FromHz.push (record m { id = id }))
  unfolding read_message read_push
  read_push-carried id v root m h t g n b =
      let (p, at, is) = h.behind in rw (h.tagged, h.present) (rw (at, is, b, t, g, n) refl)

  -- The fields of the struct that is made for a push.
  pub push_fields :
      (m : Push) (s v : c.Struct)
      → IsTyped (ToHz.push m)
      → new_push_msg c ≡ some s
      → set_payload c
          (set_message_id c (set_gossip_type c (set_ttl c s m.ttl) m.gossip_type) m.message_id)
          m.payload
        ≡ some v
      → (c.read v 0 1 ≡ m.ttl) × (c.read v 2 2 ≡ m.gossip_type) × (c.read v 4 2 ≡ m.message_id)
  push_fields m s v typed made set =
      let a = set_ttl c s m.ttl in
      let b = set_gossip_type c a m.gossip_type in
      let sized = c.data_size-new_struct 8 1 s made in
      let sized_a : c.data_size a ≡ 8 = c.data_size-write s 0 1 m.ttl ∙ sized in
      let sized_b : c.data_size b ≡ 8 = c.data_size-write a 2 2 m.gossip_type ∙ sized_a in
      let all = c.read-set_data (set_message_id c b m.message_id) v 0 m.payload in
      (
        all 0 1 set
            ∙ c.read-write_other b 4 2 m.message_id 0 1 (inr (omega arith))
            ∙ c.read-write_other a 2 2 m.gossip_type 0 1 (inr (omega arith))
            ∙ c.read-write s 0 1 m.ttl (omega arith) (omega arith) typed.0,
        all 2 2 set
            ∙ c.read-write_other b 4 2 m.message_id 2 2 (inr (omega arith))
            ∙ c.read-write a 2 2 m.gossip_type (omega arith) (omega arith) typed.1,
        all 4 2 set ∙ c.read-write b 4 2 m.message_id (omega arith) (omega arith) typed.2,
      )

  pub nonce_field :
      (s v : c.Struct) (nonce : ℕ) (cookie : Bytes)
      → nonce < 2 ^ 64
      → c.new_struct 8 1 ≡ some s
      → c.set_data (c.write s 0 8 nonce) 0 cookie ≡ some v
      → c.read v 0 8 ≡ nonce
  nonce_field s v nonce cookie typed made set =
      let sized = c.data_size-new_struct 8 1 s made in
      c.read-set_data (c.write s 0 8 nonce) v 0 cookie 0 8 set
      ∙ c.read-write s 0 8 nonce (omega arith) (omega arith) typed
