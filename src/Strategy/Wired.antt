-- ===== src/Strategy/Wired.antt =====
-- What a node of gossip/strats/dummy.go sends, as its peers read it by horizontalAPI.go.
use whisper2peer.Base.{
  ℕ, suc, ◌^◌, ◌≡◌, ◌<◌, Bool, true, false, some, List, [], ◌∷◌, ◌++◌, map, Bytes, ◌==◌,
  if◌then◌else◌, All, arith,
}
use whisper2peer.HorizontalApi.{Push, ToHz, FromHz}
use whisper2peer.HorizontalApi.Capnp.{Capnp}
use whisper2peer.HorizontalApi.Members.{IsTyped}
use whisper2peer.HorizontalApi.Transmit.{Sent, write_to_connection}
use whisper2peer.HorizontalApi.Receive.{handle_connection}
use whisper2peer.HorizontalApi.RoundTrip.{
  arrival, decoded, reaching, AllTyped, handle_connection-write_to_connection,
}
use whisper2peer.Connections.{ConnectionId, Manager}
use whisper2peer.Cookie.{Aead}
use whisper2peer.Strategy.{
  Strategy, Output, send, notify, cancel, prove_conn, prove_pow, convert_announce_to_push,
  lower_ttl, new_dummy,
}
use whisper2peer.Strategy.Run.{Event, listen}
use whisper2peer.Strategy.Policy.{Policy, Sends}
use whisper2peer.Strategy.Policed.{Admits}
use whisper2peer.Strategy.Course.{listen-Allowed}

-- The integers of an event are in the ranges of their types.
abbrev pub TypedEvent : Event → Type 0
TypedEvent (Event.from_hz nonce now (FromHz.push m)) = IsTyped (ToHz.push m)
TypedEvent (Event.announce id x) = (x.ttl < 256) × (x.data_type < 65536)
TypedEvent (Event.conn_proved peer cookie nonce closed now) = nonce < 2 ^ 64
TypedEvent (Event.pow_proved peer cookie nonce closed) = nonce < 2 ^ 64
TypedEvent _ = Unit

aged-IsTyped :
    (m : Push) → IsTyped (ToHz.push m) → IsTyped (ToHz.push (record m { ttl = lower_ttl m.ttl }))
unfolding lower_ttl
aged-IsTyped m h = (omega arith, h.1, h.2)

abbrev typing : Policy
typing = record {
  Relayed = λ m. IsTyped (ToHz.push m);
  Waiting = λ m. IsTyped (ToHz.push m);
  Allowed = IsTyped;
  relayed_aged = aged-IsTyped;
  waiting_aged = aged-IsTyped;
  conn_req_allowed = tt;
  pow_req_allowed = tt;
  conn_chall_allowed = λ cookie. tt;
  pow_chall_allowed = λ cookie. tt;
  push_allowed = λ m r. r;
}

admitted_hz :
    (nonce : Bytes) (now : ℕ) (x : FromHz)
    → TypedEvent (Event.from_hz nonce now x)
    → Admits typing (Event.from_hz nonce now x)
admitted_hz nonce now (FromHz.push m) h = h
admitted_hz nonce now (FromHz.unregister id) h = tt
admitted_hz nonce now (FromHz.conn_req id) h = tt
admitted_hz nonce now (FromHz.conn_chall id cookie) h = tt
admitted_hz nonce now (FromHz.conn_pow id n cookie) h = tt
admitted_hz nonce now (FromHz.pow_req id) h = tt
admitted_hz nonce now (FromHz.pow_chall id cookie) h = tt
admitted_hz nonce now (FromHz.pow_pow id n cookie) h = tt
admitted_hz nonce now (FromHz.new_conn conn) h = tt

admitted : (x : Event) → TypedEvent x → Admits typing x
unfolding convert_announce_to_push
admitted (Event.from_hz nonce now x) h = admitted_hz nonce now x h
admitted (Event.announce id x) h = (h.0, h.1, omega arith)
admitted (Event.validation x) h = λ accepted m r same. r
admitted (Event.tick perms) h = tt
admitted Event.renewal h = tt
admitted (Event.timeout now) h = tt
admitted (Event.conn_proved peer cookie nonce closed now) h = h
admitted (Event.pow_proved peer cookie nonce closed) h = h

admitted-All : (xs : List Event) → All TypedEvent xs → All (Admits typing) xs
admitted-All [] h = tt
admitted-All (x ∷ xs) h = (admitted x h.0, admitted-All xs h.1)

-- The messages for the connection with a channel, in their order.
unfoldable pub for_channel : ℕ → List Output → List ToHz
for_channel c [] = []
for_channel c (send conn m ∷ out) =
    if conn.chan == c then m ∷ for_channel c out else for_channel c out
for_channel c (notify m ∷ out) = for_channel c out
for_channel c (cancel conn ∷ out) = for_channel c out
for_channel c (prove_conn peer cookie ∷ out) = for_channel c out
for_channel c (prove_pow peer cookie ∷ out) = for_channel c out

-- The messages with what comes of their encoding, for each in turn.
unfoldable pub with_fates : (ℕ → Sent) → List ToHz → List (ToHz × Sent)
with_fates fates [] = []
with_fates fates (m ∷ ms) = (m, fates 0) ∷ with_fates (λ i. fates (suc i)) ms

if-All :
    (b : Bool) (m : ToHz) (ms : List ToHz)
    → IsTyped m
    → All IsTyped ms
    → All IsTyped (if b then m ∷ ms else ms)
if-All true m ms h hs = (h, hs)
if-All false m ms h hs = hs

for_channel-IsTyped :
    (c : ℕ) (out : List Output) → All (Sends IsTyped) out → All IsTyped (for_channel c out)
unfolding for_channel
for_channel-IsTyped c [] h = tt
for_channel-IsTyped c (send conn m ∷ out) h =
    if-All (conn.chan == c) m (for_channel c out) h.0 (for_channel-IsTyped c out h.1)
for_channel-IsTyped c (notify m ∷ out) h = for_channel-IsTyped c out h.1
for_channel-IsTyped c (cancel conn ∷ out) h = for_channel-IsTyped c out h.1
for_channel-IsTyped c (prove_conn peer cookie ∷ out) h = for_channel-IsTyped c out h.1
for_channel-IsTyped c (prove_pow peer cookie ∷ out) h = for_channel-IsTyped c out h.1

with_fates-AllTyped :
    (c : Capnp) (fates : ℕ → Sent) (ms : List ToHz)
    → All IsTyped ms
    → AllTyped c (with_fates fates ms)
unfolding with_fates
with_fates-AllTyped c fates [] h = tt
with_fates-AllTyped c fates (m ∷ ms) h = (h.0, with_fates-AllTyped c (λ i. fates (suc i)) ms h.1)

-- Whatever happens to a new node, as long as the integers of the events are in the ranges of their
-- types, what it sends on one channel reaches the strategy of the peer there as it was and in
-- order, in front of the end of the connection, but for what the writer could not send.
pub listen-handle_connection :
    (c : Capnp) (aead : Aead) (sum256 : Bytes → Bytes) (m : Manager) (cache_size degree : ℕ)
    (xs : List Event) (s : Strategy) (out : List Output) (channel : ℕ) (fates : ℕ → Sent)
    (id : ConnectionId)
    → All TypedEvent xs
    → listen aead sum256 (new_dummy m cache_size degree) xs ≡ some (s, out)
    → handle_connection c id
        (decoded c (write_to_connection c (with_fates fates (for_channel channel out))))
      ≡ (
        map (arrival id) (reaching c (with_fates fates (for_channel channel out)))
            ++ FromHz.unregister id ∷ [],
        false,
      )
listen-handle_connection c aead sum256 m cache_size degree xs s out channel fates id typed e =
    handle_connection-write_to_connection c id (with_fates fates (for_channel channel out)) (
      with_fates-AllTyped c fates (for_channel channel out) (
        for_channel-IsTyped channel out (
          listen-Allowed typing aead sum256 m cache_size degree xs s out (admitted-All xs typed)
            e)))
