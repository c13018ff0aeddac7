-- ===== src/Strategy.antt =====
-- gossip/strats/dummy.go: the gossip strategy of a node, as one handler for each case of the
-- `select` in `Listen`.
--
-- A `*storedMessage` is a pointer into a store of push messages, since its TTL is changed in
-- place. A handler gives the new state and what it sends; `none` is a panic, which ends the
-- process. The clock, the random numbers and the results of the proof-of-work goroutines are
-- arguments: the handler of a challenge starts a goroutine, and the goroutine's end is an event of
-- its own. The payload of an announced message is stored as a value. In the code it is a slice of
-- the buffer of the module's reader, which later packets of the module may write to
-- (VerticalApi/Buffers); no handler looks into a payload, so this changes nothing but the bytes
-- that are relayed.
pub mod Handlers
pub mod Authorisation
pub mod Flow
pub mod Tick
pub mod Steps
pub mod Run
pub mod Relay
pub mod Dropped
pub mod Policy
pub mod Policed
pub mod Course
pub mod Vetted
pub mod Wired
pub mod Examples
use mathlib.Core.List.{foldl}
use whisper2peer.Base.{
  ℕ, suc, ◌+◌, ◌-◌, ◌*◌, ◌%◌, ◌^◌, Bool, true, false, Option, none, some, List, [], ◌∷◌, ◌++◌, map,
  Bytes, ℕ_discrete, ltb, leb, ◌==◌, not, if◌then◌else◌,
}
use whisper2peer.Messages.{GossipAnnounce, GossipNotification, GossipValidation}
use whisper2peer.HorizontalApi.{Push, ToHz}
use whisper2peer.Ringbuffer.{
  Ringbuffer, insert, remove, find_first, extract_to_slice, new_ringbuffer,
}
use whisper2peer.Connections.{
  ConnectionId, Conn, Peer, Status, Manager, write, permuted_valid, cull_connections,
}

-- What a handler does beyond its state: it sends to a connection or to the main component, cancels
-- a connection's context, or starts a search for a proof of work over a cookie.
pub data Output : Type 0 where
  send : Conn → ToHz → Output
  notify : GossipNotification → Output
  cancel : Conn → Output
  prove_conn : Peer → Bytes → Output
  prove_pow : Peer → Bytes → Output

pub record Strategy : Type 0 where
  pub manager : Manager
  pub messages : ℕ → Push
  pub stored : ℕ
  pub invalid_messages : Ringbuffer ℕ
  pub valid_messages : Ringbuffer ℕ
  pub sent_messages : Ringbuffer ℕ
  pub degree : ℕ

abbrev pub Handled : Type 0
Handled = Option (Strategy × List Output)

-- 7 seconds.
abbrev pub pow_timeout : ℕ
pow_timeout = 7000000000

-- `time.Now().Sub(t)` for a time `t` as its 64-bit pattern, where a time after now counts as now:
-- both uses compare the difference with a positive duration.
unfoldable pub elapsed : ℕ → ℕ → ℕ
elapsed now t = if ltb t (2 ^ 63) then now - t else now + (2 ^ 64 - t)

unfoldable pub find_first_message : (ℕ → Push) → Ringbuffer ℕ → ℕ → Option ℕ
find_first_message messages ring message_id =
    find_first ring (λ p. (messages p).message_id == message_id)

-- Given the random id, which is below 65535.
unfoldable pub convert_announce_to_push : ℕ → GossipAnnounce → Push
convert_announce_to_push id msg = record {
  id = [];
  ttl = msg.ttl;
  gossip_type = msg.data_type;
  message_id = id % 2 ^ 16;
  payload = msg.payload;
}

unfoldable pub convert_push_to_notification : Push → GossipNotification
convert_push_to_notification msg = record {
  message_id = msg.message_id;
  data_type = msg.gossip_type;
  payload = msg.payload;
}

-- `NewDummy`, with the buffers of the configured capacity.
unfoldable pub new_dummy : Manager → ℕ → ℕ → Strategy
new_dummy manager cache_size degree = record {
  manager = manager;
  messages = λ _. record { id = []; ttl = 0; gossip_type = 0; message_id = 0; payload = [] };
  stored = 0;
  invalid_messages = new_ringbuffer cache_size;
  valid_messages = new_ringbuffer cache_size;
  sent_messages = new_ringbuffer cache_size;
  degree = degree;
}

-- `&storedMessage{msg}`.
abbrev pub store_message : Strategy → Push → Strategy × ℕ
store_message s msg = (
  record s { messages = λ p. if s.stored == p then msg else s.messages p; stored = suc s.stored },
  s.stored,
)

-- The case `common.GossipAnnounce`, with the payload as it is at that moment.
unfoldable pub on_announce : Strategy → ℕ → GossipAnnounce → Strategy
unfolding convert_announce_to_push
on_announce s id x =
    let (s', p) = store_message s (convert_announce_to_push id x) in
    record s' { valid_messages = insert s'.valid_messages p }

-- `max(TTL-1, 0)` on a `uint8`.
unfoldable pub lower_ttl : ℕ → ℕ
lower_ttl ttl = (ttl + 255) % 256

-- The part of `common.GossipValidation` behind the check of the error.
pub accept_message : Strategy → ℕ → Bool → Strategy
unfolding lower_ttl
accept_message s p false = s
accept_message s p true =
    let msg = s.messages p in
    if msg.ttl == 1 then record s { sent_messages = insert s.sent_messages p } else record s {
      messages = λ q. if p == q then record msg { ttl = lower_ttl msg.ttl } else s.messages q;
      valid_messages = insert s.valid_messages p;
    }

-- The case `common.GossipValidation`. Where there is no such message, `Remove` is given a nil
-- pointer, which is not in the buffer.
unfoldable pub on_validation : Strategy → GossipValidation → Strategy
unfolding accept_message
on_validation s x = elim (find_first_message s.messages s.invalid_messages x.message_id) [
  | none ↦ s
  | some p ↦
      accept_message (record s { invalid_messages = (remove ℕ_discrete s.invalid_messages p).0 }) p
        x.valid
]

-- The loop of `ticker.C` over the slice of the valid messages; `perms` are the permutations drawn,
-- one for each message in turn.
unfoldable pub send_messages : Strategy → List ℕ → (ℕ → List ℕ) → Strategy × List Output
send_messages s [] perms = (s, [])
send_messages s (p ∷ ps) perms =
    let s' = record s {
      valid_messages = (remove ℕ_discrete s.valid_messages p).0;
      sent_messages = insert s.sent_messages p;
    } in
    let (s'', rest) = send_messages s' ps (λ i. perms (suc i)) in
    (
      s'',
      map (λ peer. send peer.connection (ToHz.push (s.messages p)))
            (permuted_valid s.manager (perms 0) s.degree)
          ++ rest,
    )

unfoldable pub on_tick : Strategy → (ℕ → List ℕ) → Strategy × List Output
on_tick s perms = send_messages s (extract_to_slice s.valid_messages) perms

-- `ActionOnValid` of `renewalTicker.C`.
mark_requested : (ℕ → Status) → List Peer → ℕ → Status
mark_requested store [] = store
mark_requested store (p ∷ ps) =
    mark_requested
      (write store p.ptr (record { timestamp = (store p.ptr).timestamp; sent_pow_req = true })) ps

unfoldable pub on_renewal : Strategy → Strategy × List Output
unfolding mark_requested
on_renewal s = (
  record s {
    manager = record s.manager {
      store = mark_requested s.manager.store s.manager.open_connections;
    };
  },
  map (λ p. send p.connection ToHz.pow_req) s.manager.open_connections,
)

-- `isConnectionInvalid` at the time `now`.
unfoldable pub is_connection_invalid : ℕ → Peer → Status → Bool
unfolding elapsed
is_connection_invalid now p st = not (ltb (elapsed now st.timestamp) pow_timeout)

unfoldable pub on_timeout : Strategy → ℕ → Strategy
on_timeout s now = record s { manager = cull_connections s.manager (is_connection_invalid now) }

-- What `Listen` sends before its loop.
unfoldable pub on_start : Strategy → List Output
on_start s = map (λ e. send e.1.connection ToHz.conn_req) s.manager.to_be_proved
