-- ===== src/Strategy/Flow.antt =====
-- What becomes of a message in gossip/strats/dummy.go: it is notified once, and moves on with a
-- lower TTL when it is validated.
use mathlib.Core.List.{erase}
use whisper2peer.Base.{
  ℕ, ◌≡◌, refl, ap, ◌∙◌, inl, inr, Bool, true, false, some, [], ◌∷◌, find, ◌==◌, ==_refl,
  if◌then◌else◌, arith, Option-cases, Bool-cases, ◌&&◌, not, ◌-◌, ◌<◌, ℕ_discrete,
}
use whisper2peer.Messages.{GossipValidation}
use whisper2peer.Ringbuffer.{Ringbuffer, insert, remove}
use whisper2peer.Ringbuffer.Valid.{IsValid, elements, elements-insert, remove-Removed}
use whisper2peer.Ringbuffer.Search.{find_first-elements}
use whisper2peer.Connections.{Peer, find_valid}
use whisper2peer.Strategy.{
  Strategy, notify, convert_push_to_notification, find_first_message, store_message, accept_message,
  lower_ttl, on_validation,
}
use whisper2peer.HorizontalApi.{Push}
use whisper2peer.Strategy.Handlers.{is_known, on_push}

-- A message that has just been put into a buffer is found there.
pub find_first_message-insert :
    (messages : ℕ → Push) (r : Ringbuffer ℕ) (p : ℕ) (id : ℕ)
    → (messages p).message_id ≡ id
    → find_first_message messages (insert r p) id ≡ some p
unfolding find_first_message
find_first_message-insert messages r p id e =
    let (rest, shown) = elements-insert r p in
    find_first-elements (insert r p) (λ q. (messages q).message_id == id)
    ∙ ap (find (λ q. (messages q).message_id == id)) shown
    ∙ ground arith

-- The state after a push that is not dropped.
abbrev pub received : Strategy → Push → Strategy
received s msg =
    let (s', p) = store_message s msg in
    record s' { invalid_messages = insert s'.invalid_messages p }

-- A push that is not dropped.
pub on_push-new :
    (s : Strategy) (msg : Push) (peer : Peer)
    → find_valid s.manager msg.id ≡ some peer
    → is_known s msg.message_id ≡ false
    → on_push s msg ≡ (received s msg, notify (convert_push_to_notification msg) ∷ [])
unfolding on_push
on_push-new s msg peer e new = ground arith

-- A push of a known message.
on_push-known :
    (s : Strategy) (msg : Push) → is_known s msg.message_id ≡ true → on_push s msg ≡ (s, [])
unfolding on_push
on_push-known s msg known = elim (Option-cases (find_valid s.manager msg.id)) [
  | inl e ↦ ground arith
  | inr (q, e) ↦ ground arith
]

is_known-invalid :
    (s : Strategy) (id p : ℕ)
    → find_first_message s.messages s.invalid_messages id ≡ some p
    → is_known s id ≡ true
is_known-invalid s id p e = ground arith

-- After a push from a valid peer, its message is known.
is_known-push :
    (s : Strategy) (msg : Push) (peer : Peer)
    → find_valid s.manager msg.id ≡ some peer
    → is_known (on_push s msg).0 msg.message_id ≡ true
is_known-push s msg peer e = elim (Bool-cases (is_known s msg.message_id)) [
  | inl known ↦ rw (on_push-known s msg known) known
  | inr new ↦
      let messages : ℕ → Push = λ p. if s.stored == p then msg else s.messages p in
      let found =
        find_first_message-insert messages s.invalid_messages s.stored msg.message_id
          (rw (==_refl s.stored) refl) in
      rw (on_push-new s msg peer e new)
        (is_known-invalid (received s msg) msg.message_id s.stored found)
]

-- After a push from a valid peer, a push with the same message id is dropped without a
-- notification, from whatever peer it comes.
pub on_push-on_push :
    (s : Strategy) (msg msg' : Push) (peer : Peer)
    → find_valid s.manager msg.id ≡ some peer
    → msg'.message_id ≡ msg.message_id
    → on_push (on_push s msg).0 msg' ≡ ((on_push s msg).0, [])
on_push-on_push s msg msg' peer e same =
    on_push-known (on_push s msg).0 msg'
      (ap (is_known (on_push s msg).0) same ∙ is_known-push s msg peer e)

-- What the answer of a module leaves, for the message `p` that it is about. A TTL of 0 wraps to
-- 255.
pub record Answered (s : Strategy) (p : ℕ) (accepted : Bool) (s' : Strategy) : Type 0 where
  pub left : elements s'.invalid_messages ≡ erase ℕ_discrete (elements s.invalid_messages) p
  pub sent : s'.sent_messages ≡ (
      if accepted && ((s.messages p).ttl == 1) then insert s.sent_messages p else s.sent_messages)
  pub relayed : s'.valid_messages ≡ (
      if accepted && not ((s.messages p).ttl == 1)
      then insert s.valid_messages p
      else s.valid_messages)
  pub ttl : (s'.messages p).ttl ≡ (
      let old = (s.messages p).ttl in
      if accepted && not (old == 1) then (if old == 0 then 255 else old - 1) else old)

accept_message-Answered :
    (s : Strategy) (p : ℕ) (accepted : Bool)
    → (s.messages p).ttl < 256
    → IsValid s.invalid_messages
    → Answered s p accepted (
        accept_message
          (record s { invalid_messages = (remove ℕ_discrete s.invalid_messages p).0 })
          p
          accepted)
unfolding accept_message lower_ttl
accept_message-Answered s p true range h = record {
  left = ground (arith, remove-Removed ℕ_discrete p s.invalid_messages h);
  sent = ground arith;
  relayed = ground arith;
  ttl = ground (arith, ==_refl p);
}
accept_message-Answered s p false range h = record {
  left = ground (arith, remove-Removed ℕ_discrete p s.invalid_messages h);
  sent = ground arith;
  relayed = ground arith;
  ttl = ground arith;
}

-- The answer of a module about a message that is found in a valid buffer of the messages to be
-- validated, with a TTL below 256, takes it out of the buffer. If the module accepts it, it goes to
-- the buffer of those sent if its TTL is one, and else to the buffer of those to be relayed, with
-- its TTL lowered by one, or 255 for a TTL of 0. If not, these two buffers
-- and the TTL stay as they are.
pub on_validation-Answered :
    (s : Strategy) (x : GossipValidation) (p : ℕ)
    → find_first_message s.messages s.invalid_messages x.message_id ≡ some p
    → (s.messages p).ttl < 256
    → IsValid s.invalid_messages
    → Answered s p x.valid (on_validation s x)
unfolding on_validation
on_validation-Answered s x p e range h =
    rw (e, on_validation) (accept_message-Answered s p x.valid range h)
