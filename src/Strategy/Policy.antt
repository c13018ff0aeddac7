-- ===== src/Strategy/Policy.antt =====
-- What the messages in the buffers of gossip/strats/dummy.go have in common, as an interface.
use whisper2peer.Base.{
  ℕ, suc, ◌≡◌, ◌<◌, refl, subst, Bool, true, false, List, [], ◌∷◌, Bytes, ◌==◌, ==_refl,
  if◌then◌else◌, All, All-append, All-weaken, All-map, Bool-cases, Option-cases, inl, inr,
  ℕ_discrete, arith,
}
use whisper2peer.Messages.{GossipAnnounce, GossipValidation}
use whisper2peer.Ringbuffer.{insert, remove, extract_to_slice, new_ringbuffer}
use whisper2peer.Ringbuffer.Every.{
  Every, insert-Every, remove-Every, find_first-Every, extract_to_slice-Every,
}
use whisper2peer.HorizontalApi.{Push, ToHz}
use whisper2peer.Connections.{Manager, find_valid, permuted_valid}
use whisper2peer.Strategy.{
  Strategy, Output, send, notify, cancel, prove_conn, prove_pow, find_first_message, store_message,
  accept_message, lower_ttl, on_announce, on_validation, send_messages, on_tick,
  convert_announce_to_push, new_dummy,
}
use whisper2peer.Strategy.Handlers.{on_push, is_known}

-- What holds of each message to be relayed, of each to be validated, and of what is sent to a peer.
pub record Policy : Type 1 where
  pub Relayed : Push → Type 0
  pub Waiting : Push → Type 0
  pub Allowed : ToHz → Type 0
  pub relayed_aged : (m : Push) → Relayed m → Relayed (record m { ttl = lower_ttl m.ttl })
  pub waiting_aged : (m : Push) → Waiting m → Waiting (record m { ttl = lower_ttl m.ttl })
  pub conn_req_allowed : Allowed ToHz.conn_req
  pub pow_req_allowed : Allowed ToHz.pow_req
  pub conn_chall_allowed : (cookie : Bytes) → Allowed (ToHz.conn_chall cookie)
  pub pow_chall_allowed : (cookie : Bytes) → Allowed (ToHz.pow_chall cookie)
  pub push_allowed : (m : Push) → Relayed m → Allowed (ToHz.push m)

-- A pointer behind which a message stands.
abbrev pub Points : (Push → Type 0) → Strategy → ℕ → Type 0
Points P s p = (p < s.stored) × P (s.messages p)

abbrev pub Sends : (ToHz → Type 0) → Output → Type 0
Sends R (send c m) = R m
Sends R (notify m) = Unit
Sends R (cancel c) = Unit
Sends R (prove_conn peer cookie) = Unit
Sends R (prove_pow peer cookie) = Unit

module _ (y : Policy) where
  -- The two buffers of messages that are not sent yet hold messages that the policy has.
  pub record Stocked (s : Strategy) : Type 0 where
    pub relayed : Every (Points y.Relayed s) s.valid_messages
    pub waiting : Every (Points y.Waiting s) s.invalid_messages

  -- A message behind the next pointer leaves the others as they are.
  stored-All :
      (P : Push → Type 0) (s : Strategy) (m : Push) (ps : List ℕ)
      → All (Points P s) ps
      → All (Points P (store_message s m).0) ps
  stored-All P s m ps h =
      All-weaken (Points P s) (Points P (store_message s m).0)
        (λ p q. let other : (s.stored == p) ≡ false = ground arith in (omega arith, rw other q.1))
        ps h

  pub on_announce-Stocked :
      (s : Strategy) (id : ℕ) (x : GossipAnnounce)
      → Stocked s
      → y.Relayed (convert_announce_to_push id x)
      → Stocked (on_announce s id x)
  unfolding on_announce
  on_announce-Stocked s id x h r =
      let m = convert_announce_to_push id x in
      record {
        relayed =
            insert-Every (Points y.Relayed (store_message s m).0) s.valid_messages s.stored
              (omega arith, rw (==_refl s.stored) r)
              (stored-All y.Relayed s m s.valid_messages.ring h.relayed);
        waiting = stored-All y.Waiting s m s.invalid_messages.ring h.waiting;
      }

  pub on_push-Stocked :
      (s : Strategy) (m : Push) → Stocked s → y.Waiting m → Stocked (on_push s m).0
  unfolding on_push
  on_push-Stocked s m h w = elim (Option-cases (find_valid s.manager m.id)) [
    | inl e ↦ rw (e, on_push) h
    | inr (q, e) ↦ elim (Bool-cases (is_known s m.message_id)) [
      | inl known ↦ rw (e, on_push) (rw (known, on_push) h)
      | inr new ↦
          rw (e, on_push)
            (rw (new, on_push)
              (record {
                relayed = stored-All y.Relayed s m s.valid_messages.ring h.relayed;
                waiting =
                    insert-Every (Points y.Waiting (store_message s m).0) s.invalid_messages
                      s.stored (omega arith, rw (==_refl s.stored) w)
                      (stored-All y.Waiting s m s.invalid_messages.ring h.waiting);
              }))
    ]
  ]

  -- The TTL of a message is lowered in place.
  aged-All :
      (P : Push → Type 0) (s : Strategy) (p : ℕ) (ps : List ℕ)
      → ((m : Push) → P m → P (record m { ttl = lower_ttl m.ttl }))
      → All (Points P s) ps
      → All
          (λ q.
            (q < s.stored)
            × P (
                if p == q
                then record (s.messages p) { ttl = lower_ttl (s.messages p).ttl }
                else s.messages q))
          ps
  aged-All P s p ps aged h =
      All-weaken (Points P s) _
        (λ q r. (
          r.0,
          elim (Bool-cases (p == q)) [
            | inl e ↦
                let same : q ≡ p = ground arith in
                rw e (aged (s.messages p) (subst (λ x. P (s.messages x)) same r.1))
            | inr e ↦ rw e r.1
          ],
        ))
        ps h

  accept_message-Stocked :
      (s : Strategy) (p : ℕ) (accepted : Bool)
      → Stocked s
      → p < s.stored
      → (accepted ≡ true → y.Relayed (s.messages p))
      → Stocked (accept_message s p accepted)
  unfolding accept_message
  accept_message-Stocked s p false h held r = h
  accept_message-Stocked s p true h held r = elim (Bool-cases ((s.messages p).ttl == 1)) [
    | inl last ↦ rw last (record { relayed = h.relayed; waiting = h.waiting })
    | inr more ↦ rw more (record {
      relayed =
          insert-Every _ s.valid_messages p
            (held, rw (==_refl p) (y.relayed_aged (s.messages p) (r refl)))
            (aged-All y.Relayed s p s.valid_messages.ring y.relayed_aged h.relayed);
      waiting = aged-All y.Waiting s p s.invalid_messages.ring y.waiting_aged h.waiting;
    })
  ]

  pub on_validation-Stocked :
      (s : Strategy) (x : GossipValidation)
      → Stocked s
      → (x.valid ≡ true → (m : Push) → y.Waiting m → m.message_id ≡ x.message_id → y.Relayed m)
      → Stocked (on_validation s x)
  unfolding on_validation find_first_message
  on_validation-Stocked s x h promotes =
      elim (Option-cases (find_first_message s.messages s.invalid_messages x.message_id)) [
        | inl e ↦ rw (e, on_validation) h
        | inr (p, e) ↦
            let (w, hit) =
              find_first-Every (Points y.Waiting s) s.invalid_messages
                (λ q. (s.messages q).message_id == x.message_id) p h.waiting e in
            rw (e, on_validation)
              (accept_message-Stocked
                (record s { invalid_messages = (remove ℕ_discrete s.invalid_messages p).0 }) p
                x.valid
                (record {
                  relayed = h.relayed;
                  waiting =
                      remove-Every (Points y.Waiting s) ℕ_discrete s.invalid_messages p h.waiting;
                })
                w.0 (λ v. promotes v (s.messages p) w.1 (ground arith)))
      ]

  send_messages-Stocked :
      (s : Strategy) (ps : List ℕ) (perms : ℕ → List ℕ)
      → Stocked s
      → All (Points y.Relayed s) ps
      → Stocked (send_messages s ps perms).0 × All (Sends y.Allowed) (send_messages s ps perms).1
  unfolding send_messages
  send_messages-Stocked s [] perms h held = (h, tt)
  send_messages-Stocked s (p ∷ ps) perms h held =
      let s' = record s {
        valid_messages = (remove ℕ_discrete s.valid_messages p).0;
        sent_messages = insert s.sent_messages p;
      } in
      let (rest, sends) =
        send_messages-Stocked s' ps (λ i. perms (suc i))
          (record {
            relayed = remove-Every (Points y.Relayed s) ℕ_discrete s.valid_messages p h.relayed;
            waiting = h.waiting;
          })
          held.1 in
      (
        rest,
        All-append (Sends y.Allowed) _ _
            (All-map (Sends y.Allowed) (λ peer. send peer.connection (ToHz.push (s.messages p)))
              (λ peer. y.push_allowed (s.messages p) held.0.1)
              (permuted_valid s.manager (perms 0) s.degree))
            sends,
      )

  pub on_tick-Stocked :
      (s : Strategy) (perms : ℕ → List ℕ)
      → Stocked s
      → Stocked (on_tick s perms).0 × All (Sends y.Allowed) (on_tick s perms).1
  unfolding on_tick
  on_tick-Stocked s perms h =
      send_messages-Stocked s (extract_to_slice s.valid_messages) perms h
        (extract_to_slice-Every (Points y.Relayed s) s.valid_messages h.relayed)

  pub new_dummy-Stocked :
      (m : Manager) (cache_size degree : ℕ) → Stocked (new_dummy m cache_size degree)
  unfolding new_dummy new_ringbuffer
  new_dummy-Stocked m cache_size degree = record { relayed = tt; waiting = tt }
