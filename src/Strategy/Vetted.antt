-- ===== src/Strategy/Vetted.antt =====
-- Where the messages come from that a node of gossip/strats/dummy.go sends to its peers.
use whisper2peer.Base.{ℕ, ◌≡◌, ◌⊎◌, inl, inr, refl, true, some, List, [], ◌∷◌, Bytes, All}
use whisper2peer.Messages.{GossipAnnounce, GossipValidation}
use whisper2peer.HorizontalApi.{Push, ToHz, FromHz}
use whisper2peer.Connections.{Manager}
use whisper2peer.Cookie.{Aead}
use whisper2peer.Strategy.{Strategy, Output, convert_announce_to_push, new_dummy}
use whisper2peer.Strategy.Run.{Event, listen}
use whisper2peer.Strategy.Policy.{Policy, Sends}
use whisper2peer.Strategy.Policed.{Admits}
use whisper2peer.Strategy.Course.{listen-Allowed}

-- An event is one of a list.
pub data Occurs (x : Event) : List Event → Type 0 where
  here : (xs : List Event) → Occurs x (x ∷ xs)
  later : (z : Event) (xs : List Event) → Occurs x xs → Occurs x (z ∷ xs)

-- The same message, up to the TTL and the connection.
pub record Same (m w : Push) : Type 0 where
  pub same_id : m.message_id ≡ w.message_id
  pub same_type : m.gossip_type ≡ w.gossip_type
  pub same_payload : m.payload ≡ w.payload

-- The same id and type.
pub record Labelled (m w : Push) : Type 0 where
  pub labelled_id : m.message_id ≡ w.message_id
  pub labelled_type : m.gossip_type ≡ w.gossip_type

module _ (xs : List Event) where
  -- A peer has pushed the message.
  pub record Received (m : Push) : Type 0 where
    pub nonce : Bytes
    pub now : ℕ
    pub pushed : Push
    pub occurs : Occurs (Event.from_hz nonce now (FromHz.push pushed)) xs
    pub same : Same m pushed

  -- A module has announced a message with the id that was drawn and the type. Nothing is said of the
  -- payload, which is a slice of the buffer of the reader.
  pub record Announced (m : Push) : Type 0 where
    pub random : ℕ
    pub announce : GossipAnnounce
    pub occurs : Occurs (Event.announce random announce) xs
    pub labelled : Labelled m (convert_announce_to_push random announce)

  -- A module has accepted the message that a peer has pushed.
  pub record Validated (m : Push) : Type 0 where
    pub verdict : GossipValidation
    pub occurs : Occurs (Event.validation verdict) xs
    pub accepted : verdict.valid ≡ true
    pub about : m.message_id ≡ verdict.message_id
    pub received : Received m

  abbrev pub Vetted : Push → Type 0
  Vetted m = Announced m ⊎ Validated m

  abbrev pub AllowedPush : ToHz → Type 0
  AllowedPush (ToHz.push m) = Vetted m
  AllowedPush _ = Unit

  aged : (m : Push) (t : ℕ) → Received m → Received (record m { ttl = t })
  aged m t r = record {
    nonce = r.nonce;
    now = r.now;
    pushed = r.pushed;
    occurs = r.occurs;
    same = record {
      same_id = r.same.same_id;
      same_type = r.same.same_type;
      same_payload = r.same.same_payload;
    };
  }

  Vetted-aged : (m : Push) (t : ℕ) → Vetted m → Vetted (record m { ttl = t })
  Vetted-aged m t (inl a) = inl (record {
    random = a.random;
    announce = a.announce;
    occurs = a.occurs;
    labelled = record {
      labelled_id = a.labelled.labelled_id;
      labelled_type = a.labelled.labelled_type;
    };
  })
  Vetted-aged m t (inr v) = inr (record {
    verdict = v.verdict;
    occurs = v.occurs;
    accepted = v.accepted;
    about = v.about;
    received = aged m t v.received;
  })

  abbrev vetting : Policy
  vetting = record {
    Relayed = Vetted;
    Waiting = Received;
    Allowed = AllowedPush;
    relayed_aged = λ m r. Vetted-aged m _ r;
    waiting_aged = λ m r. aged m _ r;
    conn_req_allowed = tt;
    pow_req_allowed = tt;
    conn_chall_allowed = λ cookie. tt;
    pow_chall_allowed = λ cookie. tt;
    push_allowed = λ m r. r;
  }

  admitted_hz :
      (nonce : Bytes) (now : ℕ) (x : FromHz)
      → Occurs (Event.from_hz nonce now x) xs
      → Admits vetting (Event.from_hz nonce now x)
  admitted_hz nonce now (FromHz.push m) o = record {
    nonce = nonce;
    now = now;
    pushed = m;
    occurs = o;
    same = record { same_id = refl; same_type = refl; same_payload = refl };
  }
  admitted_hz nonce now (FromHz.unregister id) o = tt
  admitted_hz nonce now (FromHz.conn_req id) o = tt
  admitted_hz nonce now (FromHz.conn_chall id cookie) o = tt
  admitted_hz nonce now (FromHz.conn_pow id n cookie) o = tt
  admitted_hz nonce now (FromHz.pow_req id) o = tt
  admitted_hz nonce now (FromHz.pow_chall id cookie) o = tt
  admitted_hz nonce now (FromHz.pow_pow id n cookie) o = tt
  admitted_hz nonce now (FromHz.new_conn conn) o = tt

  admitted : (x : Event) → Occurs x xs → Admits vetting x
  admitted (Event.from_hz nonce now x) o = admitted_hz nonce now x o
  admitted (Event.announce id x) o = inl (record {
    random = id;
    announce = x;
    occurs = o;
    labelled = record { labelled_id = refl; labelled_type = refl };
  })
  admitted (Event.validation x) o = λ accepted m r same.
      inr (record { verdict = x; occurs = o; accepted = accepted; about = same; received = r })
  admitted (Event.tick perms) o = tt
  admitted Event.renewal o = tt
  admitted (Event.timeout now) o = tt
  admitted (Event.conn_proved peer cookie nonce closed now) o = tt
  admitted (Event.pow_proved peer cookie nonce closed) o = tt

  admitted-All :
      (zs : List Event) → ((x : Event) → Occurs x zs → Occurs x xs) → All (Admits vetting) zs
  admitted-All [] inside = tt
  admitted-All (z ∷ zs) inside = (
    admitted z (inside z (Occurs.here zs)),
    admitted-All zs (λ x o. inside x (Occurs.later z zs o)),
  )

-- Whatever happens to a new node, each push that it sends to a peer either carries the type of a
-- message that a module has announced and the id that was drawn for it, or the id, the type and the
-- payload of a message that a peer has pushed and whose id a module has accepted. Of the payload of
-- an announced message nothing is said: the node holds it in the buffer of the module's reader.
pub listen-Vetted :
    (aead : Aead) (sum256 : Bytes → Bytes) (m : Manager) (cache_size degree : ℕ) (xs : List Event)
    (s : Strategy) (out : List Output)
    → listen aead sum256 (new_dummy m cache_size degree) xs ≡ some (s, out)
    → All (Sends (AllowedPush xs)) out
listen-Vetted aead sum256 m cache_size degree xs s out e =
    listen-Allowed (vetting xs) aead sum256 m cache_size degree xs s out
      (admitted-All xs xs (λ x o. o)) e
