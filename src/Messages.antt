-- ===== src/Messages.antt =====
-- gossip/common/types.go: the messages that the vertical API, the main component and the strategy
-- pass to one another.
use whisper2peer.Base.{ℕ, ◌+◌, ◌-◌, ◌%◌, Bool, true, false, Bytes, ◌==◌, if◌then◌else◌}

-- A connection of a registered module: its id, and the name of its channel, context and cancel
-- function, which belong to the one connection.
pub record Module : Type 0 where
  pub id : Bytes
  pub chan : ℕ

pub record GossipAnnounce : Type 0 where
  pub ttl : ℕ
  pub reserved : ℕ
  pub data_type : ℕ
  pub payload : Bytes

pub record GossipNotification : Type 0 where
  pub message_id : ℕ
  pub data_type : ℕ
  pub payload : Bytes

pub record GossipNotify : Type 0 where
  pub reserved : ℕ
  pub data_type : ℕ

pub record GossipValidation : Type 0 where
  pub message_id : ℕ
  pub bitfield : ℕ
  pub valid : Bool

-- Sets bit 0 of the bitfield beside the flag: `| 1` and `& ^1` of a 16-bit word.
unfoldable pub set_valid : GossipValidation → Bool → GossipValidation
set_valid e true = record e {
  valid = true;
  bitfield = if e.bitfield % 2 == 1 then e.bitfield else e.bitfield + 1;
}
set_valid e false = record e { valid = false; bitfield = e.bitfield - e.bitfield % 2 }

-- What the vertical API sends to the main component.
pub data FromVert : Type 0 where
  announce : GossipAnnounce → FromVert
  register : GossipNotify → Module → FromVert
  unregister : Bytes → FromVert
  validation : GossipValidation → FromVert

-- What the main component sends to the strategy.
pub data ToStrat : Type 0 where
  announce : GossipAnnounce → ToStrat
  validation : GossipValidation → ToStrat
