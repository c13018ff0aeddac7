-- ===== src/TestBench.antt =====
-- gossip/internal/testutils/: the test bench, which runs networks of nodes and evaluates the events
-- that they log.
pub mod Sorting
pub mod Packets
pub mod Peer
pub mod Book
pub mod Distances
pub mod Topology
pub mod Tester
pub mod Reached
pub mod Register
use Prim.Native.String.{String}
use whisper2peer.Base.{ℕ}

-- What the evaluation uses of an `Event`. A time is a number of units since the zero time.
pub record Event : Type 0 where
  pub time : ℕ
  pub id : String
  pub msg : String
  pub msg_type : ℕ
  pub cnt : ℕ
  pub time_bucket : ℕ
