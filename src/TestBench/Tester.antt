-- ===== src/TestBench/Tester.antt =====
-- gossip/internal/testutils/tester.go: the life of a tester, with `AddLogger`, `Startup` and
-- `Teardown`.
--
-- What is closed at the end is left out. Times are arguments.
pub mod Times
pub mod Examples
use Prim.Native.String.{String}
use text.Mathlib.Text.{◌==◌ as str_eq}
use whisper2peer.Base.{
  ℕ, suc, Bool, true, false, not, Option, none, some, List, [], ◌∷◌, ◌==◌, ◌&&◌, ltb, if◌then◌else◌,
}
use whisper2peer.Args.{Args}
use whisper2peer.Startup.{Network}
use whisper2peer.TestBench.{Event}
use whisper2peer.TestBench.Topology.{
  Topology, BenchPeer, Bench, Boot, booted, failed, waits, crashed, start_nodes,
}

pub data TestState : Type 0 where
  init running processing : TestState

-- `cancels` says whether `cfunc` is set.
pub record Tester : Type 0 where
  pub topology : Topology
  pub bench : Bench
  pub loggers : ℕ
  pub events : List Event
  pub state : TestState
  pub cancels : Bool
  pub tmin : ℕ
  pub tmax : ℕ

-- `NewTesterFromJSON`, where the file can be read.
abbrev pub new_tester : Topology → Tester
new_tester g = record {
  topology = g;
  bench = record { peers = []; runs = [] };
  loggers = 0;
  events = [];
  state = init;
  cancels = false;
  tmin = 0;
  tmax = 0;
}

-- What a call does: it returns without or with an error, waits for ever, or panics.
pub data Reply : Type 0 where
  done : Tester → Reply
  refused : Tester → Reply
  blocks : Reply
  panics : Reply

-- A call that a state allows.
abbrev pub only_init : Reply → TestState → Tester → Reply
only_init reply init t = reply
only_init reply running t = refused t
only_init reply processing t = refused t

abbrev pub only_running : Reply → TestState → Tester → Reply
only_running reply init t = refused t
only_running reply running t = reply
only_running reply processing t = refused t

abbrev pub add_logger : Tester → Reply
add_logger t = only_init (done (record t { loggers = suc t.loggers })) t.state t

-- The loop over `connect`, which stops at the first error.
abbrev pub connect_all : (BenchPeer → Bool) → List BenchPeer → Bool
connect_all connects [] = true
connect_all connects (p ∷ ps) = connects p && connect_all connects ps

-- `Startup` behind the loop over the nodes.
abbrev pub after_boot : (BenchPeer → Bool) → Tester → Boot → Reply
after_boot connects t (booted b) =
    if connect_all connects b.peers
    then done (record t { bench = b; state = running })
    else refused (record t { bench = b })
after_boot connects t (failed e b) = refused (record t { bench = b })
after_boot connects t (waits b) = blocks
after_boot connects t crashed = panics

-- `Startup` behind the address: the hosts are the texts of the address and those behind it.
abbrev pub boot : (List Args → Network) → (BenchPeer → Bool) → Tester → Option (ℕ → String) → Reply
boot nets connects t none = refused t
boot nets connects t (some hosts) =
    after_boot connects t (start_nodes nets hosts t.topology.edges t.topology.nodes 0 t.bench)

abbrev pub start_address : String → String
start_address ip = if str_eq ip "" then "127.0.0.1" else ip

unfoldable pub startup :
    (List Args → Network)
    → (BenchPeer → Bool)
    → (String → Option (ℕ → String))
    → Tester
    → String
    → Reply
startup nets connects parse_addr t start_ip =
    only_init
      (boot nets connects (record t { cancels = true }) (parse_addr (start_address start_ip)))
      t.state t

-- A round of the loop over the events.
abbrev pub earliest : Event → ℕ → ℕ
earliest e tmin =
    let tmin' = if ltb e.time tmin then e.time else tmin in
    if not (e.time_bucket == 0) && ltb e.time_bucket tmin' then e.time_bucket else tmin'

unfoldable pub least_time : ℕ → List Event → ℕ
least_time tmin [] = tmin
least_time tmin (e ∷ es) = least_time (earliest e tmin) es

-- The sort of the library is a parameter, and so are the two times that are read.
abbrev pub torn_down : (List Event → List Event) → ℕ → ℕ → Tester → Tester
torn_down sort_by_time now later t = record t {
  tmin = least_time now t.events;
  tmax = later;
  events = sort_by_time t.events;
  state = processing;
}

-- `Teardown`, which calls `cfunc` first.
unfoldable pub teardown : (List Event → List Event) → ℕ → ℕ → Tester → Reply
teardown sort_by_time now later t =
    if t.cancels then only_running (done (torn_down sort_by_time now later t)) t.state t else panics
