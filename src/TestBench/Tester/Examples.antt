-- ===== src/TestBench/Tester/Examples.antt =====
-- A ring of three nodes.
use mathlib.Core.List.{Perm}
use Prim.Native.String.{String}
use text.Mathlib.Text.{◌==◌ as str_eq}
use text.Mathlib.TextPositions.{eq_refl}
use whisper2peer.Base.{
  ℕ, zero, suc, ◌≡◌, ◌<◌, ◌==◌, ◌||◌, Bool, false, Bool-cases, inl, inr, ◌≢◌, refl, true, none,
  some, Option, List, [], ◌∷◌, map, arith, All,
}
use whisper2peer.Args.{Args}
use whisper2peer.Startup.{Network}
use whisper2peer.TestBench.{Event}
use whisper2peer.TestBench.Sorting.{InOrder, insertion_sort, insertion_sort-Sorts}
use whisper2peer.TestBench.Topology.{
  NodeConfig, Topology, Bench, booted, crashed, hz_addr_of, find_peer, peer_addrs, start_nodes,
}
use whisper2peer.TestBench.Topology.Dialled.{
  dialling, config_at, first_addrs, Loopback, start_nodes-booted,
}
use whisper2peer.TestBench.Tester.{
  least_time, Tester, processing, done, panics, new_tester, startup, teardown,
}
use whisper2peer.TestBench.Tester.Times.{IsLeast, startup-teardown}

abbrev hosts : ℕ → String
hosts zero = "127.0.0.1"
hosts (suc zero) = "127.0.0.2"
hosts (suc (suc i)) = "127.0.0.3"

-- The degree of the second node is set.
abbrev plain : NodeConfig
plain = record { degree = none; cache_size = none; gossip_timer = none }

abbrev ring : Topology
ring = record {
  nodes = plain ∷ record plain { degree = some 7 } ∷ plain ∷ [];
  edges = (0, 1) ∷ (2, 1) ∷ (0, 2) ∷ [];
}

abbrev contains : String → List String → Bool
contains addr [] = false
contains addr (a ∷ addrs) = str_eq a addr || contains addr addrs

-- Each address can be listened on, and those of the nodes that run can be dialled.
abbrev open_net : List Args → Network
open_net runs = record {
  listens = λ _ _. true;
  splits = λ _. true;
  dials = λ addr. contains addr (map (λ a. a.hz_addr) runs);
}

contains-first_addrs :
    (i j : ℕ) → j < i → contains (hz_addr_of (hosts j)) (first_addrs hosts i) ≡ true
contains-first_addrs zero j lt = absurd (omega (arith, lt))
contains-first_addrs (suc i) j lt = elim (Bool-cases (i == j)) [
  | inl here ↦ let e : i ≡ j = ground (arith, here) in rw (e, eq_refl (hz_addr_of (hosts j))) refl
  | inr further ↦ ground (arith, contains-first_addrs i j (ground (arith, lt, further)))
]

open_net-Loopback : Loopback open_net hosts
open_net-Loopback = record {
  valid = λ runs i. refl;
  vertical_free = λ runs i e. refl;
  horizontal_free = λ runs i e. refl;
  dialled = λ runs i j e lt. rw e (contains-first_addrs i j lt);
}

ring-loopless : All (λ e. e.0 ≢ e.1) ring.edges
ring-loopless = (λ e. omega (arith, e), (λ e. omega (arith, e), (λ e. omega (arith, e), tt)))

-- What the last node dials.
dialled_last :
    (dialling hosts ring.edges (config_at ring.nodes) 2).args.peer_addrs
    ≡ some ("127.0.0.2:7001" ∷ "127.0.0.1:7001" ∷ [])
dialled_last = refl

-- A node with an edge to itself looks itself up before it is in the map.
self_loop :
    start_nodes open_net hosts ((0, 0) ∷ []) (plain ∷ []) 0 (record { peers = []; runs = [] })
    ≡ crashed
unfolding start_nodes peer_addrs find_peer
self_loop = refl

-- `Teardown` calls `cfunc` before it looks at the state.
never_started : teardown (λ es. es) 9 9 (new_tester ring) ≡ panics
unfolding teardown
never_started = refl

start_nodes-booted_example :
    (b : Bench) × (start_nodes open_net hosts ring.edges ring.nodes 0
        (record { peers = []; runs = [] })
      ≡ booted b)
    × ((i : ℕ)
        → i < 3
        → find_peer i b.peers ≡ some (dialling hosts ring.edges (config_at ring.nodes) i))
start_nodes-booted_example = start_nodes-booted open_net hosts ring open_net-Loopback ring-loopless

-- The address given is the first one.
abbrev parse : String → Option (ℕ → String)
parse addr = some hosts

-- A packet sent before the first event, in a bucket of time.
abbrev events : List Event
events =
    record {
      time = 9;
      id = "127.0.0.1";
      msg = "hz packet sent";
      msg_type = 0;
      cnt = 2;
      time_bucket = 5;
    }
    ∷ record {
      time = 8;
      id = "127.0.0.1";
      msg = "announce";
      msg_type = 0;
      cnt = 0;
      time_bucket = 0;
    }
    ∷ []

bucket_first : least_time 20 events ≡ 5
unfolding least_time
bucket_first = refl

abbrev by_time : List Event → List Event
by_time es = insertion_sort (λ e. e.time) es

startup-teardown_example :
    (t t' : Tester) × (startup open_net (λ _. true) parse (new_tester ring) "" ≡ done t)
    × (teardown by_time 20 21 (record t { events = events }) ≡ done t')
    × (t'.state ≡ processing)
    × Perm t'.events events
    × InOrder (λ e. e.time) 0 t'.events
    × IsLeast 20 events t'.tmin
startup-teardown_example =
    startup-teardown open_net (λ _. true) parse hosts ring "" by_time events 20 21 refl
      open_net-Loopback ring-loopless (λ p. refl) (insertion_sort-Sorts (λ e. e.time))
