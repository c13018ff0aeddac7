-- ===== src/TestBench/Topology.antt =====
-- gossip/internal/testutils/tester.go: how `Startup` starts the nodes of a graph, and the nodes in
-- gossip/internal/testutils/cfg.go.
--
-- An edge is a pair. That `Startup` leaves the ends of the edges in order is not kept, nor are the
-- map from the ids to the peers and their connections and diallers. The map of the peers is a list.
-- What the network does depends on the nodes that were started before.
pub mod Dialled
pub mod Read
use Prim.Native.String.{String, ◌++◌ as str_append}
use whisper2peer.Base.{
  ℕ, suc, not, Option, none, some, List, [], ◌∷◌, ◌==◌, ltb, keep, if◌then◌else◌,
}
use whisper2peer.Args.{Args}
use whisper2peer.Startup.{Network, InitError, run}

-- `node`, whose fields may be missing.
pub record NodeConfig : Type 0 where
  pub degree : Option ℕ
  pub cache_size : Option ℕ
  pub gossip_timer : Option ℕ

-- `Graph`.
pub record Topology : Type 0 where
  pub nodes : List NodeConfig
  pub edges : List (ℕ × ℕ)

-- `peer`.
pub record BenchPeer : Type 0 where
  pub idx : ℕ
  pub id : String
  pub args : Args

-- The map of the peers, and the arguments of the nodes that run.
pub record Bench : Type 0 where
  pub peers : List BenchPeer
  pub runs : List Args

abbrev pub or_default : Option ℕ → ℕ → ℕ
or_default none d = d
or_default (some x) d = x

abbrev pub ordered : ℕ × ℕ → ℕ × ℕ
ordered (a, b) = if ltb b a then (b, a) else (a, b)

-- `t.Peers[i]`.
unfoldable pub find_peer : ℕ → List BenchPeer → Option BenchPeer
find_peer i [] = none
find_peer i (p ∷ ps) = if p.idx == i then some p else find_peer i ps

-- `t.Peers[p.idx] = p`.
abbrev pub save_peer : BenchPeer → List BenchPeer → List BenchPeer
save_peer p ps = p ∷ keep (λ q. not (q.idx == p.idx)) ps

abbrev pub hz_addr_of : String → String
hz_addr_of host = str_append host ":7001"

-- The addresses that a node dials. Where a peer is missing, the nil pointer is a panic.
unfoldable pub peer_addrs : List BenchPeer → ℕ → List (ℕ × ℕ) → Option (List String)
peer_addrs ps i [] = some []
peer_addrs ps i (e ∷ es) =
    let rest = peer_addrs ps i es in
    if (ordered e).1 == i
    then elim (find_peer (ordered e).0 ps) [
      | none ↦ none
      | some p ↦ elim rest [ none ↦ none | some addrs ↦ some (p.args.hz_addr ∷ addrs) ]
    ]
    else rest

abbrev pub node_args : String → NodeConfig → List String → Args
node_args host config addrs = record {
  degree = or_default config.degree 30;
  cache_size = or_default config.cache_size 50;
  gossip_timer = or_default config.gossip_timer 1;
  hz_addr = hz_addr_of host;
  vert_addr = str_append host ":6001";
  peer_addrs = some addrs;
}

abbrev pub new_peer : ℕ → String → NodeConfig → List String → BenchPeer
new_peer i host config addrs = record { idx = i; id = host; args = node_args host config addrs }

-- How the loop over the nodes ends: behind the last one, at an error of one, at one that reports
-- nothing, or by a panic.
pub data Boot : Type 0 where
  booted : Bench → Boot
  failed : InitError → Bench → Boot
  waits : Bench → Boot
  crashed : Boot

-- What `initFin` brings of a node, if anything.
abbrev pub with_report : Boot → Bench → Option (Option InitError) → Boot
with_report rest b none = waits b
with_report rest b (some (some e)) = failed e b
with_report rest b (some none) = rest

-- A round of the loop behind the edges, with the rounds after it.
abbrev pub start_one :
    (List Args → Network)
    → String
    → NodeConfig
    → ℕ
    → Bench
    → (Bench → Boot)
    → Option (List String)
    → Boot
start_one nets host config i b rest none = crashed
start_one nets host config i b rest (some addrs) =
    let p = new_peer i host config addrs in
    let ps = save_peer p b.peers in
    let next : Bench = record { peers = ps; runs = p.args ∷ b.runs } in
    with_report (rest next) (record b { peers = ps }) (run (nets b.runs) p.args).sent

-- The loop over the nodes, from one of them on. A host is the text of an address, by its distance
-- from the first.
unfoldable pub start_nodes :
    (List Args → Network) → (ℕ → String) → List (ℕ × ℕ) → List NodeConfig → ℕ → Bench → Boot
start_nodes nets hosts edges [] i b = booted b
start_nodes nets hosts edges (config ∷ configs) i b =
    start_one nets (hosts i) config i b (start_nodes nets hosts edges configs (suc i))
      (peer_addrs b.peers i edges)
