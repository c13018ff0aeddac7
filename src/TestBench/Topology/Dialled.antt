-- ===== src/TestBench/Topology/Dialled.antt =====
-- Which nodes dial which: the node at the greater end of an edge dials the other one, which was
-- started before.
use Prim.Native.String.{String, ◌++◌ as str_append}
use whisper2peer.Base.{
  ℕ, zero, suc, ◌+◌, ◌≡◌, ◌≢◌, ◌<◌, refl, sym, ap, ◌∙◌, subst, true, false, not, none, some, List,
  [], ◌∷◌, map, ◌==◌, keep, arith, length, All, Bool-cases, inl, inr,
}
use whisper2peer.Args.{Args}
use whisper2peer.Startup.{Network, run}
use whisper2peer.Startup.Reports.{all_dial, run-sent_iff}
use whisper2peer.TestBench.Topology.{
  NodeConfig, Topology, BenchPeer, Bench, booted, ordered, find_peer, save_peer, hz_addr_of,
  peer_addrs, new_peer, with_report, start_one, start_nodes,
}

-- The neighbours of a node with smaller indices, one for each edge.
abbrev pub smaller_ends : List (ℕ × ℕ) → ℕ → List ℕ
smaller_ends edges i = map (λ e. e.0) (keep (λ e. e.1 == i) (map ordered edges))

-- A node that dials its smaller neighbours.
abbrev pub dialling : (ℕ → String) → List (ℕ × ℕ) → (ℕ → NodeConfig) → ℕ → BenchPeer
dialling hosts edges configs i =
    new_peer i (hosts i) (configs i) (map (λ j. hz_addr_of (hosts j)) (smaller_ends edges i))

-- The configuration of a node, with nothing set behind the last one.
abbrev pub config_at : List NodeConfig → ℕ → NodeConfig
config_at [] i = record { degree = none; cache_size = none; gossip_timer = none }
config_at (n ∷ ns) zero = n
config_at (n ∷ ns) (suc i) = config_at ns i

-- The addresses at which the first nodes listen for peers.
abbrev pub first_addrs : (ℕ → String) → ℕ → List String
first_addrs hosts zero = []
first_addrs hosts (suc i) = hz_addr_of (hosts i) ∷ first_addrs hosts i

-- While the first nodes run, the next can listen on its own addresses, and they can be dialled.
pub record Loopback (nets : List Args → Network) (hosts : ℕ → String) : Type 0 where
  pub valid : (runs : List Args) (i : ℕ) → (nets runs).splits (hz_addr_of (hosts i)) ≡ true
  pub vertical_free :
      (runs : List Args) (i : ℕ)
      → map (λ a. a.hz_addr) runs ≡ first_addrs hosts i
      → (nets runs).listens [] (str_append (hosts i) ":6001") ≡ true
  pub horizontal_free :
      (runs : List Args) (i : ℕ)
      → map (λ a. a.hz_addr) runs ≡ first_addrs hosts i
      → (nets runs).listens (str_append (hosts i) ":6001" ∷ []) (hz_addr_of (hosts i)) ≡ true
  pub dialled :
      (runs : List Args) (i j : ℕ)
      → map (λ a. a.hz_addr) runs ≡ first_addrs hosts i
      → j < i
      → (nets runs).dials (hz_addr_of (hosts j)) ≡ true

ordered-lt : (e : ℕ × ℕ) → e.0 ≢ e.1 → (ordered e).0 < (ordered e).1
ordered-lt (a, b) ne = ground (arith, ne)

-- A new index is not among smaller ones.
keep-below :
    (ps : List BenchPeer) (i : ℕ) → All (λ p. p.idx < i) ps → keep (λ q. not (q.idx == i)) ps ≡ ps
keep-below [] i h = refl
keep-below (p ∷ ps) i h =
    let other : (p.idx == i) ≡ false = ground (arith, h.0) in
    rw other (ap (λ l. p ∷ l) (keep-below ps i h.1))

All-lt-suc : (ps : List BenchPeer) (i : ℕ) → All (λ p. p.idx < i) ps → All (λ p. p.idx < suc i) ps
All-lt-suc [] i h = tt
All-lt-suc (p ∷ ps) i h = (ground (arith, h.0), All-lt-suc ps i h.1)

module _ (hosts : ℕ → String) (edges : List (ℕ × ℕ)) (configs : ℕ → NodeConfig) where
  -- The first nodes run.
  record Built (i : ℕ) (b : Bench) : Type 0 where
    found : (j : ℕ) → j < i → find_peer j b.peers ≡ some (dialling hosts edges configs j)
    below : All (λ p. p.idx < i) b.peers
    in_use : map (λ a. a.hz_addr) b.runs ≡ first_addrs hosts i

  peer_addrs-smaller_ends :
      (i : ℕ) (b : Bench) (es : List (ℕ × ℕ))
      → Built i b
      → All (λ e. e.0 ≢ e.1) es
      → peer_addrs b.peers i es ≡ some (map (λ j. hz_addr_of (hosts j)) (smaller_ends es i))
  unfolding peer_addrs
  peer_addrs-smaller_ends i b [] built loopless = refl
  peer_addrs-smaller_ends i b (e ∷ es) built loopless = elim (Bool-cases ((ordered e).1 == i)) [
    | inl here ↦
        let lt : (ordered e).0 < i = ground (arith, here, ordered-lt e loopless.0) in
        rw (here, built.found (ordered e).0 lt, peer_addrs-smaller_ends i b es built loopless.1)
          refl
    | inr elsewhere ↦ rw elsewhere (peer_addrs-smaller_ends i b es built loopless.1)
  ]

  all_dial-smaller_ends :
      (net : Network) (i : ℕ) (es : List (ℕ × ℕ))
      → ((j : ℕ) → j < i → net.dials (hz_addr_of (hosts j)) ≡ true)
      → All (λ e. e.0 ≢ e.1) es
      → all_dial net (map (λ j. hz_addr_of (hosts j)) (smaller_ends es i)) ≡ true
  unfolding all_dial
  all_dial-smaller_ends net i [] known loopless = refl
  all_dial-smaller_ends net i (e ∷ es) known loopless = elim (Bool-cases ((ordered e).1 == i)) [
    | inl here ↦
        let lt : (ordered e).0 < i = ground (arith, here, ordered-lt e loopless.0) in
        rw (here, known (ordered e).0 lt) (all_dial-smaller_ends net i es known loopless.1)
    | inr elsewhere ↦ rw elsewhere (all_dial-smaller_ends net i es known loopless.1)
  ]

  -- The next node reports `nil`.
  run-dialling :
      (nets : List Args → Network) (i : ℕ) (b : Bench)
      → Loopback nets hosts
      → All (λ e. e.0 ≢ e.1) edges
      → Built i b
      → (run (nets b.runs) (dialling hosts edges configs i).args).sent ≡ some none
  run-dialling nets i b loop loopless built =
      let net = nets b.runs in
      let dials =
        all_dial-smaller_ends net i edges (λ j lt. loop.dialled b.runs i j built.in_use lt)
          loopless in
      (run-sent_iff net (dialling hosts edges configs i).args).0.1 (
        rw
          (
            loop.vertical_free b.runs i built.in_use,
            loop.valid b.runs i,
            dials,
            loop.horizontal_free b.runs i built.in_use,
          )
          refl)

  -- The bench with the next node.
  abbrev with_next : ℕ → Bench → Bench
  with_next i b =
      let p = dialling hosts edges configs i in
      record { peers = save_peer p b.peers; runs = p.args ∷ b.runs }

  with_next-Built : (i : ℕ) (b : Bench) → Built i b → Built (suc i) (with_next i b)
  unfolding find_peer
  with_next-Built i b built =
      let same = keep-below b.peers i built.below in
      record {
        found = λ j lt. elim (Bool-cases (i == j)) [
          | inl now ↦ let e : i ≡ j = ground (arith, now) in rw (now, e) refl
          | inr earlier ↦
              let lt' : j < i = ground (arith, lt, earlier) in
              rw (earlier, same) (built.found j lt')
        ];
        below = (
          omega arith,
          subst (All (λ p. p.idx < suc i)) (sym same) (All-lt-suc b.peers i built.below),
        );
        in_use = ap (λ l. hz_addr_of (hosts i) ∷ l) built.in_use;
      }

  -- The round of a node goes on to the next.
  start_nodes-with_next :
      (nets : List Args → Network) (i : ℕ) (b : Bench) (ns : List NodeConfig)
      → Loopback nets hosts
      → All (λ e. e.0 ≢ e.1) edges
      → Built i b
      → start_nodes nets hosts edges (configs i ∷ ns) i b
        ≡ start_nodes nets hosts edges ns (suc i) (with_next i b)
  unfolding start_nodes
  start_nodes-with_next nets i b ns loop loopless built =
      ap (start_one nets (hosts i) (configs i) i b (start_nodes nets hosts edges ns (suc i)))
        (peer_addrs-smaller_ends i b edges built loopless)
      ∙ ap
          (with_report (start_nodes nets hosts edges ns (suc i) (with_next i b))
            (record b { peers = (with_next i b).peers }))
          (run-dialling nets i b loop loopless built)

  -- The loop from some node on.
  start_nodes-Built :
      (nets : List Args → Network) (i : ℕ) (b : Bench) (ns : List NodeConfig)
      → Loopback nets hosts
      → All (λ e. e.0 ≢ e.1) edges
      → ((k : ℕ) → k < length ns → config_at ns k ≡ configs (k + i))
      → Built i b
      → (b' : Bench) × (start_nodes nets hosts edges ns i b ≡ booted b') × Built (length ns + i) b'
  unfolding start_nodes
  start_nodes-Built nets i b [] loop loopless same built =
      (b, refl, subst (λ n. Built n b) (omega arith) built)
  start_nodes-Built nets i b (n ∷ ns) loop loopless same built =
      let next =
        start_nodes-Built nets (suc i) (with_next i b) ns loop loopless
          (λ k lt. same (suc k) (omega (arith, lt)) ∙ ap configs (omega arith))
          (with_next-Built i b built) in
      let here : n ≡ configs i = same 0 (omega arith) ∙ ap configs (omega arith) in
      (
        next.0,
        ap (λ m. start_nodes nets hosts edges (m ∷ ns) i b) here
            ∙ start_nodes-with_next nets i b ns loop loopless built
            ∙ next.1,
        subst (λ n. Built n next.0) (omega arith) next.2,
      )

-- Where each node has addresses of its own and no edge joins a node to itself, the loop of `Startup`
-- starts all nodes. Each runs with its configuration, the defaults where nothing is set, and dials
-- the smaller ends of its edges, once for each edge.
pub start_nodes-booted :
    (nets : List Args → Network) (hosts : ℕ → String) (g : Topology)
    → Loopback nets hosts
    → All (λ e. e.0 ≢ e.1) g.edges
    → (b : Bench) × (start_nodes nets hosts g.edges g.nodes 0 (record { peers = []; runs = [] })
        ≡ booted b)
      × ((i : ℕ)
          → i < length g.nodes
          → find_peer i b.peers ≡ some (dialling hosts g.edges (config_at g.nodes) i))
start_nodes-booted nets hosts g loop loopless =
    let all =
      start_nodes-Built hosts g.edges (config_at g.nodes) nets 0 (record { peers = []; runs = [] })
        g.nodes loop loopless (λ k lt. ap (config_at g.nodes) (omega arith))
        (record { found = λ j lt. absurd (omega (arith, lt)); below = tt; in_use = refl }) in
    (all.0, all.1, λ i lt. all.2.found i (omega (arith, lt)))
