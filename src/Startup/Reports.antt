-- ===== src/Startup/Reports.antt =====
-- What a node that starts reports, and what stays open where it does not start.
use Prim.Native.String.{String}
use whisper2peer.Base.{
  Bool, true, false, Option, none, some, List, [], ◌∷◌, if◌then◌else◌, ◌&&◌, not, ◌≡◌, refl, ◌↔◌,
  arith,
}
use whisper2peer.Args.{Args}
use whisper2peer.Startup.{Network, add_neighbors, elements, run}

-- Every neighbour can be dialled.
unfoldable pub all_dial : Network → List String → Bool
all_dial net [] = true
all_dial net (addr ∷ addrs) = if net.dials addr then all_dial net addrs else false

abbrev is_none : {A : Type 0} → Option A → Bool
is_none none = true
is_none (some x) = false

add_neighbors-all_dial :
    (net : Network) (addrs : List String) → is_none (add_neighbors net addrs).0 ≡ all_dial net addrs
unfolding add_neighbors all_dial
add_neighbors-all_dial net [] = refl
add_neighbors-all_dial net (addr ∷ addrs) = ground (arith, add_neighbors-all_dial net addrs)

-- The vertical API listens, the address has a host, and the neighbours are connected.
abbrev pub connected : Network → Args → Bool
connected net args =
    net.listens [] args.vert_addr
    && (net.splits args.hz_addr && all_dial net (elements args.peer_addrs))

-- The horizontal API can listen.
abbrev pub reachable : Network → Args → Bool
reachable net args = net.listens (args.vert_addr ∷ []) args.hz_addr

-- The three things that a start can report.
reported_nil :
    (net : Network) (args : Args)
    → (run net args).sent ≡ some none ↔ (connected net args && reachable net args) ≡ true
unfolding run
reported_nil net args =
    let dialled = add_neighbors-all_dial net (elements args.peer_addrs) in
    (λ h. ground (arith, h, dialled), λ h. ground (arith, h, dialled))

reported_nothing :
    (net : Network) (args : Args)
    → (run net args).sent ≡ none ↔ (connected net args && not (reachable net args)) ≡ true
unfolding run
reported_nothing net args =
    let dialled = add_neighbors-all_dial net (elements args.peer_addrs) in
    (λ h. ground (arith, h, dialled), λ h. ground (arith, h, dialled))

left_open :
    (net : Network) (args : Args)
    → (not (run net args).loops && (run net args).horizontal.listening) ≡ (
        net.listens [] args.vert_addr
        && (net.splits args.hz_addr
            && (not (all_dial net (elements args.peer_addrs)) && reachable net args)))
unfolding run
left_open net args = ground (arith, add_neighbors-all_dial net (elements args.peer_addrs))

-- A node reports `nil` exactly where the vertical API can listen, its address has a host, every
-- neighbour can be dialled, and the horizontal API can listen. It reports nothing at all exactly
-- where all but the last hold. And it does not start but leaves the listener of the horizontal API
-- open exactly where all hold but that every neighbour can be dialled.
pub run-sent_iff :
    (net : Network) (args : Args)
    → ((run net args).sent ≡ some none ↔ (connected net args && reachable net args) ≡ true)
      × ((run net args).sent ≡ none ↔ (connected net args && not (reachable net args)) ≡ true)
      × ((not (run net args).loops && (run net args).horizontal.listening) ≡ (
          net.listens [] args.vert_addr
          && (net.splits args.hz_addr
              && (not (all_dial net (elements args.peer_addrs)) && reachable net args))))
run-sent_iff net args = (reported_nil net args, reported_nothing net args, left_open net args)
