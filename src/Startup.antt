-- ===== src/Startup.antt =====
-- The start of a node: `Run` in gossip/main/main.go up to its loop, `New` in gossip/strats/main.go
-- and `AddNeighbors` in gossip/horizontalAPI/horizontalAPI.go.
--
-- What the network answers is a parameter: whether an address can be listened on, given those on
-- which the process listens already, whether it has a host and a port, and whether a neighbour can
-- be dialled. The signals of the goroutines in between are on channels with room for them, so what
-- `initFinished` gets in the end depends only on which of them are sent.
pub mod Reports
pub mod Examples
use Prim.Native.String.{String}
use whisper2peer.Base.{Bool, true, false, Option, none, some, List, [], ◌∷◌, if◌then◌else◌}
use whisper2peer.Args.{Args}

-- `net.Listen`, `net.SplitHostPort` and `dialer.Dial`: whether they give no error.
pub record Network : Type 0 where
  pub listens : List String → String → Bool
  pub splits : String → Bool
  pub dials : String → Bool

pub data InitError : Type 0 where
  no_listener bad_address no_neighbour : String → InitError

-- The neighbours that are connected, with the goroutines of their connections started, and whether
-- the listener of the horizontal API accepts.
pub record Horizontal : Type 0 where
  pub neighbours : List String
  pub listening : Bool

-- What is sent on `initFinished`, if anything, whether the loop of `Run` is entered, and what is
-- open then or when `Run` has returned.
pub record Started : Type 0 where
  pub sent : Option (Option InitError)
  pub loops : Bool
  pub vertical : Bool
  pub horizontal : Horizontal

-- A nil slice has no elements.
abbrev pub elements : Option (List String) → List String
elements none = []
elements (some addrs) = addrs

-- The connections that were made before one fails stay open.
unfoldable pub add_neighbors : Network → List String → Option InitError × List String
add_neighbors net [] = (none, [])
add_neighbors net (addr ∷ addrs) =
    let rest = add_neighbors net addrs in
    if net.dials addr then (rest.0, addr ∷ rest.1) else (some (no_neighbour addr), [])

-- `New`, where the process listens on `taken`: `Listen` is called before the error of
-- `AddNeighbors` is looked at, and its own error is dropped.
abbrev pub new_strategy : Network → List String → Args → Option InitError × Horizontal
new_strategy net taken args =
    let made = add_neighbors net (elements args.peer_addrs) in
    if net.splits args.hz_addr
    then (made.0, record { neighbours = made.1; listening = net.listens taken args.hz_addr })
    else (some (bad_address args.hz_addr), record { neighbours = []; listening = false })

-- `Run` after `New`. On an error the deferred `va.Close` has run. Otherwise `nil` is sent when both
-- APIs have signalled.
abbrev pub with_strategy : Option InitError → Horizontal → Started
with_strategy (some e) hz = record {
  sent = some (some e);
  loops = false;
  vertical = false;
  horizontal = hz;
}
with_strategy none hz = record {
  sent = if hz.listening then some none else none;
  loops = true;
  vertical = true;
  horizontal = hz;
}

unfoldable pub run : Network → Args → Started
run net args =
    let made = new_strategy net (args.vert_addr ∷ []) args in
    if net.listens [] args.vert_addr then with_strategy made.0 made.1 else record {
      sent = some (some (no_listener args.vert_addr));
      loops = false;
      vertical = false;
      horizontal = record { neighbours = []; listening = false };
    }
