-- ===== src/Startup/Examples.antt =====
-- A node whose address for peers is taken, and one that starts.
use Prim.Native.String.{String}
use whisper2peer.Base.{Bool, true, false, none, some, List, [], ◌∷◌, ◌≡◌, refl, ◌&&◌, not, ◌↔◌}
use whisper2peer.Args.{new_from_defaults}
use whisper2peer.Startup.{Network, run, elements, add_neighbors}
use whisper2peer.Startup.Reports.{all_dial, connected, reachable, run-sent_iff}

-- Only the first address that is asked for is free.
abbrev first_only : List String → String → Bool
first_only [] addr = true
first_only (taken ∷ _) addr = false

abbrev taken_port : Network
taken_port = record { listens = first_only; splits = λ _. true; dials = λ _. true }

abbrev free_ports : Network
free_ports = record { listens = λ _ _. true; splits = λ _. true; dials = λ _. true }

-- It waits for messages, and never says that it has started.
silent : (run taken_port new_from_defaults).sent ≡ none
unfolding run add_neighbors
silent = refl

started : (run free_ports new_from_defaults).sent ≡ some none
unfolding run add_neighbors
started = refl

run-sent_iff_example :
    ((run taken_port new_from_defaults).sent ≡ some none
      ↔ (connected taken_port new_from_defaults && reachable taken_port new_from_defaults) ≡ true)
    × ((run taken_port new_from_defaults).sent ≡ none
        ↔ (connected taken_port new_from_defaults && not (reachable taken_port new_from_defaults))
          ≡ true)
    × ((not (run taken_port new_from_defaults).loops
          && (run taken_port new_from_defaults).horizontal.listening)
        ≡ (taken_port.listens [] new_from_defaults.vert_addr
            && (taken_port.splits new_from_defaults.hz_addr
                && (not (all_dial taken_port (elements new_from_defaults.peer_addrs))
                    && reachable taken_port new_from_defaults))))
run-sent_iff_example = run-sent_iff taken_port new_from_defaults
