-- ===== src/Connections/Examples.antt =====
-- A manager with one neighbour to be proved and two peers that come in, and the theorems there.
use mathlib.Core.List.{Perm, foldl}
use whisper2peer.Base.{◌≡◌, refl, List, [], ◌∷◌, map, Bool, keep, not, leb, bytes_discrete}
use whisper2peer.Connections.Maps.{get, put}
use whisper2peer.Connections.Inv.{Inv, id_of, entry}
use whisper2peer.Connections.Run.{Call, validate, arrive, step, history-Inv, cull_connections-perm}
use whisper2peer.Connections.{
  Conn, Peer, Status, Manager, new_connection_manager, make_valid, cull_connections, permuted_valid,
  add_in_progress, unsafe_remove, swap_remove,
}

program : Unit {0}
unfolding new_connection_manager step make_valid cull_connections permuted_valid bytes_discrete get
    put add_in_progress unsafe_remove swap_remove
program = tt

abbrev neighbour : Conn
neighbour = record { id = 1 ∷ []; chan = 10 }

abbrev visitor : Conn
visitor = record { id = 2 ∷ []; chan = 20 }

abbrev visitor_peer : Peer
visitor_peer = record { ptr = 1; connection = visitor }

abbrev late : Peer → Status → Bool
late p s = leb s.timestamp 4

abbrev history : List Call
history = arrive visitor ∷ validate (2 ∷ []) 5 ∷ validate (1 ∷ []) 3 ∷ []

abbrev manager : Manager
manager = foldl step (new_connection_manager (neighbour ∷ [])) history

both_valid : map id_of manager.open_connections ≡ (2 ∷ []) ∷ (1 ∷ []) ∷ []
unfolding program
both_valid = refl

one_left : map id_of (cull_connections manager late).open_connections ≡ (2 ∷ []) ∷ []
unfolding program
one_left = refl

drawn : map id_of (permuted_valid manager (1 ∷ 0 ∷ []) 1) ≡ (1 ∷ []) ∷ []
unfolding program
drawn = refl

history-Inv_example : Inv (foldl step (new_connection_manager (neighbour ∷ [])) history)
history-Inv_example = history-Inv (neighbour ∷ []) history

cull_connections-perm_example :
    let left = keep (λ p. not (late p (manager.store p.ptr))) manager.open_connections in
    Perm (cull_connections manager late).open_connections left
    × Perm (cull_connections manager late).open_map (map entry left)
cull_connections-perm_example = cull_connections-perm manager late history-Inv_example
