-- ===== src/ConnTable/Examples.antt =====
-- Two modules that connect, and the end of the node.
use whisper2peer.Base.{ℕ, ◌≡◌, refl, true, List, [], ◌∷◌, ◌++◌}
use whisper2peer.ConnTable.{
  Table, Event, finish, unregister, leave, receiver_ends, new_table, on_event, history,
}
use whisper2peer.ConnTable.Draining.{serve}
use whisper2peer.ConnTable.Waiting.{waits, waiting}
use whisper2peer.ConnTable.Ending.{run_end, run_end-waits}

abbrev two_modules : List Event
two_modules = serve 1 ++ serve 2

-- The table when both are served.
abbrev served : Table
served = history two_modules (new_table 0)

-- The readers of both end, one between the other's actions.
abbrev order : List ℕ
order = 1 ∷ 2 ∷ 2 ∷ 1 ∷ 1 ∷ 2 ∷ 1 ∷ 2 ∷ []

-- The two with a channel that has room for one message, when its receiver has ended.
abbrev alone : Table
alone = on_event receiver_ends (history two_modules (new_table 1))

abbrev both_end : List Event
both_end = finish 1 ∷ finish 2 ∷ unregister 1 ∷ unregister 2 ∷ leave 1 ∷ leave 2 ∷ []

one_ends : waiting (1 ∷ 2 ∷ []) (history both_end alone).phase ≡ 1
unfolding waiting history on_event
one_ends = refl

run_end-waits_example :
    waits ((history both_end (run_end (finish 1 ∷ []) (unregister 1 ∷ []) served)).phase 1) ≡ true
unfolding history on_event
run_end-waits_example =
    run_end-waits two_modules (finish 1 ∷ []) (unregister 1 ∷ []) both_end 1 refl
