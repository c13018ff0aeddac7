-- ===== src/ConnTable/Draining.antt =====
-- How the readers end while the channel is received from, in whatever order they come to act.
use whisper2peer.Base.{ℕ, suc, List, [], ◌∷◌, ◌==◌, if◌then◌else◌}
use whisper2peer.ConnTable.{
  Phase, Table, Event, accept, enter, spawn, finish, unregister, leave, history,
}

-- A round of the listener's loop in the vertical API, where `Accept` gives a connection.
abbrev pub serve : ℕ → List Event
serve c = accept c ∷ enter c ∷ spawn c ∷ []

-- What the goroutine of a reader does next, by where it is: it starts, its loop ends, and the
-- deferred calls follow.
abbrev pub next_action : ℕ → Phase → List Event
next_action c Phase.entered = spawn c ∷ []
next_action c Phase.running = finish c ∷ []
next_action c Phase.finishing = unregister c ∷ []
next_action c Phase.leaving = leave c ∷ []
next_action c _ = []

-- The readers act in turns, in a given order: each name is one action of that reader.
unfoldable pub turns : List ℕ → Table → Table
turns [] s = s
turns (c ∷ cs) s = turns cs (history (next_action c (s.phase c)) s)

-- How many turns a list gives a connection.
abbrev pub turns_of : ℕ → List ℕ → ℕ
turns_of d [] = 0
turns_of d (c ∷ cs) = let n = turns_of d cs in if d == c then suc n else n

-- The actions that the reader of a connection in the table has before it.
abbrev pub remaining : Phase → ℕ
remaining Phase.entered = 4
remaining Phase.running = 3
remaining Phase.finishing = 2
remaining Phase.leaving = 1
remaining _ = 0
