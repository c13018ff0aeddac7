-- ===== src/ConnTable.antt =====
-- The table of connections that gossip/horizontalAPI/horizontalAPI.go and
-- gossip/verticalAPI/verticalApi.go keep alike: `Listen`, `AddNeighbors`, the deferred calls of
-- `handleConnection`, and `Close`.
--
-- A `net.Conn` is a number. An event is an action of one goroutine: a section under the mutex is
-- one event. An event out of turn changes nothing. The reader of a connection that ends sends an
-- `Unregister` on the channel of the API: it waits where nobody receives and no room is left.
pub mod Closing
pub mod Draining
pub mod Waiting
pub mod Room
pub mod Ending
pub mod Examples
use whisper2peer.Base.{ℕ, ◌-◌, Bool, true, false, List, [], ◌∷◌, ◌++◌, ◌==◌, if◌then◌else◌}

-- The way of a connection: made by `Accept` or `Dial`; in the table; with its goroutines started;
-- closed by its reader, which waits to unregister it; unregistered; deleted from the table.
pub data Phase : Type 0 where
  unknown pending entered running finishing leaving gone : Phase

-- `conns`, the connections on which `Close` has been called, whether the listener is open and the
-- context done, and of the channel whether its receiver runs and how much room its buffer has left
-- where not.
pub record Table : Type 0 where
  pub phase : ℕ → Phase
  pub conns : List ℕ
  pub closed : List ℕ
  pub listening : Bool
  pub done : Bool
  pub receiving : Bool
  pub room : ℕ

pub data Event : Type 0 where
  accept dial enter spawn finish unregister leave : ℕ → Event
  receiver_ends cancel close_listener close_conns : Event

-- After the constructor of the API, with the listener that `Listen` opens, for the buffer of the
-- channel.
abbrev pub new_table : ℕ → Table
new_table buffer = record {
  phase = λ _. Phase.unknown;
  conns = [];
  closed = [];
  listening = true;
  done = false;
  receiving = true;
  room = buffer;
}

unfoldable pub has : ℕ → List ℕ → Bool
has c [] = false
has c (x ∷ xs) = if c == x then true else has c xs

-- `delete(conns, conn)`.
unfoldable pub without : ℕ → List ℕ → List ℕ
without c [] = []
without c (x ∷ xs) = if c == x then without c xs else x ∷ without c xs

abbrev pub move : ℕ → Phase → Table → Table
move c p s = record s { phase = λ d. if d == c then p else s.phase d }

-- `Accept` and `Dial` give a new connection.
abbrev pub made : ℕ → Table → Phase → Table
made c s Phase.unknown = move c Phase.pending s
made c s _ = s

-- `conns[conn] = struct{}{}`.
abbrev pub put_in : ℕ → Table → Phase → Table
put_in c s Phase.pending = record (move c Phase.entered s) { conns = c ∷ without c s.conns }
put_in c s _ = s

-- The `go` statements.
abbrev pub start : ℕ → Table → Phase → Table
start c s Phase.entered = move c Phase.running s
start c s _ = s

-- The reader ends, and closes its connection.
abbrev pub end_reader : ℕ → Table → Phase → Table
end_reader c s Phase.running = record (move c Phase.finishing s) { closed = c ∷ s.closed }
end_reader c s _ = s

-- The reader has sent its `Unregister`.
abbrev pub send_off : ℕ → Table → Phase → Table
send_off c s Phase.finishing =
    if s.receiving
    then move c Phase.leaving s
    else if s.room == 0
    then s
    else record (move c Phase.leaving s) { room = s.room - 1 }
send_off c s _ = s

-- The reader deletes its connection from the table.
abbrev pub take_out : ℕ → Table → Phase → Table
take_out c s Phase.leaving = record (move c Phase.gone s) { conns = without c s.conns }
take_out c s _ = s

unfoldable pub on_event : Event → Table → Table
on_event (accept c) s = if s.listening then made c s (s.phase c) else s
on_event (dial c) s = made c s (s.phase c)
on_event (enter c) s = put_in c s (s.phase c)
on_event (spawn c) s = start c s (s.phase c)
on_event (finish c) s = end_reader c s (s.phase c)
on_event (unregister c) s = send_off c s (s.phase c)
on_event (leave c) s = take_out c s (s.phase c)
on_event receiver_ends s = record s { receiving = false }
on_event cancel s = record s { done = true }
on_event close_listener s = record s { listening = false }
on_event close_conns s = record s { closed = s.conns ++ s.closed }

unfoldable pub history : List Event → Table → Table
history [] s = s
history (event ∷ events) s = history events (on_event event s)

-- The actions of `Close` before it waits, with what the other goroutines do between them.
abbrev pub close : List Event → List Event → Table → Table
close before between s =
    on_event close_conns
      (history between (on_event close_listener (history before (on_event cancel s))))
