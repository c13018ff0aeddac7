-- ===== src/ConnTable/Room.antt =====
-- The room left in the channel's buffer.
use whisper2peer.Base.{ℕ, List, [], ◌∷◌, ◌≤◌, arith}
use whisper2peer.ConnTable.{
  Phase, Table, Event, accept, dial, enter, spawn, finish, unregister, leave, receiver_ends, cancel,
  close_listener, close_conns, made, put_in, start, end_reader, send_off, take_out, on_event,
  history,
}

made-room : (c : ℕ) (s : Table) (p : Phase) → (made c s p).room ≤ s.room
made-room c s Phase.unknown = ground arith
made-room c s Phase.pending = ground arith
made-room c s Phase.entered = ground arith
made-room c s Phase.running = ground arith
made-room c s Phase.finishing = ground arith
made-room c s Phase.leaving = ground arith
made-room c s Phase.gone = ground arith

put_in-room : (c : ℕ) (s : Table) (p : Phase) → (put_in c s p).room ≤ s.room
put_in-room c s Phase.unknown = ground arith
put_in-room c s Phase.pending = ground arith
put_in-room c s Phase.entered = ground arith
put_in-room c s Phase.running = ground arith
put_in-room c s Phase.finishing = ground arith
put_in-room c s Phase.leaving = ground arith
put_in-room c s Phase.gone = ground arith

start-room : (c : ℕ) (s : Table) (p : Phase) → (start c s p).room ≤ s.room
start-room c s Phase.unknown = ground arith
start-room c s Phase.pending = ground arith
start-room c s Phase.entered = ground arith
start-room c s Phase.running = ground arith
start-room c s Phase.finishing = ground arith
start-room c s Phase.leaving = ground arith
start-room c s Phase.gone = ground arith

end_reader-room : (c : ℕ) (s : Table) (p : Phase) → (end_reader c s p).room ≤ s.room
end_reader-room c s Phase.unknown = ground arith
end_reader-room c s Phase.pending = ground arith
end_reader-room c s Phase.entered = ground arith
end_reader-room c s Phase.running = ground arith
end_reader-room c s Phase.finishing = ground arith
end_reader-room c s Phase.leaving = ground arith
end_reader-room c s Phase.gone = ground arith

send_off-room : (c : ℕ) (s : Table) (p : Phase) → (send_off c s p).room ≤ s.room
send_off-room c s Phase.unknown = ground arith
send_off-room c s Phase.pending = ground arith
send_off-room c s Phase.entered = ground arith
send_off-room c s Phase.running = ground arith
send_off-room c s Phase.finishing = ground arith
send_off-room c s Phase.leaving = ground arith
send_off-room c s Phase.gone = ground arith

take_out-room : (c : ℕ) (s : Table) (p : Phase) → (take_out c s p).room ≤ s.room
take_out-room c s Phase.unknown = ground arith
take_out-room c s Phase.pending = ground arith
take_out-room c s Phase.entered = ground arith
take_out-room c s Phase.running = ground arith
take_out-room c s Phase.finishing = ground arith
take_out-room c s Phase.leaving = ground arith
take_out-room c s Phase.gone = ground arith

on_event-room : (event : Event) (s : Table) → (on_event event s).room ≤ s.room
unfolding on_event
on_event-room (accept c) s = ground (arith, made-room c s (s.phase c))
on_event-room (dial c) s = made-room c s (s.phase c)
on_event-room (enter c) s = put_in-room c s (s.phase c)
on_event-room (spawn c) s = start-room c s (s.phase c)
on_event-room (finish c) s = end_reader-room c s (s.phase c)
on_event-room (unregister c) s = send_off-room c s (s.phase c)
on_event-room (leave c) s = take_out-room c s (s.phase c)
on_event-room receiver_ends s = ground arith
on_event-room cancel s = ground arith
on_event-room close_listener s = ground arith
on_event-room close_conns s = ground arith

-- Without a receiver no room comes back.
pub history-room : (events : List Event) (s : Table) → (history events s).room ≤ s.room
unfolding history
history-room [] s = ground arith
history-room (event ∷ events) s =
    ground (arith, history-room events (on_event event s), on_event-room event s)
