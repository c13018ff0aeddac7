-- ===== src/ConnTable/Closing.antt =====
-- Which connections the `Close` of an API reaches.
use whisper2peer.Base.{
  ℕ, ◌≡◌, refl, ap, ◌∙◌, Bool, true, false, List, [], ◌∷◌, ◌++◌, ◌==◌, ◌-◌, if◌then◌else◌, arith,
}
use whisper2peer.ConnTable.{
  Phase, Table, Event, accept, dial, enter, spawn, finish, unregister, leave, receiver_ends, cancel,
  close_listener, close_conns, new_table, move, send_off, has, without, made, put_in, start,
  end_reader, take_out, on_event, history, close,
}

-- The phases in which a connection stands in the table.
abbrev pub in_table : Phase → Bool
in_table Phase.unknown = false
in_table Phase.pending = false
in_table Phase.entered = true
in_table Phase.running = true
in_table Phase.finishing = true
in_table Phase.leaving = true
in_table Phase.gone = false

-- The table holds the connections that have entered and not left it, and no others.
abbrev pub Exact : Table → Type 0
Exact s = (d : ℕ) → has d s.conns ≡ in_table (s.phase d)

pub has-without :
    (d c : ℕ) (xs : List ℕ) → has d (without c xs) ≡ (if d == c then false else has d xs)
unfolding has without
has-without d c [] = ground arith
has-without d c (x ∷ xs) = ground (arith, has-without d c xs)

has-append : (d : ℕ) (xs ys : List ℕ) → has d xs ≡ true → has d (xs ++ ys) ≡ true
unfolding has
has-append d [] ys h = absurd (ground arith)
has-append d (x ∷ xs) ys h = ground (arith, has-append d xs ys)

made-Exact : (s : Table) (c : ℕ) (p : Phase) → s.phase c ≡ p → Exact s → Exact (made c s p)
made-Exact s c Phase.unknown e h d = ground (arith, h d, h c)
made-Exact s c Phase.pending e h d = h d
made-Exact s c Phase.entered e h d = h d
made-Exact s c Phase.running e h d = h d
made-Exact s c Phase.finishing e h d = h d
made-Exact s c Phase.leaving e h d = h d
made-Exact s c Phase.gone e h d = h d

-- A connection that goes on in the table.
moved :
    (s : Table) (c : ℕ) (p : Phase)
    → has c s.conns ≡ in_table p
    → (d : ℕ) → has d s.conns ≡ in_table (s.phase d)
    → has d s.conns ≡ in_table (if d == c then p else s.phase d)
moved s c p there d h = ground (arith, there, h)

if-Exact : (s t : Table) (b : Bool) → Exact s → Exact t → Exact (if b then s else t)
if-Exact s t true hs ht = hs
if-Exact s t false hs ht = ht

put_in-Exact : (s : Table) (c : ℕ) (p : Phase) → s.phase c ≡ p → Exact s → Exact (put_in c s p)
unfolding has
put_in-Exact s c Phase.unknown e h d = h d
put_in-Exact s c Phase.pending e h d = ground (arith, h d, has-without d c s.conns)
put_in-Exact s c Phase.entered e h d = h d
put_in-Exact s c Phase.running e h d = h d
put_in-Exact s c Phase.finishing e h d = h d
put_in-Exact s c Phase.leaving e h d = h d
put_in-Exact s c Phase.gone e h d = h d

start-Exact : (s : Table) (c : ℕ) (p : Phase) → s.phase c ≡ p → Exact s → Exact (start c s p)
start-Exact s c Phase.unknown e h d = h d
start-Exact s c Phase.pending e h d = h d
start-Exact s c Phase.entered e h d = moved s c Phase.running (h c ∙ ap in_table e) d (h d)
start-Exact s c Phase.running e h d = h d
start-Exact s c Phase.finishing e h d = h d
start-Exact s c Phase.leaving e h d = h d
start-Exact s c Phase.gone e h d = h d

end_reader-Exact :
    (s : Table) (c : ℕ) (p : Phase) → s.phase c ≡ p → Exact s → Exact (end_reader c s p)
end_reader-Exact s c Phase.unknown e h d = h d
end_reader-Exact s c Phase.pending e h d = h d
end_reader-Exact s c Phase.entered e h d = h d
end_reader-Exact s c Phase.running e h d = moved s c Phase.finishing (h c ∙ ap in_table e) d (h d)
end_reader-Exact s c Phase.finishing e h d = h d
end_reader-Exact s c Phase.leaving e h d = h d
end_reader-Exact s c Phase.gone e h d = h d

send_off-Exact : (s : Table) (c : ℕ) (p : Phase) → s.phase c ≡ p → Exact s → Exact (send_off c s p)
send_off-Exact s c Phase.unknown e h d = h d
send_off-Exact s c Phase.pending e h d = h d
send_off-Exact s c Phase.entered e h d = h d
send_off-Exact s c Phase.running e h d = h d
send_off-Exact s c Phase.finishing e h d =
    let left = λ (x : ℕ). moved s c Phase.leaving (h c ∙ ap in_table e) x (h x) in
    if-Exact (move c Phase.leaving s) _ s.receiving left
      (if-Exact s (record (move c Phase.leaving s) { room = s.room - 1 }) (s.room == 0) h left) d
send_off-Exact s c Phase.leaving e h d = h d
send_off-Exact s c Phase.gone e h d = h d

take_out-Exact : (s : Table) (c : ℕ) (p : Phase) → s.phase c ≡ p → Exact s → Exact (take_out c s p)
take_out-Exact s c Phase.unknown e h d = h d
take_out-Exact s c Phase.pending e h d = h d
take_out-Exact s c Phase.entered e h d = h d
take_out-Exact s c Phase.running e h d = h d
take_out-Exact s c Phase.finishing e h d = h d
take_out-Exact s c Phase.leaving e h d = ground (arith, h d, has-without d c s.conns)
take_out-Exact s c Phase.gone e h d = h d

on_event-Exact : (event : Event) (s : Table) → Exact s → Exact (on_event event s)
unfolding on_event
on_event-Exact (accept c) s h =
    if-Exact (made c s (s.phase c)) s s.listening (made-Exact s c (s.phase c) refl h) h
on_event-Exact (dial c) s h = made-Exact s c (s.phase c) refl h
on_event-Exact (enter c) s h = put_in-Exact s c (s.phase c) refl h
on_event-Exact (spawn c) s h = start-Exact s c (s.phase c) refl h
on_event-Exact (finish c) s h = end_reader-Exact s c (s.phase c) refl h
on_event-Exact (unregister c) s h = send_off-Exact s c (s.phase c) refl h
on_event-Exact (leave c) s h = take_out-Exact s c (s.phase c) refl h
on_event-Exact receiver_ends s h = h
on_event-Exact cancel s h = h
on_event-Exact close_listener s h = h
on_event-Exact close_conns s h = h

-- At each moment the table holds the connections that have entered and not left it, no others.
pub history-Exact :
    (events : List Event) (s : Table)
    → ((d : ℕ) → has d s.conns ≡ in_table (s.phase d))
    → (d : ℕ) → has d (history events s).conns ≡ in_table ((history events s).phase d)
unfolding history
history-Exact [] s h = h
history-Exact (event ∷ events) s h =
    history-Exact events (on_event event s) (on_event-Exact event s h)

empty-Exact : (buffer : ℕ) → Exact (new_table buffer)
unfolding has
empty-Exact buffer d = refl

made-closed :
    (d c : ℕ) (s : Table) (p : Phase) → has d s.closed ≡ true → has d (made c s p).closed ≡ true
made-closed d c s Phase.unknown h = h
made-closed d c s p h = ground (arith, h)

put_in-closed :
    (d c : ℕ) (s : Table) (p : Phase) → has d s.closed ≡ true → has d (put_in c s p).closed ≡ true
put_in-closed d c s Phase.pending h = h
put_in-closed d c s p h = ground (arith, h)

start-closed :
    (d c : ℕ) (s : Table) (p : Phase) → has d s.closed ≡ true → has d (start c s p).closed ≡ true
start-closed d c s Phase.entered h = h
start-closed d c s p h = ground (arith, h)

end_reader-closed :
    (d c : ℕ) (s : Table) (p : Phase)
    → has d s.closed ≡ true
    → has d (end_reader c s p).closed ≡ true
unfolding has
end_reader-closed d c s Phase.running h = ground (arith, h)
end_reader-closed d c s p h = ground (arith, h)

send_off-closed :
    (d c : ℕ) (s : Table) (p : Phase) → has d s.closed ≡ true → has d (send_off c s p).closed ≡ true
send_off-closed d c s p h = ground (arith, h)

take_out-closed :
    (d c : ℕ) (s : Table) (p : Phase) → has d s.closed ≡ true → has d (take_out c s p).closed ≡ true
take_out-closed d c s p h = ground (arith, h)

has-append_right : (d : ℕ) (xs ys : List ℕ) → has d ys ≡ true → has d (xs ++ ys) ≡ true
unfolding has
has-append_right d [] ys h = h
has-append_right d (x ∷ xs) ys h = ground (arith, has-append_right d xs ys h)

-- A connection that has been closed stays so.
on_event-closed :
    (d : ℕ) (event : Event) (s : Table)
    → has d s.closed ≡ true
    → has d (on_event event s).closed ≡ true
unfolding on_event
on_event-closed d (accept c) s h = ground (arith, h, made-closed d c s (s.phase c) h)
on_event-closed d (dial c) s h = made-closed d c s (s.phase c) h
on_event-closed d (enter c) s h = put_in-closed d c s (s.phase c) h
on_event-closed d (spawn c) s h = start-closed d c s (s.phase c) h
on_event-closed d (finish c) s h = end_reader-closed d c s (s.phase c) h
on_event-closed d (unregister c) s h = send_off-closed d c s (s.phase c) h
on_event-closed d (leave c) s h = take_out-closed d c s (s.phase c) h
on_event-closed d receiver_ends s h = h
on_event-closed d cancel s h = h
on_event-closed d close_listener s h = h
on_event-closed d close_conns s h = has-append_right d s.conns s.closed h

history-closed :
    (d : ℕ) (events : List Event) (s : Table)
    → has d s.closed ≡ true
    → has d (history events s).closed ≡ true
unfolding history
history-closed d [] s h = h
history-closed d (event ∷ events) s h =
    history-closed d events (on_event event s) (on_event-closed d event s h)

-- After any history of the listener, the dialler, the readers and `Close` itself, a connection that
-- is in the table when `Close` runs its loop, so that its reader runs or is about to, is closed by
-- the loop, and is closed at each moment after it, while `Close` waits too. Nothing is said of a
-- connection that enters the table behind the loop.
pub close-Exact :
    (buffer : ℕ) (earlier before between later : List Event) (d : ℕ)
    → in_table ((close before between (history earlier (new_table buffer))).phase d) ≡ true
    → has d (history later (close before between (history earlier (new_table buffer)))).closed
      ≡ true
unfolding on_event
close-Exact buffer earlier before between later d inside =
    let s0 = history earlier (new_table buffer) in
    let s1 = history before (on_event cancel s0) in
    let s2 = history between (on_event close_listener s1) in
    let first = history-Exact earlier (new_table buffer) (empty-Exact buffer) in
    let second = history-Exact before (on_event cancel s0) first in
    let third = history-Exact between (on_event close_listener s1) second in
    history-closed d later (on_event close_conns s2)
      (has-append d s2.conns s2.closed (third d ∙ inside))
