-- ===== src/ConnTable/Waiting.antt =====
-- Which connections `Close` waits for in vain where nobody receives from the channel any longer.
use whisper2peer.Base.{
  ℕ, ◌+◌, ◌≡◌, refl, ap, Bool, true, false, List, [], ◌∷◌, ◌⊎◌, inl, inr, ◌==◌, ◌≤◌, arith,
  if◌then◌else◌,
}
use whisper2peer.ConnTable.{
  Phase, Table, Event, accept, dial, enter, spawn, finish, unregister, leave, receiver_ends, cancel,
  close_listener, close_conns, move, has, made, put_in, start, end_reader, send_off, take_out,
  on_event, history,
}

-- The reader runs, or waits to send its `Unregister`: `wg.Done` comes after that.
abbrev pub waits : Phase → Bool
waits Phase.unknown = false
waits Phase.pending = false
waits Phase.entered = false
waits Phase.running = true
waits Phase.finishing = true
waits Phase.leaving = false
waits Phase.gone = false

-- How many of some connections have such a reader.
unfoldable pub waiting : List ℕ → (ℕ → Phase) → ℕ
waiting [] phase = 0
waiting (c ∷ cs) phase = (if waits (phase c) then 1 else 0) + waiting cs phase

-- Each connection stands in the list once.
unfoldable pub distinct : List ℕ → Bool
distinct [] = true
distinct (c ∷ cs) = if has c cs then false else distinct cs

waits_more :
    (cs : List ℕ) (c : ℕ) (phase : ℕ → Phase) (p : Phase)
    → waits (phase c) ≡ false
    → waiting cs phase ≤ waiting cs (λ d. if d == c then p else phase d)
unfolding waiting
waits_more [] c phase p h = ground arith
waits_more (x ∷ cs) c phase p h = ground (arith, h, waits_more cs c phase p h)

waits_on :
    (cs : List ℕ) (c : ℕ) (phase : ℕ → Phase) (p : Phase)
    → waits p ≡ true
    → waiting cs phase ≤ waiting cs (λ d. if d == c then p else phase d)
unfolding waiting
waits_on [] c phase p h = ground arith
waits_on (x ∷ cs) c phase p h = ground (arith, h, waits_on cs c phase p h)

waits_elsewhere :
    (cs : List ℕ) (c : ℕ) (phase : ℕ → Phase) (p : Phase)
    → has c cs ≡ false
    → waiting cs phase ≤ waiting cs (λ d. if d == c then p else phase d)
unfolding waiting has
waits_elsewhere [] c phase p h = ground arith
waits_elsewhere (x ∷ cs) c phase p h = ground (arith, h, waits_elsewhere cs c phase p)

-- One connection that waits no longer.
one_less :
    (cs : List ℕ) (c : ℕ) (phase : ℕ → Phase) (p : Phase)
    → distinct cs ≡ true
    → waiting cs phase ≤ waiting cs (λ d. if d == c then p else phase d) + 1
unfolding waiting distinct
one_less [] c phase p h = ground arith
one_less (x ∷ cs) c phase p h =
    ground (arith, h, one_less cs c phase p, waits_elsewhere cs c phase p)

-- Nobody receives, and for each reader that waits no longer there is less room in the channel.
abbrev Kept : List ℕ → Table → Table → Type 0
Kept cs s t = (t.receiving ≡ false) × (waiting cs s.phase + t.room ≤ waiting cs t.phase + s.room)

same : (cs : List ℕ) (s : Table) → s.receiving ≡ false → Kept cs s s
same cs s r = (r, ground arith)

-- A connection that comes to a phase in which it waits, or that has not waited.
on :
    (cs : List ℕ) (c : ℕ) (s : Table) (p : Phase)
    → s.receiving ≡ false
    → (waits (s.phase c) ≡ false) ⊎ (waits p ≡ true)
    → Kept cs s (move c p s)
on cs c s p r (inl h) = (r, ground (arith, waits_more cs c s.phase p h))
on cs c s p r (inr h) = (r, ground (arith, waits_on cs c s.phase p h))

if-Kept :
    (cs : List ℕ) (s t u : Table) (b : Bool)
    → Kept cs s t
    → Kept cs s u
    → Kept cs s (if b then t else u)
if-Kept cs s t u true h k = h
if-Kept cs s t u false h k = k

made-Kept :
    (cs : List ℕ) (c : ℕ) (s : Table) (p : Phase)
    → s.phase c ≡ p
    → s.receiving ≡ false
    → Kept cs s (made c s p)
made-Kept cs c s Phase.unknown e r = on cs c s Phase.pending r (inl (ap waits e))
made-Kept cs c s Phase.pending e r = same cs s r
made-Kept cs c s Phase.entered e r = same cs s r
made-Kept cs c s Phase.running e r = same cs s r
made-Kept cs c s Phase.finishing e r = same cs s r
made-Kept cs c s Phase.leaving e r = same cs s r
made-Kept cs c s Phase.gone e r = same cs s r

put_in-Kept :
    (cs : List ℕ) (c : ℕ) (s : Table) (p : Phase)
    → s.phase c ≡ p
    → s.receiving ≡ false
    → Kept cs s (put_in c s p)
put_in-Kept cs c s Phase.unknown e r = same cs s r
put_in-Kept cs c s Phase.pending e r = on cs c s Phase.entered r (inl (ap waits e))
put_in-Kept cs c s Phase.entered e r = same cs s r
put_in-Kept cs c s Phase.running e r = same cs s r
put_in-Kept cs c s Phase.finishing e r = same cs s r
put_in-Kept cs c s Phase.leaving e r = same cs s r
put_in-Kept cs c s Phase.gone e r = same cs s r

start-Kept :
    (cs : List ℕ) (c : ℕ) (s : Table) (p : Phase)
    → s.phase c ≡ p
    → s.receiving ≡ false
    → Kept cs s (start c s p)
start-Kept cs c s Phase.unknown e r = same cs s r
start-Kept cs c s Phase.pending e r = same cs s r
start-Kept cs c s Phase.entered e r = on cs c s Phase.running r (inr refl)
start-Kept cs c s Phase.running e r = same cs s r
start-Kept cs c s Phase.finishing e r = same cs s r
start-Kept cs c s Phase.leaving e r = same cs s r
start-Kept cs c s Phase.gone e r = same cs s r

end_reader-Kept :
    (cs : List ℕ) (c : ℕ) (s : Table) (p : Phase)
    → s.phase c ≡ p
    → s.receiving ≡ false
    → Kept cs s (end_reader c s p)
end_reader-Kept cs c s Phase.unknown e r = same cs s r
end_reader-Kept cs c s Phase.pending e r = same cs s r
end_reader-Kept cs c s Phase.entered e r = same cs s r
end_reader-Kept cs c s Phase.running e r = on cs c s Phase.finishing r (inr refl)
end_reader-Kept cs c s Phase.finishing e r = same cs s r
end_reader-Kept cs c s Phase.leaving e r = same cs s r
end_reader-Kept cs c s Phase.gone e r = same cs s r

take_out-Kept :
    (cs : List ℕ) (c : ℕ) (s : Table) (p : Phase)
    → s.phase c ≡ p
    → s.receiving ≡ false
    → Kept cs s (take_out c s p)
take_out-Kept cs c s Phase.unknown e r = same cs s r
take_out-Kept cs c s Phase.pending e r = same cs s r
take_out-Kept cs c s Phase.entered e r = same cs s r
take_out-Kept cs c s Phase.running e r = same cs s r
take_out-Kept cs c s Phase.finishing e r = same cs s r
take_out-Kept cs c s Phase.leaving e r = on cs c s Phase.gone r (inl (ap waits e))
take_out-Kept cs c s Phase.gone e r = same cs s r

send_off-Kept :
    (cs : List ℕ) (c : ℕ) (s : Table) (p : Phase)
    → distinct cs ≡ true
    → s.phase c ≡ p
    → s.receiving ≡ false
    → Kept cs s (send_off c s p)
send_off-Kept cs c s Phase.unknown u e r = same cs s r
send_off-Kept cs c s Phase.pending u e r = same cs s r
send_off-Kept cs c s Phase.entered u e r = same cs s r
send_off-Kept cs c s Phase.running u e r = same cs s r
send_off-Kept cs c s Phase.finishing u e r =
    (ground (arith, r), ground (arith, r, one_less cs c s.phase Phase.leaving u))
send_off-Kept cs c s Phase.leaving u e r = same cs s r
send_off-Kept cs c s Phase.gone u e r = same cs s r

on_event-Kept :
    (cs : List ℕ) (event : Event) (s : Table)
    → distinct cs ≡ true
    → s.receiving ≡ false
    → Kept cs s (on_event event s)
unfolding on_event
on_event-Kept cs (accept c) s u r =
    if-Kept cs s (made c s (s.phase c)) s s.listening (made-Kept cs c s (s.phase c) refl r)
      (same cs s r)
on_event-Kept cs (dial c) s u r = made-Kept cs c s (s.phase c) refl r
on_event-Kept cs (enter c) s u r = put_in-Kept cs c s (s.phase c) refl r
on_event-Kept cs (spawn c) s u r = start-Kept cs c s (s.phase c) refl r
on_event-Kept cs (finish c) s u r = end_reader-Kept cs c s (s.phase c) refl r
on_event-Kept cs (unregister c) s u r = send_off-Kept cs c s (s.phase c) u refl r
on_event-Kept cs (leave c) s u r = take_out-Kept cs c s (s.phase c) refl r
on_event-Kept cs receiver_ends s u r = (refl, ground arith)
on_event-Kept cs cancel s u r = same cs s r
on_event-Kept cs close_listener s u r = same cs s r
on_event-Kept cs close_conns s u r = same cs s r

pub history-Kept :
    (cs : List ℕ) (events : List Event) (s : Table)
    → distinct cs ≡ true
    → s.receiving ≡ false
    → Kept cs s (history events s)
unfolding history
history-Kept cs [] s u r = same cs s r
history-Kept cs (event ∷ events) s u r =
    let (r', first) = on_event-Kept cs event s u r in
    let (r'', second) = history-Kept cs events (on_event event s) u r' in (r'', ground arith)

-- Where nobody receives from the channel any longer, and some different connections have readers
-- that run or wait to unregister, then whatever events come, `Close` or others, at most as many of
-- these readers end as the buffer of the channel has room for: `wg.Wait` waits for the others.
pub history-waiting :
    (cs : List ℕ) (events : List Event) (s : Table)
    → distinct cs ≡ true
    → s.receiving ≡ false
    → waiting cs s.phase ≤ waiting cs (history events s).phase + s.room
history-waiting cs events s u r = let (_, kept) = history-Kept cs events s u r in ground arith
