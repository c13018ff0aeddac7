-- ===== src/ConnTable/Ending.antt =====
-- The end of `Run` in gossip/main/main.go with the `Close` of the vertical API.
use whisper2peer.Base.{ℕ, ◌+◌, ◌≡◌, refl, true, false, List, [], ◌∷◌, arith, ◌≤◌}
use whisper2peer.ConnTable.{
  Table, Event, receiver_ends, cancel, close_listener, close_conns, has, new_table, on_event,
  history, close,
}
use whisper2peer.ConnTable.Waiting.{waits, waiting, distinct, history-Kept, history-waiting}
use whisper2peer.ConnTable.Room.{history-room}

-- `Close` of the vertical API before its `wg.Wait`.
abbrev pub close_vertical : List Event → List Event → Table → Table
close_vertical before between s = close before between s

-- The loop, which receives from the unbuffered `vertToMain`, ends, and then the deferred `va.Close`
-- runs up to its `wg.Wait`, with what the goroutines of the vertical API do in between.
abbrev pub run_end : List Event → List Event → Table → Table
run_end before between s = close_vertical before between (on_event receiver_ends s)

-- The reader of a connection waits, and nothing can be sent.
abbrev Held : ℕ → Table → Type 0
Held c s = (s.receiving ≡ false) × (s.room ≡ 0) × (waits (s.phase c) ≡ true)

one_waits :
    (c : ℕ) (s t : Table)
    → s.room ≡ 0
    → waits (s.phase c) ≡ true
    → waiting (c ∷ []) s.phase ≤ waiting (c ∷ []) t.phase + s.room
    → waits (t.phase c) ≡ true
unfolding waiting
one_waits c s t room h more = ground (arith, room, h, more)

history-Held : (c : ℕ) (events : List Event) (s : Table) → Held c s → Held c (history events s)
unfolding distinct has
history-Held c events s (r, room, h) =
    let less = history-room events s in
    (
      (history-Kept (c ∷ []) events s refl r).0,
      ground (arith, less, room),
      one_waits c s (history events s) room h (history-waiting (c ∷ []) events s refl r),
    )

-- Where the loop of `Run` ends while the reader of a connection runs or waits to unregister it, it
-- still runs or waits after `va.Close` has closed its connection and any events have followed: it
-- never gets past its `GossipUnRegister`, and the `wg.Wait` of `va.Close` waits for it.
pub run_end-waits :
    (earlier before between later : List Event) (c : ℕ)
    → waits ((history earlier (new_table 0)).phase c) ≡ true
    → waits ((history later (run_end before between (history earlier (new_table 0)))).phase c)
      ≡ true
unfolding on_event
run_end-waits earlier before between later c h =
    let s0 = history earlier (new_table 0) in
    let s1 = on_event cancel (on_event receiver_ends s0) in
    let s2 = on_event close_listener (history before s1) in
    let s3 = on_event close_conns (history between s2) in
    let less = history-room earlier (new_table 0) in
    let held1 = history-Held c before s1 (refl, ground (arith, less), h) in
    let held2 = history-Held c between s2 held1 in (history-Held c later s3 held2).2
