-- ===== src/VerticalApi/Stopping.antt =====
-- For which ways in which the bytes stop the reader of verticalApi.go comes to an end.
use whisper2peer.Base.{ℕ, zero, suc, ◌≡◌, ◌≢◌, ◌<◌, ◌↔◌, refl, sym, ap, ◌∙◌, [], ◌∷◌, Bytes, length}
use whisper2peer.Messages.{Module}
use whisper2peer.VerticalApi.{
  Round, sends, skips, ends, crashes, read_round, End, closed, crashed, running, Stop, eof,
  cancelled, fails, handle_connection, handle_until,
}
use whisper2peer.VerticalApi.Panics.{handle_connection-ne-running}

-- What becomes of an end where reads go on to fail.
abbrev spinning : End → End
spinning closed = running
spinning crashed = crashed
spinning running = running

-- Without bytes the loop goes round for ever.
fails-running : (fuel : ℕ) (m : Module) → (handle_until fails fuel m []).1 ≡ running
unfolding handle_until read_round
fails-running zero m = refl
fails-running (suc fuel) m = fails-running fuel m

spinning_round :
    (fuel : ℕ) (m : Module) (input : Bytes) (r : Round)
    → read_round m input ≡ r
    → ((rest : Bytes)
        → (handle_until fails fuel m rest).1 ≡ spinning (handle_connection fuel m rest).1)
    → (handle_until fails (suc fuel) m input).1 ≡ spinning (handle_connection (suc fuel) m input).1
unfolding handle_until handle_connection
spinning_round fuel m input (sends x rest) e ih = rw (e, handle_until, handle_connection) (ih rest)
spinning_round fuel m input (skips rest) e ih = rw (e, handle_until, handle_connection) (ih rest)
spinning_round fuel m input ends e ih =
    rw (e, handle_until, handle_connection) (fails-running fuel m)
spinning_round fuel m input crashes e ih = rw (e, handle_until, handle_connection) refl

handle_until-fails :
    (fuel : ℕ) (m : Module) (input : Bytes)
    → (handle_until fails fuel m input).1 ≡ spinning (handle_connection fuel m input).1
unfolding handle_until handle_connection
handle_until-fails zero m input = refl
handle_until-fails (suc fuel) m input =
    spinning_round fuel m input (read_round m input) refl (handle_until-fails fuel m)

ending_round :
    (stop : Stop) (fuel : ℕ) (m : Module) (input : Bytes) (r : Round)
    → stop ≢ fails
    → read_round m input ≡ r
    → ((rest : Bytes) → handle_until stop fuel m rest ≡ handle_connection fuel m rest)
    → handle_until stop (suc fuel) m input ≡ handle_connection (suc fuel) m input
unfolding handle_until handle_connection
ending_round stop fuel m input (sends x rest) n e ih =
    rw (e, handle_until, handle_connection) (ap (λ r. (x ∷ r.0, r.1)) (ih rest))
ending_round stop fuel m input (skips rest) n e ih =
    rw (e, handle_until, handle_connection) (ih rest)
ending_round eof fuel m input ends n e ih = rw (e, handle_until, handle_connection) refl
ending_round cancelled fuel m input ends n e ih = rw (e, handle_until, handle_connection) refl
ending_round fails fuel m input ends n e ih = absurd (n refl)
ending_round stop fuel m input crashes n e ih = rw (e, handle_until, handle_connection) refl

handle_until-handle_connection :
    (stop : Stop) (fuel : ℕ) (m : Module) (input : Bytes)
    → stop ≢ fails
    → handle_until stop fuel m input ≡ handle_connection fuel m input
unfolding handle_until handle_connection
handle_until-handle_connection stop zero m input n = refl
handle_until-handle_connection stop (suc fuel) m input n =
    ending_round stop fuel m input (read_round m input) n refl
      (λ rest. handle_until-handle_connection stop fuel m rest n)

spinning-running : (end : End) → end ≢ running → (spinning end ≡ running) ↔ (end ≡ closed)
spinning-running closed n = (λ e. refl, λ e. refl)
spinning-running crashed n = (λ e. cc, λ e. cc)
spinning-running running n = absurd (n refl)

eof≢fails : eof ≢ fails
eof≢fails e = cc

cancelled≢fails : cancelled ≢ fails
cancelled≢fails e = cc

-- For fuel of one round more than the bytes that arrive, and for more, the reader still runs exactly
-- where an error other than `io.EOF` is met in each read behind these bytes, with the context of
-- the connection not done, and no packet of the bytes has made it panic. So it ends for each other
-- way in which the bytes stop, and for that one it goes round for ever.
pub handle_until-running_iff :
    (stop : Stop) (fuel : ℕ) (m : Module) (input : Bytes)
    → length input < fuel
    → ((handle_until stop fuel m input).1 ≡ running)
      ↔ ((stop ≡ fails) × ((handle_connection fuel m input).1 ≡ closed))
handle_until-running_iff eof fuel m input h = (
  λ e. absurd (
      handle_connection-ne-running m fuel input h
        (sym (ap (λ r. r.1) (handle_until-handle_connection eof fuel m input (λ c. cc))) ∙ e)),
  λ (e, _). absurd (eof≢fails e),
)
handle_until-running_iff cancelled fuel m input h = (
  λ e. absurd (
      handle_connection-ne-running m fuel input h (
        sym (ap (λ r. r.1) (handle_until-handle_connection cancelled fuel m input (λ c. cc))) ∙ e)),
  λ (e, _). absurd (cancelled≢fails e),
)
handle_until-running_iff fails fuel m input h =
    let spins = handle_until-fails fuel m input in
    let (to, from) =
      spinning-running (handle_connection fuel m input).1
        (handle_connection-ne-running m fuel input h) in
    (λ e. (refl, to (sym spins ∙ e)), λ (_, e). spins ∙ from e)
