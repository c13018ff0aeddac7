-- ===== src/TestBench/Packets/Totals.antt =====
-- The rows of `ProcessSentPackets` against the events.
use mathlib.Core.List.{Perm, foldr}
use mathlib.Core.List.Perm
use native.Mathlib.Nat.{ℕ_set}
use whisper2peer.Base.{
  ℕ, ◌+◌, ◌%◌, ◌^◌, ◌≤◌, ◌<◌, ◌-◌, subst, ◌≡◌, ◌≢◌, refl, Bool, true, false, List, [], ◌∷◌, keep,
  ◌==◌, if◌then◌else◌, arith,
}
use whisper2peer.TestBench.{Event}
use whisper2peer.TestBench.Sorting.{InOrder}
use whisper2peer.TestBench.Packets.{Row, chosen, closed_row, add_up, process_sent_packets}

-- What an event counts for a bucket.
abbrev bump : ℕ → Event → ℕ → ℕ
bump t e n = if e.time_bucket == t then e.cnt + n else n

-- The packets of some events for a bucket.
abbrev pub packets : ℕ → List Event → ℕ
packets t es = foldr (bump t) 0 es

-- The counts of the rows of a time.
unfoldable pub counted : ℕ → List Row → ℕ
counted t [] = 0
counted t (r ∷ rows) = (if r.time == t then r.cnt else 0) + counted t rows

-- The rows are in the order of time, and begin after a time.
abbrev pub Rising : ℕ → List Row → Type 0
Rising t [] = Unit
Rising t (r ∷ rows) = (t < r.time) × Rising r.time rows

-- The events are in the order of their buckets, and begin at or after a time.
abbrev pub Ordered : ℕ → List Event → Type 0
Ordered t es = InOrder (λ e. e.time_bucket) t es

bump_comm : (t : ℕ) (a b : Event) (n : ℕ) → bump t a (bump t b n) ≡ bump t b (bump t a n)
bump_comm t a b n = ground arith

packets-perm : (t : ℕ) (xs ys : List Event) → Perm xs ys → packets t xs ≡ packets t ys
packets-perm t xs ys p = Perm.foldr-eq ℕ_set (bump t) (bump_comm t) p 0

closed_row-counted :
    (t curr cnt : ℕ) (rows : List Row)
    → t ≢ 0
    → counted t (closed_row curr cnt rows) ≡ (if curr == t then cnt else 0) + counted t rows
unfolding counted
closed_row-counted t curr cnt rows n = ground (arith, n)

-- The rows of the loop begin with the current time.
add_up-counted :
    (t curr cnt : ℕ) (es : List Event)
    → t ≢ 0
    → counted t (add_up curr cnt es) % 2 ^ 64
      ≡ ((if curr == t then cnt else 0) + packets t es) % 2 ^ 64
unfolding add_up counted
add_up-counted t curr cnt [] n = ground (arith, n, closed_row-counted t curr cnt [] n)
add_up-counted t curr cnt (e ∷ es) n = ground (
  arith,
  closed_row-counted t curr cnt (add_up e.time_bucket e.cnt es) n,
  add_up-counted t curr ((cnt + e.cnt) % 2 ^ 64) es n,
  add_up-counted t e.time_bucket e.cnt es n,
)

Rising-lower : (t u : ℕ) (rows : List Row) → t ≤ u → Rising u rows → Rising t rows
Rising-lower t u [] h r = tt
Rising-lower t u (row ∷ rows) h r = (let first = r.0 in omega arith, r.1)

if-Rising :
    (t : ℕ) (b : Bool) (rows others : List Row)
    → (b ≡ true → Rising t rows)
    → (b ≡ false → Rising t others)
    → Rising t (if b then rows else others)
if-Rising t true rows others h k = h refl
if-Rising t false rows others h k = k refl

closed_row-Rising :
    (curr cnt : ℕ) (rows : List Row)
    → Rising curr rows
    → Rising (curr - 1) (closed_row curr cnt rows)
closed_row-Rising curr cnt rows r =
    if-Rising (curr - 1) (curr == 0) rows (record { time = curr; cnt = cnt } ∷ rows)
      (λ _. Rising-lower (curr - 1) curr rows (omega arith) r) (λ h. (ground (arith, h), r))

add_up-Rising :
    (curr cnt : ℕ) (es : List Event) → Ordered curr es → Rising (curr - 1) (add_up curr cnt es)
unfolding add_up
add_up-Rising curr cnt [] o = closed_row-Rising curr cnt [] tt
add_up-Rising curr cnt (e ∷ es) o =
    let next = e.time_bucket in
    let others = add_up next e.cnt es in
    let later = add_up-Rising next e.cnt es o.1 in
    let again = λ (h : Ordered curr es). add_up-Rising curr ((cnt + e.cnt) % 2 ^ 64) es h in
    let first = o.0 in
    if-Rising (curr - 1) (curr == next) (add_up curr ((cnt + e.cnt) % 2 ^ 64) es)
      (closed_row curr cnt others) (λ h. again (subst (λ u. Ordered u es) (ground (arith, h)) o.1))
      (λ h.
        closed_row-Rising curr cnt others
          (Rising-lower curr (next - 1) others (ground (arith, h, first)) later))

-- For any order of the events with the same bucket, the rows are in the order of time, with one row
-- for a time at most and none for the zero time. For each other time the row has the number of
-- packets of the type, or of all, that the events report for that bucket, up to the wrap-around.
pub process_sent_packets-packets :
    (sort_by_bucket : List Event → List Event)
    → ((es : List Event) → Perm (sort_by_bucket es) es)
    → ((es : List Event) → Ordered 0 (sort_by_bucket es))
    → (events : List Event) (gtype : ℕ) (all : Bool) (t : ℕ) → t ≢ 0
    → Rising 0 (process_sent_packets sort_by_bucket events gtype all)
      × (counted t (process_sent_packets sort_by_bucket events gtype all) % 2 ^ 64
          ≡ packets t (keep (chosen gtype all) events) % 2 ^ 64)
unfolding process_sent_packets
process_sent_packets-packets sort_by_bucket perm ordered events gtype all t n =
    let sent = keep (chosen gtype all) events in
    (
      add_up-Rising 0 0 (sort_by_bucket sent) (ordered sent),
      ground (
        arith,
        add_up-counted t 0 0 (sort_by_bucket sent) n,
        packets-perm t (sort_by_bucket sent) sent (perm sent),
      ),
    )
