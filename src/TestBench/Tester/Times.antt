-- ===== src/TestBench/Tester/Times.antt =====
-- The usual procedure with a tester, and the time at which its test begins.
use mathlib.Core.List.{Perm}
use Prim.Native.String.{String}
use whisper2peer.Base.{
  ℕ, ◌≡◌, ◌≢◌, ◌≤◌, ◌⊎◌, refl, ap, ◌∙◌, Bool, true, false, inl, inr, Option, some, List, [], ◌∷◌,
  ◌==◌, if◌then◌else◌, arith, All, Bool-cases,
}
use whisper2peer.Args.{Args}
use whisper2peer.Startup.{Network}
use whisper2peer.TestBench.{Event}
use whisper2peer.TestBench.Sorting.{InOrder, Sorts}
use whisper2peer.TestBench.Topology.{Topology, BenchPeer}
use whisper2peer.TestBench.Topology.Dialled.{Loopback, start_nodes-booted}
use whisper2peer.TestBench.Tester.{
  Tester, running, processing, done, new_tester, boot, after_boot, torn_down, connect_all,
  start_address, startup, earliest, least_time, teardown,
}

-- The times that some events carry; the zero time of a bucket is none.
abbrev pub stamps : List Event → List ℕ
stamps [] = []
stamps (e ∷ es) =
    let rest = stamps es in e.time ∷ (if e.time_bucket == 0 then rest else e.time_bucket ∷ rest)

-- Equal to some element of a list.
unfoldable pub AmongTimes : ℕ → List ℕ → Type 0
AmongTimes t [] = ⊥
AmongTimes t (s ∷ ss) = (t ≡ s) ⊎ AmongTimes t ss

-- The least of a time and those that some events carry.
pub record IsLeast (now : ℕ) (es : List Event) (t : ℕ) : Type 0 where
  pub below : All (λ s. t ≤ s) (now ∷ stamps es)
  pub attained : AmongTimes t (now ∷ stamps es)

earliest-le : (e : Event) (m : ℕ) → (earliest e m ≤ m) × (earliest e m ≤ e.time)
earliest-le e m = ground arith

earliest-le_bucket :
    (e : Event) (m : ℕ) → (e.time_bucket == 0) ≡ false → earliest e m ≤ e.time_bucket
earliest-le_bucket e m h = ground (arith, h)

least_time-le : (m : ℕ) (es : List Event) → least_time m es ≤ m
unfolding least_time
least_time-le m [] = omega arith
least_time-le m (e ∷ es) = omega (arith, least_time-le (earliest e m) es, (earliest-le e m).0)

least_time-below : (m : ℕ) (es : List Event) → All (λ s. least_time m es ≤ s) (stamps es)
unfolding least_time
least_time-below m [] = tt
least_time-below m (e ∷ es) =
    let low = least_time-le (earliest e m) es in
    (
      omega (arith, low, (earliest-le e m).1),
      elim (Bool-cases (e.time_bucket == 0)) [
        | inl zero_time ↦ rw zero_time (least_time-below (earliest e m) es)
        | inr set ↦
            rw set
              (omega (arith, low, earliest-le_bucket e m set), least_time-below (earliest e m) es)
      ],
    )

-- Where a round takes its time from.
earliest-cases :
    (e : Event) (m : ℕ)
    → (earliest e m ≡ m)
      ⊎ (earliest e m ≡ e.time)
      ⊎ ((earliest e m ≡ e.time_bucket) × ((e.time_bucket == 0) ≡ false))
earliest-cases e m = ground arith

AmongTimes-if :
    (t : ℕ) (b : Bool) (s : ℕ) (ss : List ℕ)
    → AmongTimes t ss
    → AmongTimes t (if b then ss else s ∷ ss)
unfolding AmongTimes
AmongTimes-if t true s ss h = h
AmongTimes-if t false s ss h = inr h

least_time-AmongTimes : (m : ℕ) (es : List Event) → AmongTimes (least_time m es) (m ∷ stamps es)
unfolding least_time AmongTimes
least_time-AmongTimes m [] = inl refl
least_time-AmongTimes m (e ∷ es) = elim (least_time-AmongTimes (earliest e m) es) [
  | inr later ↦ inr (inr (AmongTimes-if _ (e.time_bucket == 0) e.time_bucket (stamps es) later))
  | inl here ↦ elim (earliest-cases e m) [
    | inl same ↦ inl (here ∙ same)
    | inr (inl time) ↦ inr (inl (here ∙ time))
    | inr (inr bucket) ↦ inr (inr (rw (bucket.1) (inl (here ∙ bucket.0))))
  ]
]

least_time-IsLeast : (now : ℕ) (es : List Event) → IsLeast now es (least_time now es)
least_time-IsLeast now es = record {
  below = (least_time-le now es, least_time-below now es);
  attained = least_time-AmongTimes now es;
}

connect_all-true :
    (connects : BenchPeer → Bool) (ps : List BenchPeer)
    → ((p : BenchPeer) → connects p ≡ true)
    → connect_all connects ps ≡ true
connect_all-true connects [] h = refl
connect_all-true connects (p ∷ ps) h = rw (h p) (connect_all-true connects ps h)

-- Where each node has addresses of its own, no edge joins a node to itself and the test bench can
-- connect to each node, `Startup` of a new tester returns without an error. Whatever events are
-- logged then, `Teardown` returns without an error too (closing is left out) and leaves the tester
-- ready for the processing, with the same events in the order of their times, by any sort that
-- sorts, and the start of the test is the least of the current time and all times that the events
-- carry.
pub startup-teardown :
    (nets : List Args → Network) (connects : BenchPeer → Bool)
    (parse_addr : String → Option (ℕ → String)) (hosts : ℕ → String) (g : Topology)
    (start_ip : String) (sort_by_time : List Event → List Event) (events : List Event)
    (now later : ℕ)
    → parse_addr (start_address start_ip) ≡ some hosts
    → Loopback nets hosts
    → All (λ e. e.0 ≢ e.1) g.edges
    → ((p : BenchPeer) → connects p ≡ true)
    → Sorts (λ e. e.time) sort_by_time
    → (t t' : Tester) × (startup nets connects parse_addr (new_tester g) start_ip ≡ done t)
      × (teardown sort_by_time now later (record t { events = events }) ≡ done t')
      × (t'.state ≡ processing)
      × Perm t'.events events
      × InOrder (λ e. e.time) 0 t'.events
      × IsLeast now events t'.tmin
unfolding startup teardown
startup-teardown nets connects parse_addr hosts g start_ip sort_by_time events now later parsed loop
      loopless connected sorts =
    let (b, boots, found) = start_nodes-booted nets hosts g loop loopless in
    let t : Tester = record (new_tester g) { bench = b; state = running; cancels = true } in
    let t' = torn_down sort_by_time now later (record t { events = events }) in
    (
      t,
      t',
      ap (boot nets connects (record (new_tester g) { cancels = true })) parsed
          ∙ ap (after_boot connects (record (new_tester g) { cancels = true })) boots
          ∙ rw (connect_all-true connects b.peers connected) refl,
      refl,
      refl,
      sorts.permutes events,
      sorts.orders events,
      least_time-IsLeast now events,
    )
