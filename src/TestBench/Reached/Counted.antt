-- ===== src/TestBench/Reached/Counted.antt =====
-- The rows of `ProcessReachedDistCnt` against the events.
use Prim.Native.String.{String}
use whisper2peer.Base.{
  ℕ, suc, ◌+◌, ◌%◌, ◌^◌, ◌≤◌, ◌<◌, ◌≡◌, refl, ap, ◌∙◌, Bool, true, false, Option, none, some, List,
  [], ◌∷◌, ◌++◌, keep, length, ◌==◌, ==_refl, ◌&&◌, if◌then◌else◌, arith, Bool-cases, inl, inr,
}
use whisper2peer.TestBench.{Event}
use whisper2peer.TestBench.Distances.{Distances, put, visited}
use whisper2peer.TestBench.Book.{
  DistanceBook, value, Counts, noted, one_more, count_one, count_all, setup_for_distance,
}
use whisper2peer.TestBench.Reached.{
  ReachedRow, reaches, dist_at, reach, count_events, rows_at, process_reached_dist_cnt,
}

-- How many events are at a distance.
abbrev pub events_at : (Event → ℕ) → ℕ → List Event → ℕ
events_at dist d [] = 0
events_at dist d (e ∷ es) = let n = events_at dist d es in if dist e == d then suc n else n

-- A row for each event, with the number of those at its distance up to it. The events before are
-- given, the last one first.
abbrev pub timeline : (Event → ℕ) → List Event → List Event → List ReachedRow
timeline dist seen [] = []
timeline dist seen (e ∷ es) =
    record { time = e.time; distance = dist e; reached = events_at dist (dist e) (e ∷ seen) }
    ∷ timeline dist (e ∷ seen) es

events_at-le : (dist : Event → ℕ) (d : ℕ) (es : List Event) → events_at dist d es ≤ length es
events_at-le dist d [] = omega arith
events_at-le dist d (e ∷ es) = ground (arith, events_at-le dist d es)

put-value :
    (d v n : ℕ) (cnt : Distances) → value (put v n cnt d) ≡ (if d == v then n else value (cnt d))
put-value d v n cnt = elim (Bool-cases (d == v)) [
  | inl here ↦ rw here refl
  | inr elsewhere ↦ rw elsewhere refl
]

raised :
    (f : ℕ → ℕ) (v d k x : ℕ)
    → k ≡ f v
    → x ≡ f d
    → f v + 1 < 2 ^ 64
    → (if d == v then (k + 1) % 2 ^ 64 else x) ≡ (if v == d then suc (f d) else f d)
raised f v d k x there here small = elim (Bool-cases (d == v)) [
  | inl same ↦
      let e : d ≡ v = ground (arith, same) in rw (same, e, ==_refl v, there) (omega (arith, small))
  | inr other ↦ let other' : (v == d) ≡ false = ground (arith, other) in rw (other, other') here
]

-- A count that is raised is that of one event more.
reach-events_at :
    (dist : Event → ℕ) (e : Event) (seen : List Event) (cnt : Distances)
    → length seen + 1 < 2 ^ 64
    → ((d : ℕ) → value (cnt d) ≡ events_at dist d seen)
    → (d : ℕ) → value (reach (dist e) cnt d) ≡ events_at dist d (e ∷ seen)
reach-events_at dist e seen cnt small same d =
    put-value d (dist e) ((value (cnt (dist e)) + 1) % 2 ^ 64) cnt
    ∙ raised (λ k. events_at dist k seen) (dist e) d (value (cnt (dist e))) (value (cnt d))
        (same (dist e)) (same d) (omega (arith, small, events_at-le dist (dist e) seen))

-- The loop over the events, behind some of them.
count_events-timeline :
    (dist : Event → ℕ) (es seen : List Event) (cnt : Distances)
    → length es + length seen < 2 ^ 64
    → ((d : ℕ) → value (cnt d) ≡ events_at dist d seen)
    → ((count_events dist cnt es).0 ≡ timeline dist seen es)
      × ((d : ℕ)
          → value ((count_events dist cnt es).1 d) ≡ events_at dist d es + events_at dist d seen)
unfolding count_events
count_events-timeline dist [] seen cnt small same = (refl, λ d. same d ∙ omega arith)
count_events-timeline dist (e ∷ es) seen cnt small same =
    let up = reach-events_at dist e seen cnt (omega (arith, small)) same in
    let next =
      count_events-timeline dist es (e ∷ seen) (reach (dist e) cnt) (omega (arith, small)) up in
    (
      ap
            (λ n.
              record { time = e.time; distance = dist e; reached = n }
              ∷ (count_events dist (reach (dist e) cnt) es).0)
            (up (dist e))
          ∙ ap
              (λ rows.
                record {
                  time = e.time;
                  distance = dist e;
                  reached = events_at dist (dist e) (e ∷ seen);
                }
                ∷ rows)
              next.0,
      λ d. next.1 d ∙ ground arith,
    )

zeroed : (o : Option ℕ) → value (elim o as (λ _. Option ℕ) [ some n ↦ some 0 | none ↦ none ]) ≡ 0
zeroed none = refl
zeroed (some n) = refl

noted-zero :
    (v : ℕ) (b : Bool) (c : Counts)
    → ((d : ℕ) → value (c.dist_cnt d) ≡ 0)
    → (d : ℕ) → value ((one_more v (noted v b c)).dist_cnt d) ≡ 0
noted-zero v true c h d = h d
noted-zero v false c h d = put-value d v 0 c.dist_cnt ∙ ground (arith, h d)

count_all-zero :
    (nodes : List (ℕ × ℕ)) (c : Counts)
    → ((d : ℕ) → value (c.dist_cnt d) ≡ 0)
    → (d : ℕ) → value ((count_all nodes c).dist_cnt d) ≡ 0
unfolding count_all
count_all-zero [] c h d = h d
count_all-zero ((n, v) ∷ nodes) c h d =
    count_all-zero nodes (count_one v c) (noted-zero v (visited c.dist_cnt v) c h) d

-- An evaluation begins with nothing counted, whether the book is kept or not.
setup_for_distance-zero :
    (sort : List ℕ → List ℕ) (gen_distances : ℕ → List (ℕ × ℕ)) (book : DistanceBook) (start d : ℕ)
    → value ((setup_for_distance sort gen_distances book start).1 d) ≡ 0
unfolding setup_for_distance
setup_for_distance-zero sort gen_distances book start d =
    elim (Bool-cases (book.valid && book.start_node == start)) [
      | inl kept ↦ rw kept (zeroed (book.dist_max_cnt d))
      | inr new ↦ rw new (count_all-zero (gen_distances start) _ (λ k. refl) d)
    ]

rows_at-same :
    (time : ℕ) (f g : ℕ → ℕ) (ord : List ℕ)
    → ((d : ℕ) → f d ≡ g d)
    → rows_at time f ord ≡ rows_at time g ord
rows_at-same time f g [] h = refl
rows_at-same time f g (d ∷ ord) h = rw (h d, rows_at-same time f g ord h) refl

-- For fewer than `2 ^ 64` chosen events the rows are: at the start of the test a row with 0 for each
-- known distance, then a row for each event with the number of the events so far from nodes at the
-- same distance, and at the end for each known distance a row with the number of all events from
-- nodes at it.
pub process_reached_dist_cnt-timeline :
    (sort : List ℕ → List ℕ) (gen_distances : ℕ → List (ℕ × ℕ)) (peers_lut : String → ℕ)
    (book : DistanceBook) (tmin tmax : ℕ) (events : List Event) (start gtype : ℕ) (all : Bool)
    → length (keep (reaches gtype all) events) < 2 ^ 64
    → let es = keep (reaches gtype all) events in
      let b = (setup_for_distance sort gen_distances book start).0 in
      let dist : Event → ℕ = λ e. dist_at b.node_to_dist (peers_lut e.id) in
      (process_reached_dist_cnt sort gen_distances peers_lut book tmin tmax events start gtype
        all).0
      ≡ rows_at tmin (λ d. 0) b.dist_ord
        ++ (timeline dist [] es ++ rows_at tmax (λ d. events_at dist d es) b.dist_ord)
unfolding process_reached_dist_cnt
process_reached_dist_cnt-timeline sort gen_distances peers_lut book tmin tmax events start gtype all
      small =
    let es = keep (reaches gtype all) events in
    let made = setup_for_distance sort gen_distances book start in
    let dist : Event → ℕ = λ e. dist_at made.0.node_to_dist (peers_lut e.id) in
    let counted =
      count_events-timeline dist es [] made.1 (omega (arith, small))
        (setup_for_distance-zero sort gen_distances book start) in
    let ends =
      rows_at-same tmax (λ d. value ((count_events dist made.1 es).1 d)) (λ d. events_at dist d es)
        made.0.dist_ord (λ d. counted.1 d ∙ omega arith) in
    ap (λ rows. rows_at tmin (λ d. 0) made.0.dist_ord ++ rows)
      (ap
          (λ rows.
            rows ++ rows_at tmax (λ d. value ((count_events dist made.1 es).1 d)) made.0.dist_ord)
          counted.0
        ∙ ap (λ rows. timeline dist [] es ++ rows) ends)
