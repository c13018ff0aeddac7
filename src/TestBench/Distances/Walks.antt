-- ===== src/TestBench/Distances/Walks.antt =====
-- What the distances of `CalcDistances` stand for.
use mathlib.Core.Option.{some-injective}
use whisper2peer.Base.{
  ℕ, zero, suc, ◌+◌, ◌-◌, ◌%◌, ◌^◌, ◌≤◌, ◌<◌, ◌≡◌, refl, ap, ◌∙◌, Bool, true, false, Option, none,
  some, List, [], ◌∷◌, ◌++◌, ◌==◌, ◌&&◌, ◌||◌, if◌then◌else◌, arith, All, All-append, subst, sym,
  Bool-cases, ◌⊎◌, inl, inr, ltb,
}
use whisper2peer.TestBench.Distances.{
  Graph, adjacent, Todo, Distances, visited, put, new_todo, round, search, with_unconnected,
  start_todo, calc_distances,
}
use whisper2peer.TestBench.Distances.Ends.{has, has-append, visited-put, search-Ends}

-- An edge, in one direction or the other.
unfoldable pub linked : List (ℕ × ℕ) → ℕ → ℕ → Bool
linked [] n m = false
linked ((a, b) ∷ edges) n m = (a == n && b == m) || ((b == n && a == m) || linked edges n m)

-- A walk along edges, with its length.
pub data Walk (edges : List (ℕ × ℕ)) (start : ℕ) : ℕ → ℕ → Type 0 where
  here : Walk edges start start 0
  along : (n m k : ℕ) → Walk edges start n k → linked edges n m ≡ true → Walk edges start m (suc k)

-- A distance is the length of a walk, up to the wrap-around.
abbrev pub Walked : List (ℕ × ℕ) → ℕ → ℕ → ℕ → Type 0
Walked edges start n d = (k : ℕ) × Walk edges start n k × (d ≡ k % 2 ^ 64)

adjacent-linked : (edges : List (ℕ × ℕ)) (n m : ℕ) → has m (adjacent edges n) ≡ linked edges n m
unfolding adjacent linked has
adjacent-linked [] n m = refl
adjacent-linked ((a, b) ∷ edges) n m = ground (
  arith,
  adjacent-linked edges n m,
  has-append m (if a == n then b ∷ [] else [])
      ((if b == n then a ∷ [] else []) ++ adjacent edges n),
  has-append m (if b == n then a ∷ [] else []) (adjacent edges n),
)

-- Where a node comes to mind: it is visited, or there is work for it.
unfoldable in_work : ℕ → List Todo → Bool
in_work m [] = false
in_work m (t ∷ todo) = if t.node == m then true else in_work m todo

in_work-append :
    (m : ℕ) (xs ys : List Todo)
    → in_work m (xs ++ ys) ≡ (if in_work m xs then true else in_work m ys)
unfolding in_work
in_work-append m [] ys = refl
in_work-append m (t ∷ xs) ys = ground (arith, in_work-append m xs ys)

-- A neighbor is visited or gets work.
in_work-new_todo :
    (m d : ℕ) (ret : Distances) (ns : List ℕ)
    → has m ns ≡ true
    → (if visited ret m then true else in_work m (new_todo ret d ns)) ≡ true
unfolding in_work has new_todo
in_work-new_todo m d ret [] h = absurd (ground (arith, h))
in_work-new_todo m d ret (n ∷ ns) h = ground (arith, h, in_work-new_todo m d ret ns)

-- A walk to each node that work is for, and to each visited one.
abbrev SoundTodo : List (ℕ × ℕ) → ℕ → List Todo → Type 0
SoundTodo edges start todo = All (λ t. Walked edges start t.node t.dist) todo

abbrev Sound : List (ℕ × ℕ) → ℕ → Distances → Type 0
Sound edges start ret = (n d : ℕ) → ret n ≡ some d → Walked edges start n d

new_todo-Sound :
    (edges : List (ℕ × ℕ)) (start n d : ℕ) (ret : Distances) (ns : List ℕ)
    → Walked edges start n d
    → ((m : ℕ) → has m ns ≡ true → linked edges n m ≡ true)
    → SoundTodo edges start (new_todo ret d ns)
unfolding new_todo has
new_todo-Sound edges start n d ret [] w h = tt
new_todo-Sound edges start n d ret (m ∷ ns) (k, walk, e) h =
    let rest =
      new_todo-Sound edges start n d ret ns (k, walk, e) (λ x i. h x (ground (arith, i))) in
    let next : Walked edges start m ((d + 1) % 2 ^ 64) =
      (suc k, along n m k walk (h m (ground arith)), ground (arith, e)) in
    elim (visited ret m)
      as (λ b. SoundTodo edges start (
        if b
        then new_todo ret d ns
        else record { node = m; dist = (d + 1) % 2 ^ 64 } ∷ new_todo ret d ns)) [
          | true ↦ rest
          | false ↦ (next, rest)
        ]

put-Sound :
    (edges : List (ℕ × ℕ)) (start : ℕ) (t : Todo) (ret : Distances)
    → Walked edges start t.node t.dist
    → Sound edges start ret
    → Sound edges start (put t.node t.dist ret)
put-Sound edges start t ret w h n d e = elim (Bool-cases (n == t.node)) [
  | inl same ↦
      let here_now : t.node ≡ n = ground (arith, same) in
      let dist_now : t.dist ≡ d = ground (arith, same, e) in
      subst (λ x. Walked edges start x d) here_now
        (subst (λ y. Walked edges start t.node y) dist_now w)
  | inr other ↦ h n d (ground (arith, other, e))
]

search-Sound :
    (edges : List (ℕ × ℕ)) (start fuel : ℕ) (todo : List Todo) (ret r : Distances)
    → SoundTodo edges start todo
    → Sound edges start ret
    → search fuel edges todo ret ≡ some r
    → Sound edges start r
unfolding search
search-Sound edges start fuel [] ret r w h e = subst (Sound edges start) (some-injective ret r e) h
search-Sound edges start zero (t ∷ todo) ret r w h e = absurd (ground (arith, e))
search-Sound edges start (suc fuel) (t ∷ todo) ret r w h e =
    let ret' = put t.node t.dist ret in
    search-Sound edges start fuel (round edges t todo ret).0 ret' r
      (All-append (λ x. Walked edges start x.node x.dist) todo _ w.1
        (new_todo-Sound edges start t.node t.dist ret' (adjacent edges t.node) w.0
          (λ m i. sym (adjacent-linked edges t.node m) ∙ i)))
      (put-Sound edges start t ret w.0 h) e

-- Each node linked to a visited one is visited or gets work.
abbrev known : List Todo → Distances → ℕ → Bool
known todo ret m = if visited ret m then true else in_work m todo

abbrev Covered : List (ℕ × ℕ) → List Todo → Distances → Type 0
Covered edges todo ret =
    (n m : ℕ) → visited ret n ≡ true → linked edges n m ≡ true → known todo ret m ≡ true

-- The same, for the tests by themselves.
still_known :
    (n m : ℕ) (seen seen' work work' new : Bool)
    → seen' ≡ (if m == n then true else seen)
    → work' ≡ (if work then true else new)
    → (if seen then true else (if n == m then true else work)) ≡ true
    → (if seen' then true else work') ≡ true
still_known n m seen seen' work work' new e f h = ground (arith, e, f, h)

newly_known :
    (seen work work' new : Bool)
    → work' ≡ (if work then true else new)
    → (if seen then true else new) ≡ true
    → (if seen then true else work') ≡ true
newly_known seen work work' new f h = ground (arith, f, h)

seen_before :
    (n m : ℕ) (seen seen' : Bool)
    → seen' ≡ (if m == n then true else seen)
    → (m == n) ≡ false
    → seen' ≡ true
    → seen ≡ true
seen_before n m seen seen' e other h = ground (arith, e, other, h)

-- What is known stays known.
known-round :
    (edges : List (ℕ × ℕ)) (t : Todo) (todo : List Todo) (ret : Distances) (m : ℕ)
    → known (t ∷ todo) ret m ≡ true
    → known (round edges t todo ret).0 (put t.node t.dist ret) m ≡ true
unfolding in_work
known-round edges t todo ret m h =
    let ret' = put t.node t.dist ret in
    let new = new_todo ret' t.dist (adjacent edges t.node) in
    still_known t.node m (visited ret m) (visited ret' m) (in_work m todo) (in_work m (todo ++ new))
      (in_work m new) (visited-put t.node t.dist ret m) (in_work-append m todo new) h

-- The neighbors of the node at hand are known now.
known-neighbor :
    (edges : List (ℕ × ℕ)) (t : Todo) (todo : List Todo) (ret : Distances) (m : ℕ)
    → linked edges t.node m ≡ true
    → known (round edges t todo ret).0 (put t.node t.dist ret) m ≡ true
known-neighbor edges t todo ret m l =
    let ret' = put t.node t.dist ret in
    let new = new_todo ret' t.dist (adjacent edges t.node) in
    newly_known (visited ret' m) (in_work m todo) (in_work m (todo ++ new)) (in_work m new)
      (in_work-append m todo new)
      (in_work-new_todo m t.dist ret' (adjacent edges t.node) (adjacent-linked edges t.node m ∙ l))

round-Covered :
    (edges : List (ℕ × ℕ)) (t : Todo) (todo : List Todo) (ret : Distances)
    → Covered edges (t ∷ todo) ret
    → Covered edges (round edges t todo ret).0 (put t.node t.dist ret)
round-Covered edges t todo ret h n m v l = elim (Bool-cases (n == t.node)) [
  | inl same ↦
      let at_hand : n ≡ t.node = ground (arith, same) in
      known-neighbor edges t todo ret m (subst (λ x. linked edges x m ≡ true) at_hand l)
  | inr other ↦
      let before : visited ret n ≡ true =
        seen_before t.node n (visited ret n) (visited (put t.node t.dist ret) n)
          (visited-put t.node t.dist ret n) other v in
      known-round edges t todo ret m (h n m before l)
]

-- At the end the nodes that were known are visited, and all that are linked to visited ones.
search-Covered :
    (edges : List (ℕ × ℕ)) (fuel : ℕ) (todo : List Todo) (ret r : Distances)
    → Covered edges todo ret
    → search fuel edges todo ret ≡ some r
    → Covered edges [] r × ((m : ℕ) → known todo ret m ≡ true → visited r m ≡ true)
unfolding search in_work
search-Covered edges fuel [] ret r h e =
    let same = some-injective ret r e in
    (
      subst (Covered edges []) same h,
      λ m k. subst (λ x. visited x m ≡ true) same (ground (arith, k)),
    )
search-Covered edges zero (t ∷ todo) ret r h e = absurd (ground (arith, e))
search-Covered edges (suc fuel) (t ∷ todo) ret r h e =
    let next = round edges t todo ret in
    let (covered, kept) =
      search-Covered edges fuel next.0 next.1 r (round-Covered edges t todo ret h) e in
    (covered, λ m k. kept m (known-round edges t todo ret m k))

-- A node that a walk reaches is visited.
Walk-visited :
    (edges : List (ℕ × ℕ)) (start : ℕ) (r : Distances)
    → Covered edges [] r
    → visited r start ≡ true
    → (n k : ℕ) → Walk edges start n k
    → visited r n ≡ true
unfolding in_work
Walk-visited edges start r h v _ _ here = v
Walk-visited edges start r h v _ _ (along n m k walk l) =
    let before = Walk-visited edges start r h v n k walk in
    let now = h n m before l in ground (arith, now)

abbrev pub NoWalk : List (ℕ × ℕ) → ℕ → ℕ → Type 0
NoWalk edges start n = (k : ℕ) → ¬ Walk edges start n k

-- What the distance that is given for a node says of it.
abbrev pub Says : Graph → ℕ → ℕ → Option ℕ → Type 0
Says g start n (some d) =
    Walked g.edges start n d ⊎ (NoWalk g.edges start n × (n < g.nodes) × (d ≡ 2 ^ 64 - 1))
Says g start n none = NoWalk g.edges start n × (g.nodes ≤ n)

unconnected :
    (g : Graph) (start n : ℕ) (inside : Bool)
    → ltb n g.nodes ≡ inside
    → NoWalk g.edges start n
    → Says g start n (if inside then some (2 ^ 64 - 1) else none)
unconnected g start n true h unreached = inr (unreached, ground (arith, h), refl)
unconnected g start n false h unreached = (unreached, ground (arith, h))

with_unconnected-Says :
    (g : Graph) (start n : ℕ) (ret : Distances) (o : Option ℕ)
    → ret n ≡ o
    → Sound g.edges start ret
    → ((m k : ℕ) → Walk g.edges start m k → visited ret m ≡ true)
    → Says g start n
        (elim o [ some d ↦ some d | none ↦ if ltb n g.nodes then some (2 ^ 64 - 1) else none ])
with_unconnected-Says g start n ret (some d) e sound all = inl (sound n d e)
with_unconnected-Says g start n ret none e sound all =
    unconnected g start n (ltb n g.nodes) refl
      (λ k walk. let seen = all n k walk in ground (arith, seen, e))

-- For each graph and each node to start from, `CalcDistances` ends. The distance that it gives for a
-- node is the length of a walk to it, up to the wrap-around of 64 bits, or the greatest integer, and
-- then the node is one of the graph and no walk leads to it; no walk leads to a node for which it
-- gives none.
pub calc_distances-Says :
    (g : Graph) (start : ℕ)
    → (fuel : ℕ) × (r : Distances) × (calc_distances fuel g start ≡ some r)
      × ((n : ℕ) → Says g start n (r n))
unfolding calc_distances in_work
calc_distances-Says g start =
    let (fuel, ret, e) = search-Ends g.edges start 0 (λ n. none) in
    let sound =
      search-Sound g.edges start fuel (start_todo start) (λ n. none) ret ((0, here, refl), tt)
        (λ n d none_yet. absurd (ground (arith, none_yet))) e in
    let (covered, kept) =
      search-Covered g.edges fuel (start_todo start) (λ n. none) ret
        (λ n m v l. absurd (ground (arith, v))) e in
    let reached = Walk-visited g.edges start ret covered (kept start (ground arith)) in
    (
      fuel,
      with_unconnected g.nodes ret,
      ap
          (λ o. elim o as (λ _. Option Distances) [
            | some r ↦ some (with_unconnected g.nodes r)
            | none ↦ none
          ])
          e,
      λ n. with_unconnected-Says g start n ret (ret n) refl sound reached,
    )
