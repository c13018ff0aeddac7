-- ===== src/TestBench/Distances/Ends.antt =====
-- The search for distances ends.
use whisper2peer.Base.{
  ℕ, zero, suc, ◌+◌, ◌≤◌, ◌<◌, ◌≡◌, refl, ◌∙◌, Bool, true, false, none, some, List, [], ◌∷◌, ◌++◌,
  append-nil, append_assoc, ◌==◌, if◌then◌else◌, arith, All, All-append, subst, sym, Bool-cases,
  inl, inr,
}
use whisper2peer.TestBench.Distances.{
  adjacent, Todo, Distances, visited, put, new_todo, round, search,
}

-- A number stands in a list.
unfoldable pub has : ℕ → List ℕ → Bool
has n [] = false
has n (x ∷ xs) = if x == n then true else has n xs

-- The ends of the edges.
unfoldable pub ends : List (ℕ × ℕ) → List ℕ
ends [] = []
ends ((a, b) ∷ edges) = a ∷ b ∷ ends edges

-- How many of some nodes are not visited.
unfoldable fresh : List ℕ → (ℕ → Bool) → ℕ
fresh [] seen = 0
fresh (n ∷ ns) seen = (if seen n then 0 else 1) + fresh ns seen

-- What `put` makes of the visited nodes.
abbrev pub with_node : ℕ → (ℕ → Bool) → ℕ → Bool
with_node n seen m = if m == n then true else seen m

pub visited-put :
    (n d : ℕ) (ret : Distances) (m : ℕ) → visited (put n d ret) m ≡ with_node n (visited ret) m
visited-put n d ret m = either (m == n)
  where
    either :
        (b : Bool)
        → (elim (if b then some d else ret m) as (λ _. Bool) [ some d ↦ true | none ↦ false ])
          ≡ (if b then true else visited ret m)
    either true = refl
    either false = refl

fresh-with_node :
    (ns : List ℕ) (n : ℕ) (seen : ℕ → Bool) → fresh ns (with_node n seen) ≤ fresh ns seen
unfolding fresh
fresh-with_node [] n seen = ground arith
fresh-with_node (x ∷ ns) n seen = ground (arith, fresh-with_node ns n seen)

-- A node that was not visited is one less.
fresh-with_node_new :
    (ns : List ℕ) (n : ℕ) (seen : ℕ → Bool)
    → has n ns ≡ true
    → seen n ≡ false
    → fresh ns (with_node n seen) < fresh ns seen
unfolding fresh has
fresh-with_node_new [] n seen h v = absurd (ground (arith, h))
fresh-with_node_new (x ∷ ns) n seen h v =
    ground (arith, h, v, fresh-with_node ns n seen, fresh-with_node_new ns n seen)

fresh-ext :
    (ns : List ℕ) (seen also : ℕ → Bool)
    → ((n : ℕ) → seen n ≡ also n)
    → fresh ns seen ≡ fresh ns also
unfolding fresh
fresh-ext [] seen also h = refl
fresh-ext (x ∷ ns) seen also h = ground (arith, h x, fresh-ext ns seen also h)

pub has-append : (n : ℕ) (xs ys : List ℕ) → has n (xs ++ ys) ≡ (if has n xs then true else has n ys)
unfolding has
has-append n [] ys = refl
has-append n (x ∷ xs) ys = ground (arith, has-append n xs ys)

-- A neighbor is an end of an edge.
has-adjacent :
    (edges : List (ℕ × ℕ)) (n m : ℕ) → has m (adjacent edges n) ≡ true → has m (ends edges) ≡ true
unfolding adjacent ends has
has-adjacent [] n m h = h
has-adjacent ((a, b) ∷ edges) n m h = ground (
  arith,
  h,
  has-adjacent edges n m,
  has-append m (if a == n then b ∷ [] else [])
      ((if b == n then a ∷ [] else []) ++ adjacent edges n),
  has-append m (if b == n then a ∷ [] else []) (adjacent edges n),
)

-- The work on the list is for some nodes.
abbrev Within : List ℕ → List Todo → Type 0
Within u todo = All (λ t. has t.node u ≡ true) todo

abbrev Unvisited : Distances → List Todo → Type 0
Unvisited ret todo = All (λ t. visited ret t.node ≡ false) todo

if-All :
    {A : Type 0} (P : A → Type 0) (b : Bool) (xs ys : List A)
    → (b ≡ true → All P xs)
    → (b ≡ false → All P ys)
    → All P (if b then xs else ys)
if-All P true xs ys h k = h refl
if-All P false xs ys h k = k refl

new_todo-Within :
    (u : List ℕ) (ret : Distances) (d : ℕ) (ns : List ℕ)
    → ((m : ℕ) → has m ns ≡ true → has m u ≡ true)
    → Within u (new_todo ret d ns)
unfolding new_todo has
new_todo-Within u ret d [] h = tt
new_todo-Within u ret d (n ∷ ns) h =
    let rest = new_todo-Within u ret d ns (λ m k. h m (ground (arith, k))) in
    if-All (λ t. has t.node u ≡ true) (visited ret n) _ _ (λ _. rest)
      (λ _. (h n (ground arith), rest))

new_todo-Unvisited : (ret : Distances) (d : ℕ) (ns : List ℕ) → Unvisited ret (new_todo ret d ns)
unfolding new_todo
new_todo-Unvisited ret d [] = tt
new_todo-Unvisited ret d (n ∷ ns) =
    let rest = new_todo-Unvisited ret d ns in
    if-All (λ t. visited ret t.node ≡ false) (visited ret n) _ _ (λ _. rest) (λ e. (e, rest))

-- The search from some work gives distances, on enough fuel.
abbrev pub Ends : List (ℕ × ℕ) → List Todo → Distances → Type 0
Ends edges todo ret = (fuel : ℕ) × (r : Distances) × (search fuel edges todo ret ≡ some r)

one_round :
    (edges : List (ℕ × ℕ)) (t : Todo) (todo : List Todo) (ret : Distances)
    → Ends edges (round edges t todo ret).0 (round edges t todo ret).1
    → Ends edges (t ∷ todo) ret
unfolding search
one_round edges t todo ret (fuel, r, e) = (suc fuel, r, e)

no_work : (edges : List (ℕ × ℕ)) (ret : Distances) → Ends edges [] ret
unfolding search
no_work edges ret = (0, ret, refl)

still-Unvisited :
    (n d : ℕ) (ret : Distances) (todo : List Todo)
    → visited ret n ≡ true
    → Unvisited ret todo
    → Unvisited (put n d ret) todo
still-Unvisited n d ret [] v h = tt
still-Unvisited n d ret (t ∷ todo) v h =
    let first = h.0 in
    (visited-put n d ret t.node ∙ ground (arith, v, first), still-Unvisited n d ret todo v h.1)

module _ (edges : List (ℕ × ℕ)) (u : List ℕ)
    (closed : (n m : ℕ) → has m (adjacent edges n) ≡ true → has m u ≡ true) where
  fresh-round :
      (n d : ℕ) (ret : Distances) → fresh u (visited (put n d ret)) ≤ fresh u (visited ret)
  fresh-round n d ret = ground (
    arith,
    fresh-ext u (visited (put n d ret)) (with_node n (visited ret)) (visited-put n d ret),
    fresh-with_node u n (visited ret),
  )

  fresh-round_new :
      (n d : ℕ) (ret : Distances)
      → has n u ≡ true
      → visited ret n ≡ false
      → fresh u (visited (put n d ret)) < fresh u (visited ret)
  fresh-round_new n d ret h v = ground (
    arith,
    fresh-ext u (visited (put n d ret)) (with_node n (visited ret)) (visited-put n d ret),
    fresh-with_node_new u n (visited ret) h v,
  )

  added-Within :
      (t : Todo) (ret : Distances)
      → Within u (new_todo (put t.node t.dist ret) t.dist (adjacent edges t.node))
  added-Within t ret =
      new_todo-Within u (put t.node t.dist ret) t.dist (adjacent edges t.node) (closed t.node)

  round-Within :
      (t : Todo) (todo : List Todo) (ret : Distances)
      → Within u todo
      → Within u (round edges t todo ret).0
  round-Within t todo ret w = All-append (λ t. has t.node u ≡ true) todo _ w (added-Within t ret)

  module _ (c : ℕ)
      (fewer : (todo : List Todo) (ret : Distances)
        → fresh u (visited ret) < c
        → Within u todo
        → Ends edges todo ret) where
    -- A node that was not visited.
    visits :
        (t : Todo) (todo : List Todo) (ret : Distances)
        → fresh u (visited ret) ≤ c
        → visited ret t.node ≡ false
        → has t.node u ≡ true
        → Within u todo
        → Ends edges (t ∷ todo) ret
    visits t todo ret h v inside w =
        let less = fresh-round_new t.node t.dist ret inside v in
        one_round edges t todo ret (
          fewer (round edges t todo ret).0 (put t.node t.dist ret) (omega arith)
            (round-Within t todo ret w))

    -- The work at hand, and the work added since the last visit.
    works :
        (todo extra : List Todo) (ret : Distances)
        → fresh u (visited ret) ≤ c
        → Within u todo
        → Within u extra
        → Unvisited ret extra
        → Ends edges (todo ++ extra) ret
    works [] [] ret h w we un = no_work edges ret
    works [] (t ∷ extra) ret h w we un = visits t extra ret h un.0 we.0 we.1
    works (t ∷ todo) extra ret h w we un =
        let ret' = put t.node t.dist ret in
        let new = new_todo ret' t.dist (adjacent edges t.node) in
        let less = fresh-round t.node t.dist ret in
        let again = λ (v : visited ret t.node ≡ true).
          works todo (extra ++ new) ret' (omega arith) w.1
            (All-append (λ x. has x.node u ≡ true) extra new we (added-Within t ret))
            (All-append (λ x. visited ret' x.node ≡ false) extra new
              (still-Unvisited t.node t.dist ret extra v un)
              (new_todo-Unvisited ret' t.dist (adjacent edges t.node))) in
        elim (Bool-cases (visited ret t.node)) [
          | inl v ↦
              one_round edges t (todo ++ extra) ret
                (subst (λ l. Ends edges l ret') (sym (append_assoc todo extra new)) (again v))
          | inr v ↦
              visits t (todo ++ extra) ret h v w.0
                (All-append (λ x. has x.node u ≡ true) todo extra w.1 we)
        ]

  -- By induction on the number of nodes that are not visited.
  by_fresh :
      (c : ℕ) (todo : List Todo) (ret : Distances)
      → fresh u (visited ret) ≤ c
      → Within u todo
      → Ends edges todo ret
  by_fresh zero todo ret h w =
      subst (λ l. Ends edges l ret) (append-nil todo)
        (works zero (λ todo' ret' less w'. absurd (omega (arith, less))) todo [] ret h w tt tt)
  by_fresh (suc c) todo ret h w =
      subst (λ l. Ends edges l ret) (append-nil todo)
        (works (suc c) (λ todo' ret' less w'. by_fresh c todo' ret' (omega (arith, less)) w') todo
          [] ret h w tt tt)

adjacent-start :
    (edges : List (ℕ × ℕ)) (start n m : ℕ)
    → has m (adjacent edges n) ≡ true
    → has m (start ∷ ends edges) ≡ true
unfolding has
adjacent-start edges start n m h = ground (arith, has-adjacent edges n m h)

has-start : (start : ℕ) (ns : List ℕ) → has start (start ∷ ns) ≡ true
unfolding has
has-start start ns = ground arith

-- The search of distances from a node ends.
pub search-Ends :
    (edges : List (ℕ × ℕ)) (start d : ℕ) (ret : Distances)
    → Ends edges (record { node = start; dist = d } ∷ []) ret
search-Ends edges start d ret =
    let u = start ∷ ends edges in
    by_fresh edges u (adjacent-start edges start) (fresh u (visited ret))
      (record { node = start; dist = d } ∷ []) ret (omega arith) (has-start start (ends edges), tt)
