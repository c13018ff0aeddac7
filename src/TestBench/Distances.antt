-- ===== src/TestBench/Distances.antt =====
-- `CalcDistances` in gossip/internal/testutils/cfg.go: the distances of the nodes of a graph from
-- one of them.
--
-- An edge is a pair; the code indexes a slice at 0 and 1. A Go map is a function. The loop over
-- the work list runs on fuel, one for each element taken from the list.
pub mod Ends
pub mod Walks
pub mod Examples
use whisper2peer.Base.{
  ℕ, zero, suc, ◌+◌, ◌-◌, ◌*◌, ◌%◌, ◌^◌, Bool, true, false, Option, none, some, List, [], ◌∷◌, ◌++◌,
  ◌==◌, ltb, if◌then◌else◌,
}

-- The number of nodes, and the edges.
pub record Graph : Type 0 where
  pub nodes : ℕ
  pub edges : List (ℕ × ℕ)

-- `edges[n]` after the first loop.
unfoldable pub adjacent : List (ℕ × ℕ) → ℕ → List ℕ
adjacent [] n = []
adjacent ((a, b) ∷ edges) n =
    (if a == n then b ∷ [] else []) ++ ((if b == n then a ∷ [] else []) ++ adjacent edges n)

-- `todo_bookkeeping`.
pub record Todo : Type 0 where
  pub node : ℕ
  pub dist : ℕ

abbrev pub Distances : Type 0
Distances = ℕ → Option ℕ

abbrev pub visited : Distances → ℕ → Bool
visited ret n = elim (ret n) [ some d ↦ true | none ↦ false ]

-- `ret[n] = d`.
abbrev pub put : ℕ → ℕ → Distances → Distances
put n d ret = λ m. if m == n then some d else ret m

-- The loop over the neighbors, whose distance is a 64-bit integer.
unfoldable pub new_todo : Distances → ℕ → List ℕ → List Todo
new_todo ret dist [] = []
new_todo ret dist (n ∷ ns) =
    let rest = new_todo ret dist ns in
    if visited ret n then rest else record { node = n; dist = (dist + 1) % 2 ^ 64 } ∷ rest

-- One round of the loop: the list and the map behind it.
abbrev pub round : List (ℕ × ℕ) → Todo → List Todo → Distances → List Todo × Distances
round edges t todo ret =
    let ret' = put t.node t.dist ret in (todo ++ new_todo ret' t.dist (adjacent edges t.node), ret')

unfoldable pub search : ℕ → List (ℕ × ℕ) → List Todo → Distances → Option Distances
search fuel edges [] ret = some ret
search zero edges (t ∷ todo) ret = none
search (suc fuel) edges (t ∷ todo) ret =
    let next = round edges t todo ret in search fuel edges next.0 next.1

-- The last loop: unconnected nodes get the greatest integer.
abbrev pub with_unconnected : ℕ → Distances → Distances
with_unconnected nodes ret =
    λ n. elim (ret n) [ some d ↦ some d | none ↦ if ltb n nodes then some (2 ^ 64 - 1) else none ]

abbrev pub start_todo : ℕ → List Todo
start_todo start = record { node = start; dist = 0 } ∷ []

unfoldable pub calc_distances : ℕ → Graph → ℕ → Option Distances
calc_distances fuel g start = elim (search fuel g.edges (start_todo start) (λ n. none)) [
  | some ret ↦ some (with_unconnected g.nodes ret)
  | none ↦ none
]
