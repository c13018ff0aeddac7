-- ===== src/TestBench/Distances/Examples.antt =====
-- The distances in a triangle.
use whisper2peer.Base.{ℕ, Option, none, some, [], ◌∷◌, ◌≡◌, refl}
use whisper2peer.TestBench.Distances.{Graph, adjacent, Distances, new_todo, search, calc_distances}
use whisper2peer.TestBench.Distances.Walks.{Says, calc_distances-Says}

-- Each two of three nodes are linked, and a fourth is alone.
abbrev triangle : Graph
triangle = record { nodes = 4; edges = (0, 1) ∷ (0, 2) ∷ (1, 2) ∷ [] }

abbrev distance : Option Distances → ℕ → Option ℕ
distance none n = none
distance (some r) n = r n

-- Node 2 is a neighbor of node 0, and gets the distance 2: it is taken from the list a second time,
-- with the distance by way of node 1.
not_the_shortest : distance (calc_distances 9 triangle 0) 2 ≡ some 2
unfolding calc_distances search adjacent new_todo
not_the_shortest = refl

alone : distance (calc_distances 9 triangle 0) 3 ≡ some 18446744073709551615
unfolding calc_distances search adjacent new_todo
alone = refl

calc_distances-Says_example :
    (fuel : ℕ) × (r : Distances) × (calc_distances fuel triangle 0 ≡ some r)
    × ((n : ℕ) → Says triangle 0 n (r n))
calc_distances-Says_example = calc_distances-Says triangle 0
