-- ===== src/TestBench/Book/Examples.antt =====
-- A book that is asked for two start nodes.
use whisper2peer.Base.{[], ◌∷◌, ◌≡◌, refl}
use whisper2peer.TestBench.Book.{zero_book, count_all, setup_for_distance}

-- With one node at distance 0 and one at 1, whatever node is asked for, a second start node gives an
-- order with each distance twice.
stale_order :
    (setup_for_distance
      (λ l. l)
      (λ s. (s, 0) ∷ (7, 1) ∷ [])
      (setup_for_distance (λ l. l) (λ s. (s, 0) ∷ (7, 1) ∷ []) zero_book 3).0
      4).0.dist_ord
    ≡ 0 ∷ 1 ∷ 0 ∷ 1 ∷ []
unfolding setup_for_distance count_all
stale_order = refl
