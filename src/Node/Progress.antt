-- ===== src/Node/Progress.antt =====
-- When the main component and the strategy can go on.
use whisper2peer.Base.{◌≡◌, ◌⊎◌, ◌↔◌, inl, inr, refl, List, [], ◌∷◌, Bytes}
use whisper2peer.Messages.{FromVert, ToStrat, GossipNotification}
use whisper2peer.Main.{Sent, to_strat, to_vert, cancel}
use whisper2peer.Cookie.{Aead}
use whisper2peer.Strategy.{Output, send, notify, prove_conn, prove_pow}
use whisper2peer.Node.{
  Node, Step, from_vert, event, to_strategy, to_main, to_module, cancel_module, to_peer,
  cancel_peer, start_search, start_renewal,
}

-- Each of the two goroutines waits for the other one to receive.
pub record Stuck (n : Node) : Type 0 where
  pub forward : ToStrat
  pub forwards : List Sent
  pub notification : GossipNotification
  pub notifications : List Output
  pub main_waits : n.main_sends ≡ to_strat forward ∷ forwards
  pub strategy_waits : n.strategy_sends ≡ notify notification ∷ notifications

module _ (aead : Aead) (sum256 : Bytes → Bytes) where
  pub Stuck-ne-Step : (n : Node) → Stuck n → (t : Node) → ¬ Step aead sum256 n t
  Stuck-ne-Step n s _ (from_vert x idle) = cc
  Stuck-ne-Step n s _ (event x t out h idle e) = cc
  Stuck-ne-Step n s _ (to_strategy x rest id e idle) = cc
  Stuck-ne-Step n s _ (to_main x rest e idle) = cc
  Stuck-ne-Step n s _ (to_module m x rest e) = cc
  Stuck-ne-Step n s _ (cancel_module m rest e) = cc
  Stuck-ne-Step n s _ (to_peer c m rest e) = cc
  Stuck-ne-Step n s _ (cancel_peer c rest e) = cc
  Stuck-ne-Step n s _ (start_search p cookie rest e) = cc
  Stuck-ne-Step n s _ (start_renewal p cookie rest e) = cc

  strategy_acts :
      (n : Node) (x : ToStrat) (rest : List Sent) (out : List Output)
      → n.main_sends ≡ to_strat x ∷ rest
      → n.strategy_sends ≡ out
      → Stuck n ⊎ ((t : Node) × Step aead sum256 n t)
  strategy_acts n x rest [] e f = inr (_, to_strategy x rest 0 e f)
  strategy_acts n x rest (send c m ∷ out) e f = inr (_, to_peer c m out f)
  strategy_acts n x rest (notify m ∷ out) e f = inl (record {
    forward = x;
    forwards = rest;
    notification = m;
    notifications = out;
    main_waits = e;
    strategy_waits = f;
  })
  strategy_acts n x rest (Output.cancel c ∷ out) e f = inr (_, cancel_peer c out f)
  strategy_acts n x rest (prove_conn p cookie ∷ out) e f = inr (_, start_search p cookie out f)
  strategy_acts n x rest (prove_pow p cookie ∷ out) e f = inr (_, start_renewal p cookie out f)

  main_acts :
      (n : Node) (sends : List Sent)
      → n.main_sends ≡ sends
      → Stuck n ⊎ ((t : Node) × Step aead sum256 n t)
  main_acts n [] e = inr (_, from_vert (FromVert.unregister []) e)
  main_acts n (to_strat x ∷ rest) e = strategy_acts n x rest n.strategy_sends e refl
  main_acts n (to_vert m x ∷ rest) e = inr (_, to_module m x rest e)
  main_acts n (cancel m ∷ rest) e = inr (_, cancel_module m rest e)

  -- The node cannot go on just where the main component waits to send to the strategy and the
  -- strategy to send a notification to the main component.
  pub ne-Step_iff : (n : Node) → ((t : Node) → ¬ Step aead sum256 n t) ↔ Stuck n
  ne-Step_iff n = (found, Stuck-ne-Step n)
    where
      found : ((t : Node) → ¬ Step aead sum256 n t) → Stuck n
      found none_left = elim (main_acts n n.main_sends refl) [
        | inl s ↦ s
        | inr (t, step) ↦ absurd (none_left t step)
      ]
