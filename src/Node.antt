-- ===== src/Node.antt =====
-- The main component (gossip/main/main.go) and the strategy (gossip/strats/dummy.go) together: two
-- goroutines that send to each other on the unbuffered channels `ToStrat` and `FromStrat` of
-- `NewMainWithArgs`.
--
-- A handler is run at once for its state, and what it sends waits to be sent, in order: a
-- goroutine is at its `select` where nothing waits. A send to the other goroutine happens where
-- that one is at its `select`; a module or a peer may take what is sent to it at any time.
pub mod Progress
pub mod Stuck
pub mod Examples
use whisper2peer.Base.{ℕ, ◌≡◌, none, some, List, [], ◌∷◌, Bytes}
use whisper2peer.Messages.{Module, FromVert, ToStrat, GossipNotification}
use whisper2peer.Main.{
  NotifyMap, Sent, to_strat, to_vert, cancel, on_from_vert, handle_notification,
}
use whisper2peer.Cookie.{Aead}
use whisper2peer.HorizontalApi.{ToHz}
use whisper2peer.Connections.{Conn, Peer}
use whisper2peer.Strategy.{
  Strategy, Output, send, notify, prove_conn, prove_pow, on_announce, on_validation,
}
use whisper2peer.Strategy.Run.{Event, on_event}

pub record Node : Type 0 where
  pub registered : NotifyMap
  pub main_sends : List Sent
  pub strategy : Strategy
  pub strategy_sends : List Output

-- An event of the strategy other than a message of the main component.
abbrev pub FromElsewhere : Event → Type 0
FromElsewhere (Event.announce id x) = ⊥
FromElsewhere (Event.validation x) = ⊥
FromElsewhere _ = Unit

-- The strategy's case for a message of the main component, with the random id for an announcement.
abbrev pub on_to_strat : Strategy → ℕ → ToStrat → Strategy
on_to_strat s id (ToStrat.announce x) = on_announce s id x
on_to_strat s id (ToStrat.validation x) = on_validation s x

module _ (aead : Aead) (sum256 : Bytes → Bytes) where
  pub data Step (n : Node) : Node → Type 0 where
    -- The main component receives from the vertical API.
    from_vert :
        (x : FromVert)
        → n.main_sends ≡ []
        → Step n (record n {
          registered = (on_from_vert n.registered x).0;
          main_sends = (on_from_vert n.registered x).1;
        })
    -- The strategy receives from the horizontal API, a ticker or a goroutine that it has started.
    event :
        (x : Event) (s : Strategy) (out : List Output)
        → FromElsewhere x
        → n.strategy_sends ≡ []
        → on_event aead sum256 n.strategy x ≡ some (s, out)
        → Step n (record n { strategy = s; strategy_sends = out })
    -- The main component sends to the strategy.
    to_strategy :
        (x : ToStrat) (rest : List Sent) (id : ℕ)
        → n.main_sends ≡ to_strat x ∷ rest
        → n.strategy_sends ≡ []
        → Step n (record n { main_sends = rest; strategy = on_to_strat n.strategy id x })
    -- The strategy sends to the main component.
    to_main :
        (x : GossipNotification) (rest : List Output)
        → n.strategy_sends ≡ notify x ∷ rest
        → n.main_sends ≡ []
        → Step n
            (record n { main_sends = handle_notification n.registered x; strategy_sends = rest })
    -- A module takes a notification, and the context of one is cancelled.
    to_module :
        (m : Module) (x : GossipNotification) (rest : List Sent)
        → n.main_sends ≡ to_vert m x ∷ rest
        → Step n (record n { main_sends = rest })
    cancel_module :
        (m : Module) (rest : List Sent)
        → n.main_sends ≡ cancel m ∷ rest
        → Step n (record n { main_sends = rest })
    -- A peer takes a message; the context of a connection is cancelled, or a search started.
    to_peer :
        (c : Conn) (m : ToHz) (rest : List Output)
        → n.strategy_sends ≡ send c m ∷ rest
        → Step n (record n { strategy_sends = rest })
    cancel_peer :
        (c : Conn) (rest : List Output)
        → n.strategy_sends ≡ Output.cancel c ∷ rest
        → Step n (record n { strategy_sends = rest })
    start_search :
        (p : Peer) (cookie : Bytes) (rest : List Output)
        → n.strategy_sends ≡ prove_conn p cookie ∷ rest
        → Step n (record n { strategy_sends = rest })
    start_renewal :
        (p : Peer) (cookie : Bytes) (rest : List Output)
        → n.strategy_sends ≡ prove_pow p cookie ∷ rest
        → Step n (record n { strategy_sends = rest })

  pub data Reach (n : Node) : Node → Type 0 where
    here : Reach n n
    next : (t u : Node) → Reach n t → Step t u → Reach n u
