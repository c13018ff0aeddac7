-- ===== src/Node/Examples.antt =====
-- A node that stands still.
use whisper2peer.Base.{◌≡◌, ◌↔◌, refl, [], ◌∷◌}
use whisper2peer.Messages.{Module, GossipAnnounce}
use whisper2peer.Main.{load}
use whisper2peer.Cookie.Examples.{plain, last_in_front}
use whisper2peer.Strategy.Examples.{after, pushed, visitor_peer, valid_after, unknown}
use whisper2peer.Node.{Node, Step, Reach}
use whisper2peer.Node.Progress.{Stuck, ne-Step_iff}
use whisper2peer.Node.Stuck.{Reach-Stuck}

abbrev module_one : Module
module_one = record { id = 1 ∷ []; chan = 10 }

abbrev idle : Node
idle = record {
  registered = (1, module_one ∷ []) ∷ [];
  main_sends = [];
  strategy = after;
  strategy_sends = [];
}

abbrev announced : GossipAnnounce
announced = record { ttl = 2; reserved = 0; data_type = 1; payload = 5 ∷ [] }

registered : load idle.registered 1 ≡ module_one ∷ []
unfolding load
registered = refl

Reach-Stuck_example :
    (t : Node) × Reach plain last_in_front idle t × ((u : Node) → ¬ Step plain last_in_front t u)
Reach-Stuck_example =
    Reach-Stuck plain last_in_front idle announced module_one [] pushed visitor_peer refl refl
      registered valid_after unknown

ne-Step_iff_example : ((t : Node) → ¬ Step plain last_in_front idle t) ↔ Stuck idle
ne-Step_iff_example = ne-Step_iff plain last_in_front idle
