-- ===== src/TestBench/Peer/Examples.antt =====
-- Three notifications of two, no and two bytes, of which the second is not accepted.
use whisper2peer.Base.{ℕ, suc, ◌≡◌, refl, List, [], ◌∷◌, ◌++◌, map, length, arith}
use whisper2peer.Messages.{Module, FromVert, GossipNotification}
use whisper2peer.VerticalApi.{closed, handle_connection, write_to_connection}
use whisper2peer.TestBench.Peer.{mark_all_valid}
use whisper2peer.TestBench.Peer.Answers.{no_shorter, accepting, handle_connection-mark_all_valid}

abbrev bench_module : Module
bench_module = record { id = 1 ∷ []; chan = 0 }

abbrev none_yet : GossipNotification
none_yet = record { message_id = 0; data_type = 0; payload = [] }

abbrev long : ℕ → GossipNotification
long id = record { message_id = id; data_type = 5; payload = 7 ∷ 8 ∷ [] }

abbrev empty : ℕ → GossipNotification
empty id = record { message_id = id; data_type = 5; payload = [] }

abbrev notified : List GossipNotification
notified = long 1 ∷ empty 2 ∷ long 3 ∷ []

not_the_second : no_shorter 0 notified ≡ long 1 ∷ long 3 ∷ []
unfolding no_shorter
not_the_second = refl

handle_connection-mark_all_valid_example :
    handle_connection
      (suc (length (no_shorter 0 notified)))
      bench_module
      (mark_all_valid 4 (0 ∷ 0 ∷ 0 ∷ 0 ∷ []) none_yet (write_to_connection [] notified)).0
    ≡ (
      map (λ msg. FromVert.validation (accepting msg.message_id)) (no_shorter 0 notified)
          ++ FromVert.unregister (1 ∷ []) ∷ [],
      closed,
    )
handle_connection-mark_all_valid_example =
    handle_connection-mark_all_valid bench_module (0 ∷ 0 ∷ 0 ∷ 0 ∷ []) [] none_yet notified (
      record { id_range = omega arith; type_range = omega arith; short = omega arith },
      (
        record { id_range = omega arith; type_range = omega arith; short = omega arith },
        (record { id_range = omega arith; type_range = omega arith; short = omega arith }, tt),
      ),
    )
