-- ===== src/Strategy/Examples.antt =====
-- A node that takes a peer in, from its connection to a push that it sends.
pub mod Journey
use whisper2peer.Base.{
  ◌++◌, List, ◌<◌, true, false, ◌≡◌, ◌≤◌, ◌⊎◌, refl, true, none, some, [], ◌∷◌, Bytes, grown, be,
  from_be, ok, arith, bytes_discrete,
}
use whisper2peer.Connections.{
  Conn, Peer, find_in_progress, new_connection_manager, unsafe_remove, make_valid, find_valid,
  add_in_progress, swap_remove,
}
use whisper2peer.Connections.Maps.{get, put}
use whisper2peer.Cookie.{
  new_conn_cookie, marshal, unmarshal, create_cookie, read_cookie, marshal_pow, check_proof_of_work,
  first8bits0,
}
use whisper2peer.Cookie.Examples.{plain, last_in_front, nonce}
use whisper2peer.Ringbuffer.{insert, find_first, new_ringbuffer}
use whisper2peer.Strategy.{
  Strategy, new_dummy, on_announce, on_tick, on_validation, pow_timeout, elapsed,
  find_first_message,
}
use whisper2peer.HorizontalApi.{Push}
use whisper2peer.Strategy.Handlers.{on_new_conn, on_conn_pow, on_push, check_answer, is_known}
use whisper2peer.Strategy.Authorisation.{
  Accepted, on_conn_pow-Accepted, on_conn_pow-honest, on_conn_pow-short_cookie,
}
use whisper2peer.Messages.{GossipAnnounce, GossipValidation}
use whisper2peer.Ringbuffer.Valid.{IsValid}
use whisper2peer.Strategy.Handlers.{on_from_hz}
use whisper2peer.Strategy.Steps.{StrategyInv}
use whisper2peer.Strategy.Run.{Event, on_event, listen, listen-StrategyInv}
use whisper2peer.Strategy.{Output}
use whisper2peer.HorizontalApi.{FromHz}
use whisper2peer.Strategy.Tick.{Ticked, on_tick-Ticked}
use whisper2peer.Strategy.Flow.{on_push-on_push, Answered, on_validation-Answered}

program : Unit {0}
unfolding new_connection_manager unsafe_remove make_valid add_in_progress swap_remove get put
    marshal unmarshal create_cookie read_cookie marshal_pow check_proof_of_work insert find_first
    new_ringbuffer new_dummy find_first_message on_new_conn on_conn_pow on_push check_answer grown
    be bytes_discrete elapsed from_be
program = tt

abbrev pub visitor_id : Bytes
visitor_id = 2 ∷ []

abbrev visitor : Conn
visitor = record { id = visitor_id; chan = 20 }

abbrev pub visitor_peer : Peer
visitor_peer = record { ptr = 0; connection = visitor }

abbrev pub before : Strategy
before = on_new_conn (new_dummy (new_connection_manager []) 4 2) visitor

abbrev pub cookie : Bytes
cookie = create_cookie plain (new_conn_cookie nonce 300 visitor_id)

abbrev pub after : Strategy
after = record before { manager = make_valid before.manager visitor_id 300 }

timely : elapsed 400 300 ≤ pow_timeout
unfolding program
timely = omega arith

proved :
    check_proof_of_work last_in_front first8bits0 (record { pow_nonce = 512; cookie = cookie })
    ≡ ok true
unfolding program
proved = refl

pub in_progress : find_in_progress before.manager visitor_id ≡ some visitor_peer
unfolding program
in_progress = refl

answered : on_conn_pow plain last_in_front before 400 visitor_id 512 cookie ≡ some (after, [])
unfolding program
answered = refl

on_conn_pow-short_cookie_example :
    on_conn_pow plain last_in_front before 400 visitor_id 512 (1 ∷ []) ≡ none
on_conn_pow-short_cookie_example =
    on_conn_pow-short_cookie plain last_in_front before 400 visitor_id 512 (1 ∷ []) visitor_peer
      in_progress (omega arith)

pub valid_after : find_valid after.manager visitor_id ≡ some visitor_peer
unfolding program
valid_after = refl

abbrev pub pushed : Push
pushed = record { id = visitor_id; ttl = 3; gossip_type = 1; message_id = 77; payload = 8 ∷ [] }

pub unknown : is_known after 77 ≡ false
unfolding program
unknown = refl

on_push-on_push_example : on_push (on_push after pushed).0 pushed ≡ ((on_push after pushed).0, [])
on_push-on_push_example = on_push-on_push after pushed pushed visitor_peer valid_after refl

on_conn_pow-Accepted_example :
    (find_valid before.manager visitor_id ≡ some visitor_peer)
    ⊎ ((visitor_id ≡ visitor_id) × Accepted plain last_in_front before 400 visitor_id 512 cookie)
on_conn_pow-Accepted_example =
    on_conn_pow-Accepted plain last_in_front before after [] 400 visitor_id 512 cookie visitor_id
      visitor_peer answered valid_after

abbrev announced : GossipAnnounce
announced = record { ttl = 2; reserved = 0; data_type = 1; payload = [] }

-- Two messages in the buffer of the valid ones, and one peer.
abbrev filled : Strategy
filled = on_announce (on_announce after 5 announced) 6 announced

filled-IsValid : IsValid filled.valid_messages
unfolding program on_announce
filled-IsValid = record { sized = refl; bounded = omega arith; roomy = omega arith }

on_tick-Ticked_example :
    Ticked filled (λ _. 0 ∷ []) (on_tick filled (λ _. 0 ∷ [])).0 (on_tick filled (λ _. 0 ∷ [])).1
on_tick-Ticked_example = on_tick-Ticked filled (λ _. 0 ∷ []) filled-IsValid

abbrev received : Strategy
received = (on_push after pushed).0

abbrev accepted : GossipValidation
accepted = record { message_id = 77; bitfield = 1; valid = true }

received-IsValid : IsValid received.invalid_messages
unfolding program
received-IsValid = record { sized = refl; bounded = omega arith; roomy = omega arith }

pushed_found : find_first_message received.messages received.invalid_messages 77 ≡ some 0
unfolding program
pushed_found = refl

pushed_ttl : (received.messages 0).ttl < 256
unfolding program
pushed_ttl = omega arith

on_validation-Answered_example : Answered received 0 true (on_validation received accepted)
on_validation-Answered_example =
    on_validation-Answered received accepted 0 pushed_found pushed_ttl received-IsValid

-- The peer comes in and answers, and a message is announced and relayed to it.
abbrev events : List Event
events =
    Event.from_hz nonce 200 (FromHz.new_conn visitor)
    ∷ Event.from_hz nonce 400 (FromHz.conn_pow visitor_id 512 cookie)
    ∷ Event.announce 5 announced
    ∷ Event.tick (λ _. 0 ∷ [])
    ∷ []

abbrev ticked : Strategy × List Output
ticked = on_tick (on_announce after 5 announced) (λ _. 0 ∷ [])

ran :
    listen plain last_in_front (new_dummy (new_connection_manager []) 4 2) events
    ≡ some (ticked.0, ticked.1 ++ [])
unfolding program listen on_event on_from_hz on_tick on_announce
ran = refl

listen-StrategyInv_example : StrategyInv ticked.0
listen-StrategyInv_example =
    listen-StrategyInv plain last_in_front [] 4 2 events ticked.0 (ticked.1 ++ []) (omega arith) ran
