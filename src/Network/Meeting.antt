-- ===== src/Network/Meeting.antt =====
-- A node dials a neighbour, which has it in progress.
use whisper2peer.Base.{
  ◌≡◌, ◌≤◌, refl, none, some, List, [], ◌∷◌, grown, be, from_be, bytes_discrete, ok, arith,
}
use whisper2peer.Goroutines.{Event, receive, worker, result_of, run, on_event}
use whisper2peer.Connections.{
  Conn, Peer, new_connection_manager, find_valid, find_to_be_proved, make_valid, add_in_progress,
  unsafe_remove,
}
use whisper2peer.Connections.Maps.{get, put}
use whisper2peer.Cookie.{marshal, create_cookie, marshal_pow, first8bits0, compute_pow_start, probe}
use whisper2peer.Cookie.Workers.{act, parallel_proof_of_work3}
use whisper2peer.Cookie.Examples.{plain, rotated, nonce}
use whisper2peer.HorizontalApi.{ToHz}
use whisper2peer.HorizontalApi.Objects.{objects, empty, read_data, with_ref}
use whisper2peer.HorizontalApi.Objects
use whisper2peer.HorizontalApi.Transmit.{create_message}
use whisper2peer.Strategy.{Strategy, new_dummy, elapsed, pow_timeout}
use whisper2peer.Strategy.Handlers.{on_new_conn}
use whisper2peer.Strategy.Examples.{visitor_id, visitor_peer, before, cookie, in_progress}
use whisper2peer.Network.Handshake.{handshake, handshake-valid}

program : Unit {0}
unfolding new_connection_manager make_valid add_in_progress get put new_dummy on_new_conn elapsed
    marshal create_cookie marshal_pow probe grown be bytes_discrete from_be objects create_message
    read_data with_ref Objects.put unsafe_remove parallel_proof_of_work3 result_of run on_event act
program = tt

abbrev neighbour : Conn
neighbour = record { id = 9 ∷ []; chan = 30 }

abbrev dialler : Strategy
dialler = new_dummy (new_connection_manager (neighbour ∷ [])) 4 2

abbrev neighbour_peer : Peer
neighbour_peer = record { ptr = 0; connection = neighbour }

to_prove : find_to_be_proved dialler.manager (9 ∷ []) ≡ some neighbour_peer
unfolding program
to_prove = refl

fresh : find_valid dialler.manager (9 ∷ []) ≡ none
unfolding program
fresh = refl

not_valid : find_valid before.manager visitor_id ≡ none
unfolding program
not_valid = refl

not_listed : find_to_be_proved before.manager visitor_id ≡ none
unfolding program
not_listed = refl

timely : elapsed 400 300 ≤ pow_timeout
unfolding program
timely = omega arith

-- Worker 0 finds its second nonce.
abbrev schedule : List Event
schedule = worker 0 ∷ worker 3 ∷ receive ∷ worker 0 ∷ worker 0 ∷ worker 3 ∷ worker 0 ∷ []

found :
    parallel_proof_of_work3 rotated first8bits0 (compute_pow_start cookie 0) schedule ≡ ok (some 32)
unfolding program
found = refl

abbrev root_of : ToHz → objects.Struct
unfolding objects
root_of m = elim (create_message objects m) [ none ↦ empty 8 | some r ↦ r ]

request_made : create_message objects ToHz.conn_req ≡ some (root_of ToHz.conn_req)
unfolding program
request_made = refl

question_made :
    create_message objects (ToHz.conn_chall cookie) ≡ some (root_of (ToHz.conn_chall cookie))
unfolding program
question_made = refl

answer_made :
    create_message objects (ToHz.conn_pow 32 cookie) ≡ some (root_of (ToHz.conn_pow 32 cookie))
unfolding program
answer_made = refl

handshake-valid_example :
    let a = record dialler { manager = make_valid dialler.manager (9 ∷ []) 350 } in
    let b = record before { manager = make_valid before.manager visitor_id 300 } in
    (handshake objects plain plain rotated
        (λ _. some 32)
        nonce
        300
        350
        400
        (9 ∷ [])
        visitor_id
        dialler
        before
      ≡ some (a, b))
    × (find_valid a.manager (9 ∷ []) ≡ some neighbour_peer)
    × (find_valid b.manager visitor_id ≡ some visitor_peer)
handshake-valid_example =
    handshake-valid objects plain plain rotated (λ _. some 32) nonce 300 350 400 (9 ∷ []) visitor_id
      dialler before neighbour_peer visitor_peer 0 32 schedule (root_of ToHz.conn_req)
      (root_of (ToHz.conn_chall cookie)) (root_of (ToHz.conn_pow 32 cookie)) to_prove refl fresh
      in_progress not_valid not_listed refl (omega arith) timely refl found (omega arith)
      request_made question_made answer_made
