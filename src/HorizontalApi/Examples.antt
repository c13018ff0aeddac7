-- ===== src/HorizontalApi/Examples.antt =====
-- Two nodes that talk, over structs that can be evaluated.
use whisper2peer.Base.{◌≡◌, refl, true, false, List, [], ◌∷◌, ◌++◌, map, Bytes, arith}
use whisper2peer.HorizontalApi.{Push, FromHz, ToHz}
use whisper2peer.HorizontalApi.Objects.{objects, read_data, put, with_ref}
use whisper2peer.HorizontalApi.Transmit.{
  Sent, delivered, failed, closed, create_message, write_to_connection,
}
use whisper2peer.HorizontalApi.Receive.{
  read_message, read_push, read_conn_req, read_conn_chall, read_conn_pow, read_pow_req,
  read_pow_chall, read_pow_pow, handle_connection,
}
use whisper2peer.ConnTable.{
  Table, Event, Phase, accept, dial, enter, spawn, new_table, has, without, on_event, history,
  close,
}
use whisper2peer.ConnTable.Closing.{in_table, close-Exact}
use whisper2peer.HorizontalApi.RoundTrip.{
  arrival, decoded, reaching, handle_connection-write_to_connection,
}

program : Unit {0}
unfolding read_data put with_ref objects create_message write_to_connection read_message read_push
    read_conn_req read_conn_chall read_conn_pow read_pow_req read_pow_chall read_pow_pow
    handle_connection
program = tt

abbrev peer_id : Bytes
peer_id = 7 ∷ []

abbrev pushed : Push
pushed = record { id = []; ttl = 3; gossip_type = 258; message_id = 77; payload = 8 ∷ 9 ∷ [] }

abbrev talk : List (ToHz × Sent)
talk =
    (ToHz.push pushed, delivered)
    ∷ (ToHz.conn_req, failed)
    ∷ (ToHz.pow_pow 300 (1 ∷ []), delivered)
    ∷ (ToHz.pow_req, closed)
    ∷ (ToHz.conn_req, delivered)
    ∷ []

heard : handle_connection objects peer_id (decoded objects (write_to_connection objects talk)) ≡ (
  FromHz.push (record pushed { id = peer_id })
      ∷ FromHz.pow_pow peer_id 300 (1 ∷ [])
      ∷ FromHz.unregister peer_id
      ∷ [],
  false,
)
unfolding program
heard = refl

handle_connection-write_to_connection_example :
    handle_connection objects peer_id (decoded objects (write_to_connection objects talk))
    ≡ (map (arrival peer_id) (reaching objects talk) ++ FromHz.unregister peer_id ∷ [], false)
handle_connection-write_to_connection_example =
    handle_connection-write_to_connection objects peer_id talk
      ((omega arith, omega arith, omega arith), (tt, (omega arith, (tt, (tt, tt)))))

-- Two connections, of which one is accepted before `Close` and enters the table behind it.
abbrev earlier : List Event
earlier = dial 1 ∷ enter 1 ∷ spawn 1 ∷ accept 2 ∷ []

inside : in_table ((close [] [] (history earlier (new_table 1))).phase 1) ≡ true
unfolding on_event history
inside = refl

-- `Close` waits for both, of which only the first is closed.
close-Exact_example :
    has 1 (history (enter 2 ∷ spawn 2 ∷ []) (close [] [] (history earlier (new_table 1)))).closed
    ≡ true
close-Exact_example = close-Exact 1 earlier [] [] (enter 2 ∷ spawn 2 ∷ []) 1 inside

abbrev late : Table
late = history (enter 2 ∷ spawn 2 ∷ []) (close [] [] (history earlier (new_table 1)))

late_not_closed : (late.phase 2 ≡ Phase.running) × (has 2 late.closed ≡ false)
unfolding on_event history has without
late_not_closed = (refl, refl)
