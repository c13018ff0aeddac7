-- ===== src/Strategy/Dropped.antt =====
-- What becomes of a connection in gossip/strats/dummy.go whose peer fails the proof of work.
use whisper2peer.Base.{ℕ, ◌≡◌, refl, none, some, [], Bytes, ok, arith}
use whisper2peer.Connections.{ConnectionId, Peer, find_valid, find_in_progress, find_to_be_proved}
use whisper2peer.Connections.Classes.{unsafe_remove-unsafe_remove}
use whisper2peer.Cookie.{Aead}
use whisper2peer.Strategy.{Strategy}
use whisper2peer.Strategy.Handlers.{drop_peer, on_unregister, on_conn_pow, check_answer}

-- An answer of a peer in progress that is refused, for its cookie, its proof of work or its
-- destination, takes the peer out of the manager and sends nothing, and the end of the connection
-- is then ignored: the context of the connection is not cancelled, at either event.
pub on_unregister-on_conn_pow :
    (aead : Aead) (sum256 : Bytes → Bytes) (s : Strategy) (now : ℕ) (id : ConnectionId) (nonce : ℕ)
    (cookie : Bytes) (peer : Peer)
    → find_to_be_proved s.manager id ≡ none
    → find_in_progress s.manager id ≡ some peer
    → find_valid s.manager id ≡ none
    → check_answer aead sum256 id nonce cookie ≡ ok none
    → (on_conn_pow aead sum256 s now id nonce cookie ≡ some (drop_peer s id, []))
      × (find_in_progress (drop_peer s id).manager id ≡ none)
      × (on_unregister (drop_peer s id) id ≡ (drop_peer s id, []))
unfolding on_conn_pow on_unregister
on_unregister-on_conn_pow aead sum256 s now id nonce cookie peer a b v refused =
    let (gone, again) = unsafe_remove-unsafe_remove s.manager id peer a b v in
    (ground arith, gone, rw again refl)
