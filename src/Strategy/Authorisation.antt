-- ===== src/Strategy/Authorisation.antt =====
-- Who becomes a valid peer by an answer to a challenge, in gossip/strats/dummy.go.
use whisper2peer.Base.{
  ℕ, ◌^◌, ◌≡◌, ◌≤◌, ◌<◌, ◌⊎◌, inl, inr, refl, true, Option, none, some, List, [], Bytes, Outcome,
  ok, err, panics, ltb, ltb-false, le→ltb, arith, length, Option-cases, Bool-cases,
}
use whisper2peer.Connections.Classes.{make_valid-valid, unsafe_remove-valid}
use whisper2peer.Connections.{ConnectionId, Peer, make_valid, find_valid, find_in_progress}
use whisper2peer.Cookie.RoundTrip.{read_cookie-create_cookie}
use whisper2peer.Cookie.{
  Aead, ConnCookie, Error, nonce_size, new_conn_cookie, create_cookie, read_cookie, first8bits0,
  check_proof_of_work,
}
use whisper2peer.Strategy.{Strategy, Output, elapsed, pow_timeout}
use whisper2peer.Strategy.Handlers.{check_answer, on_conn_pow}

module _ (aead : Aead) (sum256 : Bytes → Bytes) where
  -- The answer of a peer in progress that the node takes: a cookie sealed under its key for this
  -- peer, a proof of work over it, and both within the time.
  pub record Accepted (s : Strategy) (now : ℕ) (id : ConnectionId) (nonce : ℕ) (cookie : Bytes)
      : Type 0 where
    pub peer : Peer
    pub opened : ConnCookie
    pub in_progress : find_in_progress s.manager id ≡ some peer
    pub authentic : read_cookie aead cookie ≡ ok opened
    pub proved :
        check_proof_of_work sum256 first8bits0 (record { pow_nonce = nonce; cookie = cookie })
        ≡ ok true
    pub for_peer : opened.dest ≡ id
    pub timely : elapsed now opened.timestamp ≤ pow_timeout

  check_answer-ok :
      (id : ConnectionId) (nonce : ℕ) (cookie : Bytes) (c : ConnCookie)
      → check_answer aead sum256 id nonce cookie ≡ ok (some c)
      → (read_cookie aead cookie ≡ ok c)
        × (check_proof_of_work sum256 first8bits0 (record { pow_nonce = nonce; cookie = cookie })
            ≡ ok true)
        × (c.dest ≡ id)
  unfolding check_answer
  check_answer-ok id nonce cookie c h = ground arith

  answered :
      (s s' : Strategy) (out : List Output) (now : ℕ) (id : ConnectionId) (nonce : ℕ)
      (cookie : Bytes) (q : Peer) (r : Outcome Error (Option ConnCookie)) (j : ConnectionId)
      (p : Peer)
      → find_in_progress s.manager id ≡ some q
      → check_answer aead sum256 id nonce cookie ≡ r
      → on_conn_pow aead sum256 s now id nonce cookie ≡ some (s', out)
      → find_valid s'.manager j ≡ some p
      → (find_valid s.manager j ≡ some p) ⊎ ((j ≡ id) × Accepted s now id nonce cookie)
  unfolding on_conn_pow
  answered s s' out now id nonce cookie q panics j p e a h v = absurd (ground arith)
  answered s s' out now id nonce cookie q (err x) j p e a h v = absurd (ground arith)
  answered s s' out now id nonce cookie q (ok none) j p e a h v =
      inl (unsafe_remove-valid s.manager id j p (ground arith))
  answered s s' out now id nonce cookie q (ok (some c)) j p e a h v =
      elim (Bool-cases (ltb pow_timeout (elapsed now c.timestamp))) [
        | inl late ↦ inl (unsafe_remove-valid s.manager id j p (ground arith))
        | inr timely ↦ elim (make_valid-valid s.manager id c.timestamp j p (ground arith)) [
          | inl before ↦ inl before
          | inr same ↦
              let (read, proved, dest) = check_answer-ok id nonce cookie c a in
              inr (
                same,
                record {
                  peer = q;
                  opened = c;
                  in_progress = e;
                  authentic = read;
                  proved = proved;
                  for_peer = dest;
                  timely = ltb-false pow_timeout (elapsed now c.timestamp) timely;
                },
              )
        ]
      ]

  -- Whoever is valid after an answer to a challenge was valid before it, or has sent it, was in
  -- progress, and has given an answer that the node accepts.
  pub on_conn_pow-Accepted :
      (s s' : Strategy) (out : List Output) (now : ℕ) (id : ConnectionId) (nonce : ℕ)
      (cookie : Bytes) (j : ConnectionId) (p : Peer)
      → on_conn_pow aead sum256 s now id nonce cookie ≡ some (s', out)
      → find_valid s'.manager j ≡ some p
      → (find_valid s.manager j ≡ some p) ⊎ ((j ≡ id) × Accepted s now id nonce cookie)
  unfolding on_conn_pow
  on_conn_pow-Accepted s s' out now id nonce cookie j p h v =
      elim (Option-cases (find_in_progress s.manager id)) [
        | inl e ↦ inl (unsafe_remove-valid s.manager id j p (ground arith))
        | inr (q, e) ↦
            answered s s' out now id nonce cookie q (check_answer aead sum256 id nonce cookie) j p e
              refl h v
      ]

  -- A peer in progress that sends back the cookie that the node made for it, with a nonce that
  -- passes the check and in time, is made valid with the time at which the cookie was made.
  pub on_conn_pow-honest :
      (s : Strategy) (now : ℕ) (id : ConnectionId) (nonce : ℕ) (peer : Peer) (random : Bytes)
      (made : ℕ)
      → let cookie = create_cookie aead (new_conn_cookie random made id) in
        find_in_progress s.manager id ≡ some peer
        → length random ≡ nonce_size
        → made < 2 ^ 64
        → check_proof_of_work sum256 first8bits0 (record { pow_nonce = nonce; cookie = cookie })
          ≡ ok true
        → elapsed now made ≤ pow_timeout
        → on_conn_pow aead sum256 s now id nonce cookie
          ≡ some (record s { manager = make_valid s.manager id made }, [])
  unfolding on_conn_pow check_answer
  on_conn_pow-honest s now id nonce peer random made e sized range proved timely =
      let read = read_cookie-create_cookie aead (new_conn_cookie random made id) sized range in
      rw (e, on_conn_pow)
        (rw (read, check_answer)
          (rw proved (ground (arith, le→ltb pow_timeout (elapsed now made) timely))))

  -- A cookie shorter than its nonce is sliced out of range: an answer with one, from a peer in
  -- progress, ends the process.
  pub on_conn_pow-short_cookie :
      (s : Strategy) (now : ℕ) (id : ConnectionId) (nonce : ℕ) (cookie : Bytes) (peer : Peer)
      → find_in_progress s.manager id ≡ some peer
      → length cookie < nonce_size
      → on_conn_pow aead sum256 s now id nonce cookie ≡ none
  unfolding on_conn_pow check_answer read_cookie
  on_conn_pow-short_cookie s now id nonce cookie peer e short = ground arith
