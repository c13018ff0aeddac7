-- ===== src/Strategy/Course.antt =====
-- A policy on the messages of gossip/strats/dummy.go, over the whole loop.
use whisper2peer.Base.{
  ℕ, ◌≡◌, refl, subst, true, false, none, some, List, [], ◌∷◌, Bytes, All, All-append, All-map,
}
use whisper2peer.HorizontalApi.{ToHz}
use whisper2peer.Connections.{Manager}
use whisper2peer.Cookie.{Aead}
use whisper2peer.Strategy.{Strategy, Output, Handled, send, on_renewal, on_timeout, new_dummy}
use whisper2peer.Strategy.Handlers.{on_conn_proved, on_pow_proved}
use whisper2peer.Strategy.Run.{Event, on_event, listen, preceded}
use whisper2peer.Strategy.Policy.{
  Policy, Stocked, Sends, on_announce-Stocked, on_validation-Stocked, on_tick-Stocked,
  new_dummy-Stocked,
}
use whisper2peer.Strategy.Policed.{Admits, PolicedIf, managed, on_from_hz-Policed}

module _ (y : Policy) (aead : Aead) (sum256 : Bytes → Bytes) where
  on_event-Policed :
      (s : Strategy) (x : Event) → Stocked y s → Admits y x → PolicedIf y (on_event aead sum256 s x)
  unfolding on_event on_renewal on_timeout on_conn_proved on_pow_proved
  on_event-Policed s (Event.from_hz nonce now x) h a =
      on_from_hz-Policed y aead sum256 s nonce now x h a
  on_event-Policed s (Event.announce id x) h a = (on_announce-Stocked y s id x h a, tt)
  on_event-Policed s (Event.validation x) h a = (on_validation-Stocked y s x h a, tt)
  on_event-Policed s (Event.tick perms) h a = on_tick-Stocked y s perms h
  on_event-Policed s Event.renewal h a = (
    managed y s _ h,
    All-map (Sends y.Allowed) (λ p. send p.connection ToHz.pow_req) (λ p. y.pow_req_allowed)
        s.manager.open_connections,
  )
  on_event-Policed s (Event.timeout now) h a = (managed y s _ h, tt)
  on_event-Policed s (Event.conn_proved peer cookie nonce true now) h a = (h, tt)
  on_event-Policed s (Event.conn_proved peer cookie nonce false now) h a =
      (managed y s _ h, (a, tt))
  on_event-Policed s (Event.pow_proved peer cookie nonce true) h a = (h, tt)
  on_event-Policed s (Event.pow_proved peer cookie nonce false) h a = (managed y s _ h, (a, tt))

  preceded-Policed :
      (out : List Output) (r : Handled)
      → All (Sends y.Allowed) out
      → PolicedIf y r
      → PolicedIf y (preceded out r)
  preceded-Policed out none h k = tt
  preceded-Policed out (some (s, rest)) h k = (k.0, All-append (Sends y.Allowed) out rest h k.1)

  listen-Policed_round :
      (xs : List Event) (s : Strategy) (x : Event) (r : Handled)
      → ((s' : Strategy) → Stocked y s' → PolicedIf y (listen aead sum256 s' xs))
      → on_event aead sum256 s x ≡ r
      → PolicedIf y r
      → PolicedIf y (listen aead sum256 s (x ∷ xs))
  unfolding listen
  listen-Policed_round xs s x none ih e k = rw (e, listen) tt
  listen-Policed_round xs s x (some (s', out)) ih e k =
      rw (e, listen) (preceded-Policed out (listen aead sum256 s' xs) k.1 (ih s' k.0))

  listen-Policed :
      (xs : List Event) (s : Strategy)
      → All (Admits y) xs
      → Stocked y s
      → PolicedIf y (listen aead sum256 s xs)
  unfolding listen
  listen-Policed [] s a h = (h, tt)
  listen-Policed (x ∷ xs) s a h =
      listen-Policed_round xs s x (on_event aead sum256 s x) (λ s' h'. listen-Policed xs s' a.1 h')
        refl (on_event-Policed s x h a.0)

  -- What a new node sends is allowed, if each event admits it.
  pub listen-Allowed :
      (m : Manager) (cache_size degree : ℕ) (xs : List Event) (s : Strategy) (out : List Output)
      → All (Admits y) xs
      → listen aead sum256 (new_dummy m cache_size degree) xs ≡ some (s, out)
      → All (Sends y.Allowed) out
  listen-Allowed m cache_size degree xs s out a e =
      (subst (PolicedIf y) e (
        listen-Policed xs (new_dummy m cache_size degree) a
          (new_dummy-Stocked y m cache_size degree))).1
