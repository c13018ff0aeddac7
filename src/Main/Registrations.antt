-- ===== src/Main/Registrations.antt =====
-- The map of data.go holds each registration that is in force, once.
use mathlib.Core.List.{Perm, foldl, foldr}
use mathlib.Core.List.Perm
use native.Mathlib.Nat.{ℕ_set}
use whisper2peer.Base.{
  ℕ, suc, ◌+◌, ◌≡◌, ◌≤◌, refl, ap, sym, ◌∙◌, Bool, true, false, none, some, List, [], ◌∷◌, ◌++◌,
  map, Bytes, bytes_discrete, not, ite, length, ◌==◌, if◌then◌else◌, length-append, append_assoc,
  arith, inl, inr, Option-cases,
}
use whisper2peer.Messages.{Module, GossipNotification, FromVert}
use whisper2peer.Connections.{swap_remove}
use whisper2peer.Connections.Swap.{swap_remove-middle-perm}
use whisper2peer.Main.{
  NotifyMap, load, save, is_registered, add_channel_to_type, position, remove_channel, Sent,
  to_strat, to_vert, cancel, handle_module_unregister, handle_type_registration,
  handle_notification, on_from_vert,
}

abbrev bump : Bytes → Module → ℕ → ℕ
bump id c n = ite (bytes_discrete c.id id) (suc n) n

-- How often a module stands in a list.
abbrev pub count : Bytes → List Module → ℕ
count id = foldr (bump id) 0

-- Whether a module is registered for a type behind a message, given whether it was before.
abbrev pub in_force : ℕ → Bytes → Bool → FromVert → Bool
in_force t id b (FromVert.register x m) =
    ite (bytes_discrete m.id id) (if x.data_type == t then true else b) b
in_force t id b (FromVert.unregister i) = ite (bytes_discrete i id) false b
in_force t id b (FromVert.announce x) = b
in_force t id b (FromVert.validation x) = b

load-save :
    (nm : NotifyMap) (t u : ℕ) (l : List Module)
    → load (save nm t l) u ≡ (if t == u then l else load nm u)
unfolding load save
load-save [] t u l = refl
load-save ((v, k) ∷ nm) t u l = ground (arith, load-save nm t u l)

count-append : (id : Bytes) (xs ys : List Module) → count id (xs ++ ys) ≡ count id xs + count id ys
count-append id [] ys = omega arith
count-append id (c ∷ xs) ys = ground (arith, count-append id xs ys)

is_registered-count : (id : Bytes) (xs : List Module) → is_registered id xs ≡ not (count id xs == 0)
unfolding is_registered
is_registered-count id [] = refl
is_registered-count id (c ∷ xs) = ground (arith, is_registered-count id xs)

bump_comm : (id : Bytes) (a b : Module) (n : ℕ) → bump id a (bump id b n) ≡ bump id b (bump id a n)
bump_comm id a b n = ground arith

count-perm : (id : Bytes) (xs ys : List Module) → Perm xs ys → count id xs ≡ count id ys
count-perm id xs ys p = Perm.foldr-eq ℕ_set (bump id) (bump_comm id) p 0

-- The list of a type behind a removal.
abbrev without : Bytes → List Module → List Module
without unreg l = elim (position unreg 0 l) [ none ↦ l | some (i, c) ↦ swap_remove l i ]

load-remove_channel :
    (nm : NotifyMap) (unreg : Bytes) (t : ℕ)
    → load (remove_channel nm unreg).0 t ≡ without unreg (load nm t)
unfolding load remove_channel position
load-remove_channel [] unreg t = refl
load-remove_channel ((u, l) ∷ nm) unreg t = elim (Option-cases (position unreg 0 l)) [
  | inl e ↦ ground (arith, load-remove_channel nm unreg t)
  | inr (ic, e) ↦ ground (arith, load-remove_channel nm unreg t)
]

-- What the inner loop of `RemoveChannel` finds.
position-found :
    (unreg : Bytes) (before l : List Module) (i : ℕ) (c : Module)
    → position unreg (length before) l ≡ some (i, c)
    → (front : List Module) × (back : List Module) × (before ++ l ≡ front ++ c ∷ back)
      × (i ≡ length front)
      × (c.id ≡ unreg)
unfolding position
position-found unreg before [] i c e = absurd (ground arith)
position-found unreg before (x ∷ xs) i c e = elim (bytes_discrete x.id unreg) [
  | yes same ↦ (before, xs, ap (λ y. before ++ y ∷ xs) (ground arith), ground arith, ground arith)
  | no other ↦
      let (front, back, split, at, named) =
        position-found unreg (before ++ x ∷ []) xs i c
          (ground (arith, length-append before (x ∷ []))) in
      (front, back, sym (append_assoc before (x ∷ []) xs) ∙ split, at, named)
]

position-missing :
    (unreg : Bytes) (l : List Module) (i : ℕ) → position unreg i l ≡ none → count unreg l ≡ 0
unfolding position
position-missing unreg [] i e = refl
position-missing unreg (c ∷ cs) i e = ground (arith, position-missing unreg cs (suc i))

count-middle :
    (id : Bytes) (front back : List Module) (c : Module)
    → count id (front ++ c ∷ back) ≡ bump id c (count id (front ++ back))
count-middle id [] back c = refl
count-middle id (x ∷ front) back c = ground (arith, count-middle id front back c)

count-without_found :
    (unreg id : Bytes) (l : List Module) (i : ℕ) (c : Module)
    → position unreg 0 l ≡ some (i, c)
    → (count id l ≡ bump id c (count id (swap_remove l i))) × (c.id ≡ unreg)
count-without_found unreg id l i c e =
    let (front, back, split, at, named) = position-found unreg [] l i c e in
    let moved : count id (swap_remove (front ++ c ∷ back) (length front))
        ≡ count id (front ++ back) =
      count-perm id _ _ (swap_remove-middle-perm front c back) in
    (rw (split, at) (count-middle id front back c ∙ ap (bump id c) (sym moved)), named)

-- A removal takes a module out once.
count-without :
    (unreg id : Bytes) (l : List Module)
    → count id (without unreg l)
        + (if count unreg l == 0 then 0 else ite (bytes_discrete unreg id) 1 0)
      ≡ count id l
count-without unreg id l = elim (Option-cases (position unreg 0 l)) [
  | inl e ↦ ground (arith, position-missing unreg l 0 e)
  | inr ((i, c), e) ↦
      ground (arith, count-without_found unreg id l i c e, count-without_found unreg unreg l i c e)
]

count-save :
    (nm : NotifyMap) (t u : ℕ) (c : Module) (id : Bytes)
    → count id (load (save nm t (load nm t ++ c ∷ [])) u)
      ≡ count id (load nm u) + (if t == u then ite (bytes_discrete c.id id) 1 0 else 0)
count-save nm t u c id =
    ground (arith, load-save nm t u (load nm t ++ c ∷ []), count-append id (load nm t) (c ∷ []))

on_from_vert-in_force :
    (nm : NotifyMap) (x : FromVert) (t : ℕ) (id : Bytes) (b : Bool)
    → ((u : ℕ) (j : Bytes) → count j (load nm u) ≤ 1)
    → count id (load nm t) ≡ (if b then 1 else 0)
    → count id (load (on_from_vert nm x).0 t) ≡ (if in_force t id b x then 1 else 0)
unfolding on_from_vert handle_type_registration handle_module_unregister add_channel_to_type
on_from_vert-in_force nm (FromVert.validation x) t id b small h = h
on_from_vert-in_force nm (FromVert.announce x) t id b small h = h
on_from_vert-in_force nm (FromVert.register x m) t id b small h =
    ground (arith, is_registered-count m.id (load nm x.data_type), count-save nm x.data_type t m id)
on_from_vert-in_force nm (FromVert.unregister i) t id b small h =
    ground (arith, load-remove_channel nm i t, count-without i id (load nm t), small t id)

abbrev pub after : NotifyMap → List FromVert → NotifyMap
after nm history = foldl (λ m x. (on_from_vert m x).0) nm history

after-in_force :
    (history : List FromVert) (nm : NotifyMap) (b : ℕ → Bytes → Bool)
    → ((t : ℕ) (id : Bytes) → count id (load nm t) ≡ (if b t id then 1 else 0))
    → (t : ℕ) (id : Bytes)
    → count id (load (after nm history) t)
      ≡ (if foldl (in_force t id) (b t id) history then 1 else 0)
after-in_force [] nm b h = h
after-in_force (x ∷ history) nm b h =
    after-in_force history (on_from_vert nm x).0 (λ t id. in_force t id (b t id) x)
      (λ t id. on_from_vert-in_force nm x t id (b t id) (λ u j. ground (arith, h u j)) (h t id))

-- After any messages of the vertical API, the list of a type holds each module that has registered
-- for the type and has not unregistered since, once, and no other module.
pub load-in_force :
    (history : List FromVert) (t : ℕ) (id : Bytes)
    → count id (load (after [] history) t) ≡ (if foldl (in_force t id) false history then 1 else 0)
unfolding load
load-in_force history t id = after-in_force history [] (λ _ _. false) (λ t id. refl) t id

-- The modules that are sent a notification.
abbrev pub notified : List Sent → List Module
notified [] = []
notified (to_vert c msg ∷ out) = c ∷ notified out
notified (to_strat x ∷ out) = notified out
notified (cancel c ∷ out) = notified out

notified-map :
    (cs : List Module) (msg : GossipNotification) → notified (map (λ c. to_vert c msg) cs) ≡ cs
notified-map [] msg = refl
notified-map (c ∷ cs) msg = ap (◌∷◌ c) (notified-map cs msg)

-- The modules that are sent a notification are those of the list of its type, in order.
notified_of_load :
    (nm : NotifyMap) (msg : GossipNotification) (l : List Module)
    → load nm msg.data_type ≡ l
    → notified (handle_notification nm msg) ≡ l
unfolding handle_notification
notified_of_load nm msg [] e = rw (e, notified) refl
notified_of_load nm msg (c ∷ cs) e = rw (e, notified) (notified-map (c ∷ cs) msg)

-- After any messages of the vertical API, a notification is sent once to each module whose
-- registration for its type is in force, and to no other module.
pub handle_notification-in_force :
    (history : List FromVert) (msg : GossipNotification) (id : Bytes)
    → count id (notified (handle_notification (after [] history) msg))
      ≡ (if foldl (in_force msg.data_type id) false history then 1 else 0)
handle_notification-in_force history msg id =
    ap (count id)
      (notified_of_load (after [] history) msg (load (after [] history) msg.data_type) refl)
    ∙ load-in_force history msg.data_type id
