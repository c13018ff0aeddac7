-- ===== src/Network/Leaving.antt =====
-- What a node sends of an announcement of one of its modules.
use whisper2peer.Base.{
  ℕ, zero, suc, ◌≡◌, refl, ap, sym, ◌∙◌, Bool, true, false, Option, none, some, List, [], ◌∷◌, ◌++◌,
  append-nil, map, Bytes, ◌==◌, if◌then◌else◌, arith, ==_refl,
}
use whisper2peer.Messages.{Module, FromVert, ToStrat, GossipAnnounce}
use whisper2peer.Main.{
  NotifyMap, to_strat, cancel, load, handle_gossip_announce, handle_module_unregister,
  remove_channel, on_from_vert,
}
use whisper2peer.Vertical.Announce
use whisper2peer.VerticalApi
use whisper2peer.VerticalApi.{notification_packet}
use whisper2peer.VerticalApi.Reader.{announce, handle_connection-stream}
use whisper2peer.Ringbuffer.Valid.{IsValid, elements, insert-IsValid, elements-insert_empty}
use whisper2peer.Connections.{Peer, permuted_valid}
use whisper2peer.HorizontalApi.{Push, ToHz}
use whisper2peer.Strategy.{Strategy, send, on_announce, on_tick, convert_announce_to_push}
use whisper2peer.Strategy.Tick.{on_tick-Ticked, relayed}
use whisper2peer.Strategy.Wired.{for_channel}
use whisper2peer.Network.{to_strats, main_sends, take_in, sends}

-- How many of some peers are connected by a channel.
unfoldable pub drawn : ℕ → List Peer → ℕ
drawn channel [] = 0
drawn channel (p ∷ ps) =
    let n = drawn channel ps in if p.connection.chan == channel then suc n else n

abbrev pub copies {ℓ} : {A : Type ℓ} → ℕ → A → List A
copies zero x = []
copies (suc n) x = x ∷ copies n x

pub one_more {ℓ} :
    {A : Type ℓ} (b : Bool) (x : A) (n : ℕ) (xs : List A)
    → xs ≡ copies n x
    → (if b then x ∷ xs else xs) ≡ copies (if b then suc n else n) x
one_more true x n xs e = ap (λ l. x ∷ l) e
one_more false x n xs e = e

for_channel-map :
    (channel : ℕ) (m : ToHz) (ps : List Peer)
    → for_channel channel (map (λ p. send p.connection m) ps) ≡ copies (drawn channel ps) m
unfolding for_channel drawn
for_channel-map channel m [] = refl
for_channel-map channel m (p ∷ ps) =
    one_more (p.connection.chan == channel) m _ _ (for_channel-map channel m ps)

no_strats : (o : Option Module) → to_strats (elim o [ none ↦ [] | some c ↦ cancel c ∷ [] ]) ≡ []
unfolding to_strats
no_strats none = refl
no_strats (some c) = refl

-- The end of a module's connection is nothing to the strategy.
to_strats-unregister :
    (nm : NotifyMap) (id : Bytes) → to_strats (on_from_vert nm (FromVert.unregister id)).1 ≡ []
unfolding on_from_vert handle_module_unregister
to_strats-unregister nm id = no_strats (remove_channel nm id).1

announced :
    (nm : NotifyMap) (x : GossipAnnounce) (m : Module) (ms : List Module)
    → load nm x.data_type ≡ m ∷ ms
    → on_from_vert nm (FromVert.announce x) ≡ (nm, to_strat (ToStrat.announce x) ∷ [])
unfolding on_from_vert handle_gossip_announce
announced nm x m ms e = rw (e, handle_gossip_announce) refl

-- What the main component sends of a module that announces and ends.
main_sends-announce :
    (nm : NotifyMap) (x : GossipAnnounce) (id : Bytes) (m : Module) (ms : List Module)
    → load nm x.data_type ≡ m ∷ ms
    → main_sends nm (FromVert.announce x ∷ FromVert.unregister id ∷ []) ≡ ToStrat.announce x ∷ []
unfolding main_sends to_strats
main_sends-announce nm x id m ms e =
    ap (λ r. to_strats r.1 ++ (to_strats (on_from_vert r.0 (FromVert.unregister id)).1 ++ []))
      (announced nm x m ms e)
    ∙ ap (λ l. ToStrat.announce x ∷ (l ++ [])) (to_strats-unregister nm id)

-- One announcement in an empty buffer, at the next tick.
sends-announce :
    (s : Strategy) (id : ℕ) (x : GossipAnnounce) (perms : ℕ → List ℕ) (channel : ℕ)
    → IsValid s.valid_messages
    → elements s.valid_messages ≡ []
    → for_channel channel (on_tick (on_announce s id x) perms).1
      ≡ copies
          (drawn channel (permuted_valid s.manager (perms 0) s.degree))
          (ToHz.push (convert_announce_to_push id x))
unfolding on_announce
sends-announce s id x perms channel valid idle =
    let s' = on_announce s id x in
    let ticked = on_tick-Ticked s' perms (insert-IsValid s.valid_messages s.stored valid) in
    let one = elements-insert_empty s.valid_messages s.stored valid idle in
    let msg = convert_announce_to_push id x in
    ap (for_channel channel) ticked.output
    ∙ ap (λ ps. for_channel channel (relayed s'.messages s.manager s.degree ps perms)) one
    ∙ ap (for_channel channel) (append-nil _)
    ∙ ap
        (λ (m : Push). for_channel channel (
          map (λ p. send p.connection (ToHz.push m)) (permuted_valid s.manager (perms 0) s.degree)))
        (rw (==_refl s.stored) refl)
    ∙ for_channel-map channel (ToHz.push msg) (permuted_valid s.manager (perms 0) s.degree)

-- The first node, from the bytes of its module to what it sends on a channel.
pub sends-bytes :
    (nm : NotifyMap) (s : Strategy) (m first : Module) (others : List Module) (e : Announce.Packet)
    (reserved : ℕ) (ids : ℕ → ℕ) (perms : ℕ → List ℕ) (channel : ℕ)
    → Announce.IsWellFormed e
    → load nm e.ga.data_type ≡ first ∷ others
    → IsValid s.valid_messages
    → elements s.valid_messages ≡ []
    → drawn channel (permuted_valid s.manager (perms 0) s.degree) ≡ 1
    → sends 2 nm s m ids perms channel (Announce.bytes e reserved)
      ≡ ToHz.push (convert_announce_to_push (ids 0) e.ga) ∷ []
unfolding sends take_in convert_announce_to_push
sends-bytes nm s m first others e reserved ids perms channel wf registered valid idle once =
    let x : GossipAnnounce = record e.ga { reserved = reserved } in
    let input : Bytes = Announce.bytes e reserved in
    let rest = λ (xs : List ToStrat). for_channel channel (on_tick (take_in s ids xs) perms).1 in
    ap (λ (b : Bytes). rest (main_sends nm (VerticalApi.handle_connection 2 m b).0))
      (sym (append-nil input))
    ∙ ap (λ (r : List FromVert × VerticalApi.End). rest (main_sends nm r.0))
        (handle_connection-stream m (announce e reserved wf ∷ []) 2 (omega arith))
    ∙ ap rest (main_sends-announce nm x m.id first others registered)
    ∙ sends-announce s (ids 0) x perms channel valid idle
    ∙ ap (λ n. copies n (ToHz.push (convert_announce_to_push (ids 0) x))) once
