-- ===== src/Strategy/Tick.antt =====
-- The rounds of gossip/strats/dummy.go: a tick relays the valid messages and empties their buffer.
use mathlib.Core.List.{foldl, erase}
use mathlib.Core.Logic.{if_pos}
use whisper2peer.Base.{ℕ, suc, ◌≡◌, refl, ap, sym, ◌∙◌, List, [], ◌∷◌, ◌++◌, map, ℕ_discrete}
use whisper2peer.Ringbuffer.{insert, remove, extract_to_slice}
use whisper2peer.Ringbuffer.Valid.{IsValid, elements, remove-Removed}
use whisper2peer.Ringbuffer.Search.{extract_to_slice-elements}
use whisper2peer.Connections.{Peer, Manager, permuted_valid}
use whisper2peer.Strategy.{Strategy, Output, send, send_messages, on_tick}
use whisper2peer.HorizontalApi.{Push, ToHz}

-- What a tick sends, by its messages and the permutations drawn.
abbrev pub relayed : (ℕ → Push) → Manager → ℕ → List ℕ → (ℕ → List ℕ) → List Output
relayed messages m degree [] perms = []
relayed messages m degree (p ∷ ps) perms =
    map (λ peer. send peer.connection (ToHz.push (messages p))) (permuted_valid m (perms 0) degree)
    ++ relayed messages m degree ps (λ i. perms (suc i))

-- What a tick leaves.
pub record Ticked (s : Strategy) (perms : ℕ → List ℕ) (s' : Strategy) (out : List Output)
    : Type 0 where
  pub emptied : elements s'.valid_messages ≡ []
  pub valid : IsValid s'.valid_messages
  pub moved : s'.sent_messages ≡ foldl insert s.sent_messages (elements s.valid_messages)
  pub kept : s'.invalid_messages ≡ s.invalid_messages
  pub peers : s'.manager ≡ s.manager
  pub output : out ≡ relayed s.messages s.manager s.degree (elements s.valid_messages) perms

erase-head : (p : ℕ) (ps : List ℕ) → erase ℕ_discrete (p ∷ ps) p ≡ ps
erase-head p ps = if_pos (ℕ_discrete p p) refl _ _

-- Removing the elements of a buffer one after the other empties it.
send_messages-Ticked :
    (s : Strategy) (ps : List ℕ) (perms : ℕ → List ℕ)
    → IsValid s.valid_messages
    → elements s.valid_messages ≡ ps
    → Ticked s perms (send_messages s ps perms).0 (send_messages s ps perms).1
unfolding send_messages
send_messages-Ticked s [] perms h e = record {
  emptied = e;
  valid = h;
  moved = ap (foldl insert s.sent_messages) (sym e);
  kept = refl;
  peers = refl;
  output = ap (λ qs. relayed s.messages s.manager s.degree qs perms) (sym e);
}
send_messages-Ticked s (p ∷ ps) perms h e =
    let (valid, shown, _) = remove-Removed ℕ_discrete p s.valid_messages h in
    let s' : Strategy = record s {
      valid_messages = (remove ℕ_discrete s.valid_messages p).0;
      sent_messages = insert s.sent_messages p;
    } in
    let shown' : elements s'.valid_messages ≡ ps =
      shown ∙ ap (λ qs. erase ℕ_discrete qs p) e ∙ erase-head p ps in
    let t = send_messages-Ticked s' ps (λ i. perms (suc i)) valid shown' in
    record {
      emptied = t.emptied;
      valid = t.valid;
      moved =
          t.moved
          ∙ ap (foldl insert s'.sent_messages) shown'
          ∙ ap (foldl insert s.sent_messages) (sym e);
      kept = t.kept;
      peers = t.peers;
      output =
          ap
            (◌++◌ (
              map (λ (peer : Peer). send peer.connection (ToHz.push (s.messages p)))
                (permuted_valid s.manager (perms 0) s.degree)))
            (t.output
              ∙ ap (λ qs. relayed s.messages s.manager s.degree qs (λ i. perms (suc i))) shown')
          ∙ ap (λ qs. relayed s.messages s.manager s.degree qs perms) (sym e);
    }

-- A tick on a valid buffer sends each of its messages to the peers drawn for it, in the order of
-- the buffer, inserts them in that order into the buffer of the messages sent, and leaves the
-- buffer of the valid messages empty and the peers and the messages to be validated as they were.
pub on_tick-Ticked :
    (s : Strategy) (perms : ℕ → List ℕ)
    → IsValid s.valid_messages
    → Ticked s perms (on_tick s perms).0 (on_tick s perms).1
unfolding on_tick
on_tick-Ticked s perms h =
    send_messages-Ticked s (extract_to_slice s.valid_messages) perms h
      (sym (extract_to_slice-elements s.valid_messages))
