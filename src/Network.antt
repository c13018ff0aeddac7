-- ===== src/Network.antt =====
-- Two nodes one after the other: what gossip/verticalAPI/verticalApi.go, gossip/main/main.go,
-- gossip/strats/dummy.go and gossip/horizontalAPI/horizontalAPI.go do for what a module of one node
-- writes, up to what a module of a neighbour reads.
--
-- Each part is run on all that the part before it gives, as a node does where nothing else happens
-- in between. The id of an announcement and the permutations of a tick are arguments.
pub mod Leaving
pub mod Arriving
pub mod Delivery
pub mod Handshake
pub mod Meeting
pub mod Examples
use whisper2peer.Base.{
  ℕ, suc, Bool, Option, none, some, List, [], ◌∷◌, ◌++◌, Bytes, ◌==◌, if◌then◌else◌,
}
use whisper2peer.Messages.{Module, FromVert, ToStrat, GossipNotification}
use whisper2peer.Main.{
  NotifyMap, Sent, to_strat, to_vert, cancel, on_from_vert, handle_notification,
}
use whisper2peer.VerticalApi
use whisper2peer.Cookie.{Aead}
use whisper2peer.Connections.{ConnectionId}
use whisper2peer.HorizontalApi.{FromHz, ToHz}
use whisper2peer.HorizontalApi.Capnp.{Capnp}
use whisper2peer.HorizontalApi.Receive as Receive
use whisper2peer.HorizontalApi.Transmit as Transmit
use whisper2peer.HorizontalApi.RoundTrip.{decoded}
use whisper2peer.Strategy.{Strategy, Output, send, notify, prove_conn, prove_pow, on_tick}
use whisper2peer.Strategy.Handlers.{on_from_hz}
use whisper2peer.Strategy.Wired.{for_channel, with_fates}
use whisper2peer.Node.{on_to_strat}

-- What the main component sends to the strategy.
unfoldable pub to_strats : List Sent → List ToStrat
to_strats [] = []
to_strats (to_strat x ∷ out) = x ∷ to_strats out
to_strats (to_vert m x ∷ out) = to_strats out
to_strats (cancel m ∷ out) = to_strats out

-- The loop of `Run` over messages of the vertical API.
unfoldable pub main_sends : NotifyMap → List FromVert → List ToStrat
main_sends nm [] = []
main_sends nm (x ∷ xs) = to_strats (on_from_vert nm x).1 ++ main_sends (on_from_vert nm x).0 xs

-- The loop of `Listen` over messages of the main component.
unfoldable pub take_in : Strategy → (ℕ → ℕ) → List ToStrat → Strategy
take_in s ids [] = s
take_in s ids (x ∷ xs) = take_in (on_to_strat s (ids 0) x) (λ i. ids (suc i)) xs

-- What a node sends on a channel at the tick behind what a module has written.
unfoldable pub sends :
    ℕ → NotifyMap → Strategy → Module → (ℕ → ℕ) → (ℕ → List ℕ) → ℕ → Bytes → List ToHz
sends fuel nm s m ids perms channel input =
    let xs = (VerticalApi.handle_connection fuel m input).0 in
    for_channel channel (on_tick (take_in s ids (main_sends nm xs)) perms).1

-- What comes of messages at the other end of their connection, where each can be sent.
unfoldable pub carries : Capnp → ConnectionId → List ToHz → List FromHz
carries c id ms =
    (Receive.handle_connection c id
      (decoded c (Transmit.write_to_connection c (with_fates (λ _. Transmit.delivered) ms)))).0

-- The notifications of a handler.
unfoldable pub notifications : List Output → List GossipNotification
notifications [] = []
notifications (notify x ∷ out) = x ∷ notifications out
notifications (send conn m ∷ out) = notifications out
notifications (Output.cancel conn ∷ out) = notifications out
notifications (prove_conn peer cookie ∷ out) = notifications out
notifications (prove_pow peer cookie ∷ out) = notifications out

-- The loop of `Listen` over messages of the horizontal API, up to a panic.
unfoldable pub hears :
    Aead → (Bytes → Bytes) → Bytes → ℕ → Strategy → List FromHz → List GossipNotification
hears aead sum256 nonce now s [] = []
hears aead sum256 nonce now s (x ∷ xs) = elim (on_from_hz aead sum256 s nonce now x) [
  | none ↦ []
  | some (s', out) ↦ notifications out ++ hears aead sum256 nonce now s' xs
]

-- What is sent to the module with a channel.
unfoldable pub for_module : ℕ → List Sent → List GossipNotification
for_module chan [] = []
for_module chan (to_vert m x ∷ out) =
    if m.chan == chan then x ∷ for_module chan out else for_module chan out
for_module chan (to_strat x ∷ out) = for_module chan out
for_module chan (cancel m ∷ out) = for_module chan out

-- The loop of `Run` over notifications, for one module.
unfoldable pub tells : NotifyMap → ℕ → List GossipNotification → List GossipNotification
tells nm chan [] = []
tells nm chan (x ∷ xs) = for_module chan (handle_notification nm x) ++ tells nm chan xs
