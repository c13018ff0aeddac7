-- ===== src/TestBench/Register.antt =====
-- `RegisterAllPeersForType` in gossip/internal/testutils/tester.go: the message that the test bench
-- writes to each node. An error of a connection is left out.
use whisper2peer.Base.{
  ℕ, ◌≡◌, ◌<◌, ◌*◌, ◌+◌, refl, ap, sym, ◌∙◌, [], ◌∷◌, Bytes, ok, append-nil, arith,
}
use whisper2peer.Messages.{Module, FromVert, GossipNotify}
use whisper2peer.Vertical.{Result, MessageHeader, notify_type, recalc_size}
use whisper2peer.Vertical.Notify
use whisper2peer.VerticalApi.{closed, handle_connection}
use whisper2peer.VerticalApi.Reader.{notify, handle_connection-stream}

-- The registration for a type, with the size that `RecalcSize` sets.
abbrev pub register_packet : ℕ → Notify.Packet
register_packet gtype =
    let gn : GossipNotify = record { reserved = 0; data_type = gtype } in
    let header : MessageHeader = record { size = 0; type = notify_type } in
    record {
      gn = gn;
      header = recalc_size header (Notify.calc_size (record { gn = gn; header = header }));
    }

-- What `SendMsg` writes.
abbrev pub register_message : ℕ → Result Bytes
register_message gtype = Notify.marshal (register_packet gtype) []

-- What is written is read by a node as a registration of the connection's module for the type.
handle_connection-register_message :
    (m : Module) (gtype : ℕ)
    → gtype < 65536
    → (out : Bytes) × (reserved : ℕ) × (register_message gtype ≡ ok out)
      × (handle_connection 2 m out ≡ (
        FromVert.register (record { reserved = reserved; data_type = gtype }) m
            ∷ FromVert.unregister m.id
            ∷ [],
        closed,
      ))
handle_connection-register_message m gtype small =
    let e = register_packet gtype in
    let wf : Notify.IsWellFormed e = record {
      typed = refl;
      sized = refl;
      data_type_range = small;
    } in
    let (r, s, made) = Notify.marshal-bytes e [] wf in
    (
      Notify.bytes e r s,
      r * 256 + s,
      made,
      ap (handle_connection 2 m) (sym (append-nil (Notify.bytes e r s)))
          ∙ handle_connection-stream m (notify e r s wf ∷ []) 2 (omega arith),
    )
