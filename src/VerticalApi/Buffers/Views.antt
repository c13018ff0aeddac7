-- ===== src/VerticalApi/Buffers/Views.antt =====
-- What is found in the messages of the reader at the moment when they are sent.
use whisper2peer.Base.{
  ℕ, zero, suc, ◌+◌, ◌*◌, ◌/◌, ◌%◌, ◌≡◌, ◌≤◌, ◌<◌, refl, ap, ◌∙◌, List, [], ◌∷◌, ◌++◌, map, Bytes,
  ok, be16, length, take, take-length_append, le→ltb, ==_refl, arith,
}
use whisper2peer.Messages.{Module, FromVert, GossipAnnounce}
use whisper2peer.Vertical.{MessageHeader, unmarshal_header}
use whisper2peer.Vertical.Announce
use whisper2peer.VerticalApi.{read_round}
use whisper2peer.VerticalApi.Reader.{
  Packet, announce, notify, validation, bytes, message, stream, read_round-bytes,
}
use whisper2peer.VerticalApi.Buffers.{
  ReadBuffer, write_front, grow, after_read, HeldMessage, hold, view, read_all,
}

unmarshal_header-be16 :
    (size type : ℕ) (tail : Bytes)
    → size < 65536
    → type < 65536
    → unmarshal_header (take 4 (be16 size ++ be16 type ++ tail))
      ≡ ok (record { size = size; type = type }, 4)
unfolding unmarshal_header
unmarshal_header-be16 size type tail p q =
    let s : size / 256 % 256 * 256 + size % 256 ≡ size = omega arith in
    let t : type / 256 % 256 * 256 + type % 256 ≡ type = omega arith in
    ap (λ (h : MessageHeader). ok (h, 4)) (λ i. record { size = s i; type = t i })

-- The buffer behind the read of an announcement holds it in front.
pub after_read-announce :
    (new_cap : ℕ → ℕ → ℕ) (b : ReadBuffer) (e : Announce.Packet) (r : ℕ) (rest : Bytes)
    → Announce.IsWellFormed e
    → after_read new_cap b (Announce.bytes e r ++ rest)
      ≡ write_front
          (Announce.bytes e r)
          (grow new_cap e.header.size (write_front (be16 e.header.size ++ be16 e.header.type) b))
unfolding after_read
after_read-announce new_cap b e r rest wf =
    let whole : e.header.size ≡ length (Announce.bytes e r) = omega (arith, wf.sized) in
    let body : take e.header.size (Announce.bytes e r ++ rest) ≡ Announce.bytes e r =
      ap (λ n. take n (Announce.bytes e r ++ rest)) whole
      ∙ take-length_append (Announce.bytes e r) rest in
    let long : 4 ≤ length (Announce.bytes e r ++ rest) = omega arith in
    rw
      (
        le→ltb (length (Announce.bytes e r ++ rest)) 4 long,
        unmarshal_header-be16 e.header.size e.header.type _ wf.size_range (omega (arith, wf.typed)),
        le→ltb e.header.size 4 (omega (arith, wf.sized)),
        body,
        after_read,
      )
      refl

-- The payload of an announcement in front of the array that is written.
pub view-announce :
    (x : GossipAnnounce) (e : Announce.Packet) (r : ℕ) (b : ReadBuffer)
    → view
        (write_front (Announce.bytes e r) b).arrays
        (HeldMessage.shared x b.current (length e.ga.payload))
      ≡ FromVert.announce (record x { payload = e.ga.payload })
view-announce x e r b = rw (==_refl b.current) (
    ap (λ (p : Bytes). FromVert.announce (record x { payload = p }))
      (take-length_append e.ga.payload _))

-- A message and the buffers at the moment when it is sent.
abbrev found : HeldMessage × ReadBuffer → FromVert
found r = view (r.1).arrays r.0

sent-message :
    (new_cap : ℕ → ℕ → ℕ) (m : Module) (b : ReadBuffer) (p : Packet) (rest : Bytes)
    → let b' = after_read new_cap b (bytes p ++ rest) in
      found (hold (message m p) b'.current, b') ≡ message m p
sent-message new_cap m b (announce e r wf) rest =
    let grown =
      grow new_cap e.header.size (write_front (be16 e.header.size ++ be16 e.header.type) b) in
    let x : GossipAnnounce = record e.ga { reserved = r; payload = [] } in
    ap (λ (b' : ReadBuffer). view b'.arrays (HeldMessage.shared x b'.current (length e.ga.payload)))
      (after_read-announce new_cap b e r rest wf)
    ∙ view-announce x e r grown
sent-message new_cap m b (notify e r s wf) rest = refl
sent-message new_cap m b (validation e wf) rest = refl

-- For a stream of well-formed packets, whatever capacities new arrays get, the main component is
-- sent one message for each packet, in order, and then the one that unregisters the module; a round
-- for each packet and one more suffice. Each message, when it is sent, shows what its packet says,
-- also where it holds its payload as a slice of the buffer.
pub read_all-stream :
    (new_cap : ℕ → ℕ → ℕ) (m : Module) (ps : List Packet) (fuel : ℕ) (b : ReadBuffer)
    → length ps < fuel
    → map (λ r. view (r.1).arrays r.0) (read_all new_cap fuel m b (stream ps))
      ≡ map (message m) ps ++ FromVert.unregister m.id ∷ []
unfolding read_all read_round
read_all-stream new_cap m ps zero b h = elim h [ ]
read_all-stream new_cap m [] (suc fuel) b h = refl
read_all-stream new_cap m (p ∷ ps) (suc fuel) b h =
    let b' = after_read new_cap b (stream (p ∷ ps)) in
    let rest = read_all-stream new_cap m ps fuel b' (omega arith) in
    rw (read_round-bytes m p (stream ps), read_all)
      (ap (λ x. x ∷ map (λ r. view (r.1).arrays r.0) (read_all new_cap fuel m b' (stream ps)))
          (sent-message new_cap m b p (stream ps))
        ∙ ap (λ xs. message m p ∷ xs) rest)
