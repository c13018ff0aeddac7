-- ===== src/VerticalApi/Buffers/Reused.antt =====
-- What is found in the announcements of the reader behind the next packet.
use whisper2peer.Base.{
  ℕ, suc, ◌+◌, ◌≡◌, ◌≤◌, refl, ap, ◌∙◌, true, [], ◌∷◌, ◌++◌, Bytes, be16, length, take, drop,
  length-append, leb, ==_refl, arith,
}
use whisper2peer.Messages.{Module, FromVert, GossipAnnounce}
use whisper2peer.Vertical.Announce
use whisper2peer.VerticalApi.Reader.{announce, read_round-bytes}
use whisper2peer.VerticalApi.Buffers.{
  ReadBuffer, write_front, grow, after_read, HeldMessage, hold, view, read_all,
}
use whisper2peer.VerticalApi.Buffers.Views.{after_read-announce, view-announce}

-- A shorter front in the place of the beginning of a longer one.
take-overwritten :
    (new old tail : Bytes)
    → length new ≤ length old
    → take (length old) (new ++ drop (length new) (old ++ tail)) ≡ new ++ drop (length new) old
take-overwritten [] [] tail h = refl
take-overwritten [] (y ∷ old) tail h = ap (λ l. y ∷ l) (take-overwritten [] old tail (omega arith))
take-overwritten (x ∷ new) [] tail h = absurd (omega (arith, h))
take-overwritten (x ∷ new) (y ∷ old) tail h =
    ap (λ l. x ∷ l) (take-overwritten new old tail (omega (arith, h)))

-- An announcement that has been read, where the header of one that is not longer comes next.
reused :
    (new_cap : ℕ → ℕ → ℕ) (b : ReadBuffer) (e f : Announce.Packet) (r s : ℕ)
    → Announce.IsWellFormed f
    → length f.ga.payload ≤ length e.ga.payload
    → let b1 = write_front (Announce.bytes e r) b in
      let header = be16 f.header.size ++ be16 f.header.type in
      grow new_cap f.header.size (write_front header b1) ≡ write_front header b1
reused new_cap b e f r s wf fits =
    let b1 = write_front (Announce.bytes e r) b in
    let header = be16 f.header.size ++ be16 f.header.type in
    let again = write_front header b1 in
    let tail : Bytes = drop (length (Announce.bytes e r)) (b.arrays b.current) in
    let small : f.header.size ≤ 8 + length e.ga.payload = omega (arith, wf.sized, fits) in
    let cap : leb f.header.size (length (again.arrays again.current)) ≡ true =
      rw (==_refl b.current) (room f.header.size e.ga.payload tail small) in
    rw cap refl
  where
    room :
        (size : ℕ) (payload tail : Bytes)
        → size ≤ 8 + length payload
        → leb size (suc (suc (suc (suc (suc (suc (suc (suc (length (payload ++ tail)))))))))) ≡ true
    room size payload tail h = ground (arith, h, length-append payload tail)

-- The slice of the first announcement in the array that the second was read into.
view-reused :
    (x : GossipAnnounce) (b : ReadBuffer) (e f : Announce.Packet) (r s : ℕ)
    → length f.ga.payload ≤ length e.ga.payload
    → let b1 = write_front (Announce.bytes e r) b in
      let header = be16 f.header.size ++ be16 f.header.type in
      view
        (write_front (Announce.bytes f s) (write_front header b1)).arrays
        (HeldMessage.shared x b.current (length e.ga.payload))
      ≡ FromVert.announce
          (record x { payload = f.ga.payload ++ drop (length f.ga.payload) e.ga.payload })
view-reused x b e f r s fits = rw (==_refl b.current) (
    ap (λ (p : Bytes). FromVert.announce (record x { payload = p }))
      (take-overwritten f.ga.payload e.ga.payload
        (drop (length (Announce.bytes e r)) (b.arrays b.current)) fits))

-- An announcement that the reader has sent, when the reader then reads an announcement whose payload
-- is not longer: whoever still holds the first one finds in it the payload of the second, with what
-- is left of its own payload behind it. Its TTL and type are as they were.
pub read_all-reused :
    (new_cap : ℕ → ℕ → ℕ) (fuel : ℕ) (m : Module) (b : ReadBuffer) (e f : Announce.Packet) (r s : ℕ)
    (input : Bytes)
    → Announce.IsWellFormed e
    → Announce.IsWellFormed f
    → length f.ga.payload ≤ length e.ga.payload
    → (first second : HeldMessage × ReadBuffer) × (read_all new_cap
          (suc (suc fuel))
          m
          b
          (Announce.bytes e r ++ (Announce.bytes f s ++ input))
        ≡ first ∷ second ∷ read_all new_cap fuel m second.1 input)
      × (view first.1.arrays first.0 ≡ FromVert.announce (record e.ga { reserved = r }))
      × (view second.1.arrays first.0
          ≡ FromVert.announce (record e.ga {
            reserved = r;
            payload = f.ga.payload ++ drop (length f.ga.payload) e.ga.payload;
          }))
unfolding read_all
read_all-reused new_cap fuel m b e f r s input wf wf' fits =
    let b1 = after_read new_cap b (Announce.bytes e r ++ (Announce.bytes f s ++ input)) in
    let b2 = after_read new_cap b1 (Announce.bytes f s ++ input) in
    let x : GossipAnnounce = record e.ga { reserved = r } in
    let y : GossipAnnounce = record f.ga { reserved = s } in
    let g = grow new_cap e.header.size (write_front (be16 e.header.size ++ be16 e.header.type) b) in
    let front = after_read-announce new_cap b e r (Announce.bytes f s ++ input) wf in
    let first_round = read_round-bytes m (announce e r wf) (Announce.bytes f s ++ input) in
    let second_round = read_round-bytes m (announce f s wf') input in
    let now : ReadBuffer → FromVert = λ c.
      view c.arrays
        (HeldMessage.shared (record x { payload = [] }) c.current (length e.ga.payload)) in
    let later : ReadBuffer → FromVert = λ c.
      view (after_read new_cap c (Announce.bytes f s ++ input)).arrays
        (HeldMessage.shared (record x { payload = [] }) c.current (length e.ga.payload)) in
    (
      (hold (FromVert.announce x) b1.current, b1),
      (hold (FromVert.announce y) b2.current, b2),
      rw (first_round, read_all) (rw (second_round, read_all) refl),
      ap now front ∙ view-announce (record x { payload = [] }) e r g,
      ap later front
          ∙ ap
              (λ (c : ReadBuffer).
                view c.arrays
                  (HeldMessage.shared (record x { payload = [] }) g.current (length e.ga.payload)))
              (after_read-announce new_cap (write_front (Announce.bytes e r) g) f s input wf'
                ∙ ap (write_front (Announce.bytes f s)) (reused new_cap g e f r s wf' fits))
          ∙ view-reused (record x { payload = [] }) g e f r s fits,
    )
