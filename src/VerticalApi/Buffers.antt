-- ===== src/VerticalApi/Buffers.antt =====
-- The buffer of the reader in gossip/verticalAPI/verticalApi.go. The payload of an announcement is a
-- slice of it (`Unmarshal` in gossip/verticalAPI/types/gossip_announce.go), and the next packet is
-- read into the same array where this has room for it.
--
-- The arrays are numbered; the length of one is its capacity. Which capacity `slices.Grow` gives a
-- new array is a parameter; the array is filled with zeros, and the bytes of the header are written
-- to it together with the body.
pub mod Views
pub mod Reused
use whisper2peer.Base.{
  ℕ, zero, suc, List, [], ◌∷◌, ◌++◌, Bytes, ok, err, panics, length, take, drop, replicate, ltb,
  leb, ◌==◌, if◌then◌else◌,
}
use whisper2peer.Messages.{Module, FromVert, GossipAnnounce}
use whisper2peer.Vertical.{header_size, unmarshal_header}
use whisper2peer.VerticalApi.{Round, sends, skips, ends, crashes, read_round}

-- The arrays, and the one behind `buf`.
pub record ReadBuffer : Type 0 where
  pub arrays : ℕ → Bytes
  pub current : ℕ

-- Before the loop: `make([]byte, msgHdr.CalcSize())`.
abbrev pub new_buffer : ReadBuffer
new_buffer = record { arrays = λ n. replicate header_size 0; current = 0 }

abbrev pub write_front : Bytes → ReadBuffer → ReadBuffer
write_front buf b = record b {
  arrays = λ n. let a = b.arrays n in if n == b.current then buf ++ drop (length buf) a else a;
}

-- `slices.Grow`.
abbrev pub grow : (ℕ → ℕ → ℕ) → ℕ → ReadBuffer → ReadBuffer
grow new_cap size b =
    let cap = length (b.arrays b.current) in
    if leb size cap then b else record {
      arrays = λ n. if n == suc b.current then replicate (new_cap cap size) 0 else b.arrays n;
      current = suc b.current;
    }

-- What a round reads into the buffer: the header, and behind it the body or what there is of it.
unfoldable pub after_read : (ℕ → ℕ → ℕ) → ReadBuffer → Bytes → ReadBuffer
after_read new_cap b input =
    let b' = write_front (take header_size input) b in
    if ltb (length input) header_size
    then b'
    else elim (unmarshal_header (take header_size input)) [
      | err e ↦ b'
      | panics ↦ b'
      | ok (header, _) ↦
          if ltb header.size header_size
          then b'
          else write_front (take header.size input) (grow new_cap header.size b')
    ]

-- What is sent to the main component: a value, or an announcement with a slice of an array for its
-- payload, which begins behind eight bytes and has a length.
pub data HeldMessage : Type 0 where
  by_value : FromVert → HeldMessage
  shared : GossipAnnounce → ℕ → ℕ → HeldMessage

abbrev pub hold : FromVert → ℕ → HeldMessage
hold (FromVert.announce x) array =
    HeldMessage.shared (record x { payload = [] }) array (length x.payload)
hold x array = HeldMessage.by_value x

-- What the one who holds a message finds in it.
abbrev pub view : (ℕ → Bytes) → HeldMessage → FromVert
view arrays (HeldMessage.by_value x) = x
view arrays (HeldMessage.shared x array len) =
    FromVert.announce (record x { payload = take len (drop 8 (arrays array)) })

-- The loop of `handleConnection`: what it sends, each with the buffers of that moment.
unfoldable pub read_all :
    (ℕ → ℕ → ℕ) → ℕ → Module → ReadBuffer → Bytes → List (HeldMessage × ReadBuffer)
read_all new_cap zero m b input = []
read_all new_cap (suc fuel) m b input =
    let b' = after_read new_cap b input in
    let last = (HeldMessage.by_value (FromVert.unregister m.id), b') ∷ [] in
    elim (read_round m input) [
      | sends x rest ↦ (hold x b'.current, b') ∷ read_all new_cap fuel m b' rest
      | skips rest ↦ read_all new_cap fuel m b' rest
      | ends ↦ last
      | crashes ↦ last
    ]
