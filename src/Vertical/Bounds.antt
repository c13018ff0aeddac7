-- ===== src/Vertical/Bounds.antt =====
-- A packet of gossip/verticalAPI/types is read without an index out of range, whatever its bytes
-- are, where the buffer is as long as the header says.
use whisper2peer.Base.{◌≡◌, ◌≢◌, [], ◌∷◌, Bytes, panics, length, arith}
use whisper2peer.Vertical.{slice_to-append}
use whisper2peer.Vertical.Announce
use whisper2peer.Vertical.Notify
use whisper2peer.Vertical.Validation

pub announce-ne-panics :
    (e : Announce.Packet) (buf : Bytes)
    → e.header.size ≡ length buf
    → Announce.unmarshal e buf ≢ panics
unfolding Announce.unmarshal
announce-ne-panics e (a ∷ b ∷ c ∷ d ∷ f ∷ r ∷ h ∷ i ∷ rest) l =
    ground (arith, slice_to-append (a ∷ b ∷ c ∷ d ∷ f ∷ r ∷ h ∷ i ∷ []) rest e.header.size)
announce-ne-panics e _ l = ground arith

pub notify-ne-panics : (e : Notify.Packet) (buf : Bytes) → Notify.unmarshal e buf ≢ panics
unfolding Notify.unmarshal
notify-ne-panics e (a ∷ b ∷ c ∷ d ∷ f ∷ r ∷ h ∷ i ∷ rest) = ground arith
notify-ne-panics e _ = ground arith

pub validation-ne-panics :
    (e : Validation.Packet) (buf : Bytes) → Validation.unmarshal e buf ≢ panics
unfolding Validation.unmarshal
validation-ne-panics e (a ∷ b ∷ c ∷ d ∷ f ∷ r ∷ h ∷ i ∷ rest) = ground arith
validation-ne-panics e _ = ground arith
