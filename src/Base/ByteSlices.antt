-- ===== src/Base/ByteSlices.antt =====
-- Byte slices of the Go code as lists of numbers below 256, and big-endian integers of
-- `encoding/binary`.
use Prim.Native.Nat.{ℕ, zero, suc, ◌+◌, ◌*◌, ◌/◌, ◌%◌, ◌^◌, ◌<◌}
use mathlib.Core.Path.{◌≡◌, refl, ap, ◌∙◌}
use mathlib.Core.List.{List, [], ◌∷◌, ◌++◌}
use mathlib.Core.Option.{Option, none, some}
use native.Mathlib.Omega.{arith}
use native.Mathlib.Nat.{pow-suc}
use native.Mathlib.Decide.{ℕ_discrete}
use whisper2peer.Base.Lists.{length, take, replicate, length-append, length-take, length-replicate}

abbrev pub Bytes : Type 0
Bytes = List ℕ

unfoldable pub bytes_discrete : Discrete (List ℕ)
unfolding ℕ_discrete
bytes_discrete = hlevel ℕ_discrete

-- `binary.BigEndian.AppendUint16(nil, n)`.
abbrev pub be16 : ℕ → Bytes
be16 n = n / 256 % 256 ∷ n % 256 ∷ []

-- `binary.BigEndian.Uint16`; `none` is its panic on a slice that is too short.
abbrev pub uint16? : Bytes → Option ℕ
uint16? (a ∷ b ∷ _) = some (a * 256 + b)
uint16? _ = none

pub uint16?-be16 : (n : ℕ) (rest : Bytes) → n < 65536 → uint16? (be16 n ++ rest) ≡ some n
uint16?-be16 n rest h = ap some (omega arith)

-- An unsigned integer of `w` bytes, the highest byte first.
unfoldable pub be : ℕ → ℕ → Bytes
be zero n = []
be (suc w) n = be w (n / 256) ++ n % 256 ∷ []

unfoldable pub from_be : ℕ → Bytes → ℕ
from_be acc [] = acc
from_be acc (x ∷ xs) = from_be (acc * 256 + x) xs

pub length-be : (w n : ℕ) → length (be w n) ≡ w
unfolding be
length-be zero n = refl
length-be (suc w) n =
    omega (arith, length-append (be w (n / 256)) (n % 256 ∷ []), length-be w (n / 256))

from_be-append : (acc : ℕ) (xs ys : Bytes) → from_be acc (xs ++ ys) ≡ from_be (from_be acc xs) ys
unfolding from_be
from_be-append acc [] ys = refl
from_be-append acc (x ∷ xs) ys = from_be-append (acc * 256 + x) xs ys

pub from_be-be : (w n : ℕ) → n < 256 ^ w → from_be 0 (be w n) ≡ n
unfolding be from_be
from_be-be zero n h = omega arith
from_be-be (suc w) n h =
    from_be-append 0 (be w (n / 256)) (n % 256 ∷ [])
    ∙ ap (λ (k : ℕ). k * 256 + n % 256)
        (from_be-be w (n / 256) (let e = pow-suc 256 w in omega arith))
    ∙ omega arith

-- `copy(dst, src)`: as many bytes as both have.
abbrev pub copy : Bytes → Bytes → Bytes
copy dst [] = dst
copy [] (s ∷ src) = []
copy (d ∷ dst) (s ∷ src) = s ∷ copy dst src

-- `copy(dst[i:], src)`, and a write of the bytes `src` at `i` where they fit.
abbrev pub copy_at : Bytes → ℕ → Bytes → Bytes
copy_at dst zero src = copy dst src
copy_at [] (suc i) src = []
copy_at (d ∷ dst) (suc i) src = d ∷ copy_at dst i src

-- `slices.Grow(buf, n)[:n]` for a buffer whose backing array holds `buf`: what the array held is
-- still there, and what is new is zero.
unfoldable pub grown : Bytes → ℕ → Bytes
grown buf n = take n (buf ++ replicate n 0)

pub length-grown : (buf : Bytes) (n : ℕ) → length (grown buf n) ≡ n
unfolding grown
length-grown buf n = omega (
  arith,
  length-take n (buf ++ replicate n 0),
  length-append buf (replicate n 0),
  length-replicate {A = ℕ} n 0,
)

pub copy_full : (dst src : Bytes) → length dst ≡ length src → copy dst src ≡ src
copy_full [] [] h = refl
copy_full (d ∷ dst) [] h = absurd (omega arith)
copy_full [] (s ∷ src) h = absurd (omega arith)
copy_full (d ∷ dst) (s ∷ src) h = ap (◌∷◌ s) (copy_full dst src (omega arith))

-- The outcome of a Go function that returns an error or panics.
pub data Outcome {ℓ κ} (E : Type ℓ) (A : Type κ) : Type (ℓ ⊔ κ) where
  ok : A → Outcome E A
  err : E → Outcome E A
  panics : Outcome E A

infixl 5 ◌>>=◌
abbrev pub ◌>>=◌ {ℓ κ μ} :
    {E : Type ℓ} {A : Type κ} {B : Type μ} → Outcome E A → (A → Outcome E B) → Outcome E B
ok a >>= f = f a
err e >>= f = err e
panics >>= f = panics

-- An index or a slice out of range panics.
abbrev pub or_panic {ℓ κ} : {E : Type ℓ} {A : Type κ} → Option A → Outcome E A
or_panic none = panics
or_panic (some a) = ok a
