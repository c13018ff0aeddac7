-- ===== src/HorizontalApi/Capnp.antt =====
-- What gossip/horizontalAPI/ uses of the capnp library (capnproto.org/go/capnp), as an interface.
use mathlib.Core.Option
use whisper2peer.Base.{ℕ, ◌+◌, ◌^◌, ◌≡◌, ◌≤◌, ◌<◌, ◌⊎◌, Bool, true, Option, some, Bytes}

-- A `capnp.Struct` with the segment that it stands in, as a value: a setter gives the new struct. A
-- field of `w` bytes at offset `o` of the data section is read and written as a number; `Uint8`,
-- `Uint16` and `Uint64` are `read` with 1, 2 and 8 bytes. `none` is an error of the library.
pub record Capnp : Type 1 where
  pub Struct : Type 0
  pub Ptr : Type 0
  pub data_size : Struct → ℕ
  -- `NewStruct` and `NewRootStruct` for a size of the data section and a number of pointers.
  pub new_struct : ℕ → ℕ → Option Struct
  pub new_root_struct : ℕ → ℕ → Option Struct
  pub read : Struct → ℕ → ℕ → ℕ
  pub write : Struct → ℕ → ℕ → ℕ → Struct
  pub has_ptr : Struct → ℕ → Bool
  pub ptr : Struct → ℕ → Option Ptr
  pub set_ptr : Struct → ℕ → Ptr → Option Struct
  pub set_data : Struct → ℕ → Bytes → Option Struct
  pub to_ptr : Struct → Ptr
  pub ptr_struct : Ptr → Struct
  pub ptr_data : Ptr → Bytes
  -- The sections have the sizes asked for.
  pub data_size-new_struct : (d p : ℕ) (s : Struct) → new_struct d p ≡ some s → data_size s ≡ d
  pub data_size-new_root_struct :
      (d p : ℕ) (s : Struct) → new_root_struct d p ≡ some s → data_size s ≡ d
  pub data_size-write : (s : Struct) (o w v : ℕ) → data_size (write s o w v) ≡ data_size s
  -- A field inside of the data section is read as it was written, and no other field changes.
  pub read-write :
      (s : Struct) (o w v : ℕ)
      → 0 < w
      → o + w ≤ data_size s
      → v < 256 ^ w
      → read (write s o w v) o w ≡ v
  pub read-write_other :
      (s : Struct) (o w v o' w' : ℕ)
      → (o + w ≤ o') ⊎ (o' + w' ≤ o)
      → read (write s o w v) o' w' ≡ read s o' w'
  pub ptr-write : (s : Struct) (o w v i : ℕ) → ptr (write s o w v) i ≡ ptr s i
  -- A pointer is read as it was set, to a struct it is not null, and the data section stays.
  pub ptr-set_ptr : (s s' : Struct) (i : ℕ) (p : Ptr) → set_ptr s i p ≡ some s' → ptr s' i ≡ some p
  pub has_ptr-set_ptr :
      (s s' : Struct) (i : ℕ) (t : Struct) → set_ptr s i (to_ptr t) ≡ some s' → has_ptr s' i ≡ true
  pub read-set_ptr :
      (s s' : Struct) (i : ℕ) (p : Ptr) (o w : ℕ)
      → set_ptr s i p ≡ some s'
      → read s' o w ≡ read s o w
  pub ptr_struct-to_ptr : (s : Struct) → ptr_struct (to_ptr s) ≡ s
  -- So are bytes.
  pub ptr-set_data :
      (s s' : Struct) (i : ℕ) (b : Bytes)
      → set_data s i b ≡ some s'
      → Option.map ptr_data (ptr s' i) ≡ some b
  pub read-set_data :
      (s s' : Struct) (i : ℕ) (b : Bytes) (o w : ℕ)
      → set_data s i b ≡ some s'
      → read s' o w ≡ read s o w
