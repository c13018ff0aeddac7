-- ===== src/Connections/Maps.antt =====
-- A Go map keyed by connection ids, as an association list with one entry for a key.
use whisper2peer.Base.{◌≡◌, Option, none, some, List, [], ◌∷◌, ite, arith, Bytes, bytes_discrete}

abbrev pub GoMap : Type 0 → Type 0
GoMap V = List (Bytes × V)

module _ {V : Type 0} where
  -- `m[k]` with its second result: `none` where the key is missing.
  unfoldable pub get : Bytes → GoMap V → Option V
  get k [] = none
  get k ((j, v) ∷ m) = ite (bytes_discrete j k) (some v) (get k m)

  -- `delete(m, k)`.
  unfoldable pub delete : Bytes → GoMap V → GoMap V
  delete k [] = []
  delete k ((j, v) ∷ m) = ite (bytes_discrete j k) (delete k m) ((j, v) ∷ delete k m)

  -- `m[k] = v`.
  unfoldable pub put : Bytes → V → GoMap V → GoMap V
  unfolding delete
  put k v m = (k, v) ∷ delete k m

  pub get-delete :
      (k j : Bytes) (m : GoMap V) → get j (delete k m) ≡ ite (bytes_discrete k j) none (get j m)
  unfolding get delete
  get-delete k j [] = ground arith
  get-delete k j ((i, v) ∷ m) = ground (arith, get-delete k j m)

  pub get-put :
      (k j : Bytes) (v : V) (m : GoMap V)
      → get j (put k v m) ≡ ite (bytes_discrete k j) (some v) (get j m)
  unfolding get put
  get-put k j v m = ground (arith, get-delete k j m)
