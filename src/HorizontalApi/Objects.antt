-- ===== src/HorizontalApi/Objects.antt =====
-- A library of structs that can be evaluated.
use whisper2peer.Base.{
  ℕ, ◌+◌, ◌≡◌, inl, inr, refl, ap, sym, ◌∙◌, Bool, true, false, some, List, [], ◌∷◌, Bytes, ◌==◌,
  ==_refl, leb, ◌||◌, ◌&&◌, not, if◌then◌else◌, arith,
}
use whisper2peer.HorizontalApi.Capnp.{Capnp}

-- A data section is the list of its writes, the last one first.
mutual
  pub data Object : Type 0 where
    object : ℕ → List (ℕ × ℕ × ℕ) → (ℕ → Ref) → Object

  pub data Ref : Type 0 where
    null : Ref
    to_object : Object → Ref
    to_bytes : Bytes → Ref

unfoldable pub read_data : List (ℕ × ℕ × ℕ) → ℕ → ℕ → ℕ
read_data [] o w = 0
read_data ((p, v, x) ∷ xs) o w =
    if leb (p + v) o || leb (o + w) p then read_data xs o w else if p == o && v == w then x else 0

unfoldable pub put : (ℕ → Ref) → ℕ → Ref → ℕ → Ref
put refs i r j = if i == j then r else refs j

abbrev pub empty : ℕ → Object
empty d = object d [] (λ _. null)

abbrev pub is_null : Ref → Bool
is_null null = true
is_null (to_object o) = false
is_null (to_bytes b) = false

abbrev pub size_of : Object → ℕ
size_of (object d ws refs) = d

abbrev pub writes_of : Object → List (ℕ × ℕ × ℕ)
writes_of (object d ws refs) = ws

abbrev pub refs_of : Object → ℕ → Ref
refs_of (object d ws refs) = refs

abbrev pub object_at : Ref → Object
object_at null = empty 0
object_at (to_object o) = o
object_at (to_bytes b) = empty 0

abbrev pub bytes_at : Ref → Bytes
bytes_at null = []
bytes_at (to_object o) = []
bytes_at (to_bytes b) = b

unfoldable pub with_ref : Object → ℕ → Ref → Object
unfolding put
with_ref o i r = object (size_of o) (writes_of o) (put (refs_of o) i r)

pub some_injective : {a b : Object} → some a ≡ some b → a ≡ b
some_injective e = ground arith

pub put_same : (refs : ℕ → Ref) (i : ℕ) (r : Ref) → put refs i r i ≡ r
unfolding put
put_same refs i r = ground (arith, ==_refl i)

unfoldable pub objects : Capnp
unfolding read_data with_ref put
objects = record {
  Struct = Object;
  Ptr = Ref;
  data_size = size_of;
  new_struct = λ d p. some (empty d);
  new_root_struct = λ d p. some (empty d);
  read = λ s. read_data (writes_of s);
  write = λ s o w v. object (size_of s) ((o, w, v) ∷ writes_of s) (refs_of s);
  has_ptr = λ s i. not (is_null (refs_of s i));
  ptr = λ s i. some (refs_of s i);
  set_ptr = λ s i p. some (with_ref s i p);
  set_data = λ s i b. some (with_ref s i (to_bytes b));
  to_ptr = to_object;
  ptr_struct = object_at;
  ptr_data = bytes_at;
  data_size-new_struct = λ d p s e. ap size_of (sym (some_injective e));
  data_size-new_root_struct = λ d p s e. ap size_of (sym (some_injective e));
  data_size-write = λ s o w v. refl;
  read-write = λ s o w v p h k. ground (arith, ==_refl o, ==_refl w);
  read-write_other = λ s o w v o' w' h. elim h [ inl a ↦ ground arith | inr b ↦ ground arith ];
  ptr-write = λ s o w v i. refl;
  ptr-set_ptr = λ s s' i p e.
      ap (λ t. some (refs_of t i)) (sym (some_injective e)) ∙ ap some (put_same (refs_of s) i p);
  has_ptr-set_ptr = λ s s' i t e.
      ap (λ u. not (is_null (refs_of u i))) (sym (some_injective e))
      ∙ ap (λ r. not (is_null r)) (put_same (refs_of s) i (to_object t));
  read-set_ptr = λ s s' i p o w e. ap (λ t. read_data (writes_of t) o w) (sym (some_injective e));
  ptr_struct-to_ptr = λ s. refl;
  ptr-set_data = λ s s' i b e.
      ap (λ t. some (bytes_at (refs_of t i))) (sym (some_injective e))
      ∙ ap (λ r. some (bytes_at r)) (put_same (refs_of s) i (to_bytes b));
  read-set_data = λ s s' i b o w e. ap (λ t. read_data (writes_of t) o w) (sym (some_injective e));
}
