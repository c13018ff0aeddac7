-- ===== src/Cookie/RoundTrip.antt =====
-- Cookies of cookie.go are read back, and a proof of work of pow.go is checked as it was found.
use whisper2peer.Base.{
  ℕ, zero, suc, ◌+◌, ◌^◌, ◌≡◌, ◌<◌, ◌≤◌, refl, ap, sym, ◌∙◌, Bool, [], ◌∷◌, ◌++◌, append-nil,
  append_assoc, Bytes, be, copy, copy_at, grown, length-grown, length-be, from_be-be, ok, length,
  drop, length-append, length-drop, take-length_append, drop-length_append, arith,
}
use whisper2peer.Cookie.{
  Aead, ConnCookie, PowMarsh, Result, nonce_size, marshal, unmarshal, create_cookie, read_cookie,
  marshal_pow, check_proof_of_work, probe, slice, slice_from,
}

-- A write over the front of a buffer, and behind it.
copy-append :
    (src dst : Bytes) → length src ≤ length dst → copy dst src ≡ src ++ drop (length src) dst
copy-append [] dst h = refl
copy-append (s ∷ src) [] h = absurd (omega arith)
copy-append (s ∷ src) (d ∷ dst) h = ap (◌∷◌ s) (copy-append src dst (omega arith))

copy_at-append :
    (front back src : Bytes) → copy_at (front ++ back) (length front) src ≡ front ++ copy back src
copy_at-append [] back src = refl
copy_at-append (f ∷ front) back src = ap (◌∷◌ f) (copy_at-append front back src)

-- The next write behind what has been written.
fill :
    (front back src : Bytes) (i : ℕ)
    → i ≡ length front
    → length src ≤ length back
    → copy_at (front ++ back) i src ≡ (front ++ src) ++ drop (length src) back
fill front back src i e h =
    ap (λ j. copy_at (front ++ back) j src) e
    ∙ copy_at-append front back src
    ∙ ap (◌++◌ front) (copy-append src back h)
    ∙ sym (append_assoc front src (drop (length src) back))

drop_all : (n : ℕ) (xs : Bytes) → length xs ≤ n → drop n xs ≡ []
drop_all zero [] h = refl
drop_all zero (x ∷ xs) h = absurd (omega arith)
drop_all (suc n) [] h = refl
drop_all (suc n) (x ∷ xs) h = drop_all n xs (omega arith)

fill_last :
    (front back src : Bytes) (i : ℕ)
    → i ≡ length front
    → length src ≡ length back
    → copy_at (front ++ back) i src ≡ front ++ src
fill_last front back src i e h =
    fill front back src i e (omega arith)
    ∙ ap (◌++◌ (front ++ src)) (drop_all (length src) back (omega arith))
    ∙ append-nil (front ++ src)

marshal-append : (x : ConnCookie) → marshal x ≡ (be 8 x.timestamp ++ x.chall) ++ x.dest
unfolding marshal
marshal-append x =
    let stamp = be 8 x.timestamp in
    let buf = grown [] (length x.chall + 8 + length x.dest) in
    let len = length-grown [] (length x.chall + 8 + length x.dest) in
    let len' = length-be 8 x.timestamp in
    let behind = drop (length stamp) buf in
    let behind' = drop (length x.chall) behind in
    let size = length-drop (length stamp) buf in
    let size' = length-drop (length x.chall) behind in
    ap (λ b. copy_at (copy_at b 8 x.chall) (8 + length x.chall) x.dest)
      (fill [] buf stamp 0 refl (omega arith))
    ∙ ap (λ b. copy_at b (8 + length x.chall) x.dest)
        (fill stamp behind x.chall 8 (sym len') (omega arith))
    ∙ fill_last (stamp ++ x.chall) behind' x.dest (8 + length x.chall)
        (omega (arith, length-append stamp x.chall)) (omega arith)

-- The bytes of a proof of work: the cookie, and the nonce in eight bytes.
pub marshal_pow-append :
    (x : PowMarsh) (buf : Bytes) → marshal_pow x buf ≡ x.cookie ++ be 8 x.pow_nonce
unfolding marshal_pow
marshal_pow-append x buf =
    let g = grown buf (8 + length x.cookie) in
    let len = length-grown buf (8 + length x.cookie) in
    let len' = length-be 8 x.pow_nonce in
    let size = length-drop (length x.cookie) g in
    ap (λ b. copy_at b (length x.cookie) (be 8 x.pow_nonce))
      (fill [] g x.cookie 0 refl (omega arith))
    ∙ fill_last x.cookie (drop (length x.cookie) g) (be 8 x.pow_nonce) (length x.cookie) refl
        (omega arith)

-- The front of a slice, and the rest.
slice_front : (front rest : Bytes) (n : ℕ) → n ≡ length front → slice (front ++ rest) 0 n ≡ ok front
slice_front front rest n e =
    rw e (ground (arith, length-append front rest, take-length_append front rest))

slice_middle :
    (front middle rest : Bytes) (m n : ℕ)
    → m ≡ length front
    → n ≡ length (front ++ middle)
    → slice ((front ++ middle) ++ rest) m n ≡ ok middle
slice_middle front middle rest m n e e' =
    rw (e, e')
      (ground (
        arith,
        length-append (front ++ middle) rest,
        take-length_append (front ++ middle) rest,
        drop-length_append front middle,
      ))

slice_from-append :
    (front rest : Bytes) (n : ℕ) → n ≡ length front → slice_from (front ++ rest) n ≡ ok rest
slice_from-append front rest n e =
    rw e (ground (arith, length-append front rest, drop-length_append front rest))

unmarshal-marshal :
    (x : ConnCookie)
    → length x.chall ≡ nonce_size
    → x.timestamp < 2 ^ 64
    → unmarshal (marshal x) ≡ ok x
unfolding unmarshal
unmarshal-marshal x sized h =
    let stamp = be 8 x.timestamp in
    let len = length-be 8 x.timestamp in
    let len' = length-append stamp x.chall in
    ap unmarshal (marshal-append x)
    ∙ rw (
      append_assoc stamp x.chall x.dest,
      slice_front stamp (x.chall ++ x.dest) 8 (sym len),
      ← append_assoc stamp x.chall x.dest,
      slice_middle stamp x.chall x.dest 8 (8 + nonce_size) (sym len) (omega arith),
      slice_from-append (stamp ++ x.chall) x.dest (8 + nonce_size) (omega arith),
      from_be-be 8 x.timestamp h,
    )

-- A cookie with a nonce of 24 bytes and a 64-bit time, made under a key, is read back under the
-- same key, with the time and the destination that were put in.
pub read_cookie-create_cookie :
    (aead : Aead) (x : ConnCookie)
    → length x.chall ≡ nonce_size
    → x.timestamp < 2 ^ 64
    → read_cookie aead (create_cookie aead x) ≡ ok x
unfolding read_cookie create_cookie
read_cookie-create_cookie aead x sized h =
    let sealed = aead.seal x.chall (marshal x) in
    rw
      (
        slice_front x.chall sealed nonce_size (sym sized),
        slice_from-append x.chall sealed nonce_size (sym sized),
        aead.open-seal x.chall (marshal x) sized,
      )
      (unmarshal-marshal x sized h)

-- A worker finds a nonce exactly where the check of the proof of work with that nonce succeeds,
-- for any hash and predicate, also where the predicate panics.
pub probe-check_proof_of_work :
    (sum256 : Bytes → Bytes) (pred : Bytes → Result Bool) (e : PowMarsh) (nonce : ℕ)
    → probe sum256 pred e nonce ≡ check_proof_of_work sum256 pred (record e { pow_nonce = nonce })
unfolding probe check_proof_of_work
probe-check_proof_of_work sum256 pred e nonce = rw (
  marshal_pow-append e [],
  marshal_pow-append (record e { pow_nonce = nonce }) [],
  take-length_append e.cookie (be 8 e.pow_nonce),
)
