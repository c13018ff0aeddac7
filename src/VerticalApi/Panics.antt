-- ===== src/VerticalApi/Panics.antt =====
-- When the reader of verticalApi.go panics, and that it ends.
use whisper2peer.Base.{
  ℕ, zero, suc, ◌+◌, ◌*◌, ◌≡◌, ◌≢◌, ◌≤◌, ◌<◌, ◌↔◌, inl, inr, refl, ap, sym, ◌∙◌, ◌∷◌, Bytes, ok,
  err, panics, length, take, drop, length-take, length-drop, ltb, ltb→lt, ltb-false, le→ltb, lt→ltb,
  ◌==◌, arith, Bool-cases,
}
use whisper2peer.Messages.{Module, FromVert}
use whisper2peer.Vertical.{
  Result, MessageHeader, unmarshal_header, announce_type, notify_type, validation_type,
}
use whisper2peer.Vertical.Bounds.{announce-ne-panics, notify-ne-panics, validation-ne-panics}
use whisper2peer.VerticalApi.{
  Round, sends, skips, ends, crashes, sent, zero_announce, zero_notify, zero_validation, dispatch,
  read_body, read_round, running, handle_connection,
}

sent-ne-crashes :
    {P : Type 0} (f : P → FromVert) (r : Result (P × ℕ)) (rest : Bytes)
    → r ≢ panics
    → sent f r rest ≢ crashes
sent-ne-crashes f (ok (p, n)) rest h = λ e. cc
sent-ne-crashes f (err x) rest h = λ e. cc
sent-ne-crashes f panics rest h = absurd (h refl)

dispatch-ne-crashes :
    (m : Module) (header : MessageHeader) (buf rest : Bytes)
    → header.size ≡ length buf
    → dispatch m header buf rest ≢ crashes
unfolding dispatch
dispatch-ne-crashes m header buf rest h =
    let announce =
      sent-ne-crashes (λ e. FromVert.announce e.ga) _ rest
        (announce-ne-panics (record { ga = zero_announce; header = header }) buf h) in
    let notify =
      sent-ne-crashes (λ e. FromVert.register e.gn m) _ rest
        (notify-ne-panics (record { gn = zero_notify; header = header }) buf) in
    let validation =
      sent-ne-crashes (λ e. FromVert.validation e.gv) _ rest
        (validation-ne-panics (record { gv = zero_validation; header = header }) buf) in
    elim (Bool-cases (header.type == announce_type)) [
      | inl e ↦ rw (e, dispatch) announce
      | inr e ↦ elim (Bool-cases (header.type == notify_type)) [
        | inl e' ↦ rw (e, e', dispatch) notify
        | inr e' ↦ elim (Bool-cases (header.type == validation_type)) [
          | inl e2 ↦ rw (e, e', e2, dispatch) validation
          | inr e2 ↦ rw (e, e', e2, dispatch) (λ c. cc)
        ]
      ]
    ]

-- The four bytes of a header.
abbrev pub size_of : ℕ → ℕ → ℕ
size_of a b = a * 256 + b

read_body-ne-crashes :
    (m : Module) (header : MessageHeader) (input : Bytes)
    → 4 ≤ header.size
    → read_body m header input ≢ crashes
unfolding read_body
read_body-ne-crashes m header input h =
    rw (le→ltb header.size 4 h) (elim (Bool-cases (ltb (length input) header.size)) [
      | inl short ↦ rw short (λ e. cc)
      | inr whole ↦ rw whole (
          dispatch-ne-crashes m header (take header.size input) (drop header.size input) (
            omega
              (arith, length-take header.size input, ltb-false (length input) header.size whole)))
    ])

read_round-read_body :
    (m : Module) (a b c d : ℕ) (rest : Bytes)
    → read_round m (a ∷ b ∷ c ∷ d ∷ rest)
      ≡ read_body m (record { size = size_of a b; type = size_of c d }) (a ∷ b ∷ c ∷ d ∷ rest)
unfolding read_round unmarshal_header
read_round-read_body m a b c d rest =
    rw (le→ltb (length (a ∷ b ∷ c ∷ d ∷ rest)) 4 (omega arith), read_round)

read_round-short : (m : Module) (input : Bytes) → length input < 4 → read_round m input ≡ ends
unfolding read_round
read_round-short m input h = rw (lt→ltb (length input) 4 h, read_round)

ends≢crashes : ends ≢ crashes
ends≢crashes e = cc

-- A round panics exactly if it has the four bytes of a header whose size, the first two bytes, is
-- less than four.
pub read_round-crashes_iff :
    (m : Module) (input : Bytes)
    → (read_round m input ≡ crashes) ↔ (
        (a : ℕ) × (b : ℕ) × (rest : Bytes) × (input ≡ a ∷ b ∷ rest)
        × (2 ≤ length rest)
        × (size_of a b < 4))
unfolding read_body
read_round-crashes_iff m (a ∷ b ∷ c ∷ d ∷ rest) = (
  λ e. elim (Bool-cases (ltb (size_of a b) 4)) [
    | inl small ↦ (a, b, c ∷ d ∷ rest, refl, omega arith, ltb→lt (size_of a b) 4 small)
    | inr large ↦ absurd (
        read_body-ne-crashes m (record { size = size_of a b; type = size_of c d })
          (a ∷ b ∷ c ∷ d ∷ rest) (ltb-false (size_of a b) 4 large)
          (sym (read_round-read_body m a b c d rest) ∙ e))
  ],
  λ (x, y, tail, e, _, small).
      read_round-read_body m a b c d rest ∙ rw (lt→ltb (size_of a b) 4 (ground (arith, e))) refl,
)
read_round-crashes_iff m input = (
  λ e. absurd (ends≢crashes (sym (read_round-short m input (omega arith)) ∙ e)),
  λ (x, y, tail, e, long, _). absurd (omega (arith, ap length e)),
)

-- What a round leaves of the stream is shorter than the stream.
abbrev Shorter : ℕ → Round → Type 0
Shorter n (sends x rest) = length rest < n
Shorter n (skips rest) = length rest < n
Shorter n ends = Unit {0}
Shorter n crashes = Unit {0}

sent-Shorter :
    {P : Type 0} (f : P → FromVert) (r : Result (P × ℕ)) (rest : Bytes) (n : ℕ)
    → length rest < n
    → Shorter n (sent f r rest)
sent-Shorter f (ok (p, k)) rest n h = h
sent-Shorter f (err x) rest n h = h
sent-Shorter f panics rest n h = tt

dispatch-Shorter :
    (m : Module) (header : MessageHeader) (buf rest : Bytes) (n : ℕ)
    → length rest < n
    → Shorter n (dispatch m header buf rest)
unfolding dispatch
dispatch-Shorter m header buf rest n h = elim (Bool-cases (header.type == announce_type)) [
  | inl e ↦ rw (e, dispatch) (sent-Shorter _ _ rest n h)
  | inr e ↦ elim (Bool-cases (header.type == notify_type)) [
    | inl e' ↦ rw (e, e', dispatch) (sent-Shorter _ _ rest n h)
    | inr e' ↦ elim (Bool-cases (header.type == validation_type)) [
      | inl e2 ↦ rw (e, e', e2, dispatch) (sent-Shorter _ _ rest n h)
      | inr e2 ↦ rw (e, e', e2, dispatch) h
    ]
  ]
]

read_body-Shorter :
    (m : Module) (header : MessageHeader) (input : Bytes)
    → Shorter (length input) (read_body m header input)
unfolding read_body
read_body-Shorter m header input = elim (Bool-cases (ltb header.size 4)) [
  | inl small ↦ rw (small, read_body) tt
  | inr large ↦ elim (Bool-cases (ltb (length input) header.size)) [
    | inl short ↦ rw (large, short, read_body) tt
    | inr whole ↦
        rw (large, whole, read_body)
          (dispatch-Shorter m header (take header.size input) (drop header.size input)
            (length input)
            (omega (
              arith,
              length-drop header.size input,
              ltb-false header.size 4 large,
              ltb-false (length input) header.size whole,
            )))
  ]
]

read_round-Shorter : (m : Module) (input : Bytes) → Shorter (length input) (read_round m input)
read_round-Shorter m (a ∷ b ∷ c ∷ d ∷ rest) =
    rw read_round-read_body (read_body-Shorter m _ (a ∷ b ∷ c ∷ d ∷ rest))
read_round-Shorter m input = rw (read_round-short m input (omega arith)) tt

after_round :
    (fuel : ℕ) (m : Module) (n : ℕ) (r : Round)
    → Shorter n r
    → n < suc fuel
    → ((rest : Bytes) → length rest < fuel → (handle_connection fuel m rest).1 ≢ running)
    → (input : Bytes) → read_round m input ≡ r
    → (handle_connection (suc fuel) m input).1 ≢ running
unfolding handle_connection
after_round fuel m n (sends x rest) s h ih input e =
    rw (e, handle_connection) (ih rest (omega arith))
after_round fuel m n (skips rest) s h ih input e = rw (e, handle_connection) (ih rest (omega arith))
after_round fuel m n ends s h ih input e = rw (e, handle_connection) (λ c. cc)
after_round fuel m n crashes s h ih input e = rw (e, handle_connection) (λ c. cc)

-- The reader comes to an end on every stream: with fuel for one round more than the stream has
-- bytes, it does not run out.
pub handle_connection-ne-running :
    (m : Module) (fuel : ℕ) (input : Bytes)
    → length input < fuel
    → (handle_connection fuel m input).1 ≢ running
handle_connection-ne-running m zero input h = elim h [ ]
handle_connection-ne-running m (suc fuel) input h =
    after_round fuel m (length input) (read_round m input) (read_round-Shorter m input) h
      (λ rest. handle_connection-ne-running m fuel rest) input refl
