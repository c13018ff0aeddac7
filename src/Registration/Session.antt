-- ===== src/Registration/Session.antt =====
-- What the client of p2p_reg/main.go sends in a conversation.
use whisper2peer.Base.{
  ℕ, suc, ◌+◌, ◌≡◌, ◌≤◌, refl, Bool, true, false, Option, some, none, List, [], ◌∷◌, Bytes, ok,
  arith, length, ltb, ◌==◌, ℕ_discrete, err, panics, if◌then◌else◌,
}
use whisper2peer.Registration
use whisper2peer.Registration.{
  MessageHeader, EnrollRegister, enroll_register_type, enroll_init_type, enroll_success_type,
  marshal_register, unmarshal_header, unmarshal_init, unmarshal_success, unmarshal_failure,
  enroll_failure_type, first24bits0,
}
use whisper2peer.Registration.Layout.{
  register_bytes, marshal_register-bytes, marshal_register-typed,
}
use whisper2peer.Registration.Client.{
  Env, Round, Step, End, read_packet, find_nonce, end_of, register_of, send_register, on_init,
  on_packet, on_round, client,
}

-- Bytes that are a register packet in full.
pub record IsRegister (b : Bytes) : Type 0 where
  pub packet : EnrollRegister
  pub typed : packet.header.type ≡ enroll_register_type
  pub filled : b ≡ register_bytes packet

pub data AllRegister : List Bytes → Type 0 where
  none_written : AllRegister []
  one_more : (b : Bytes) (bs : List Bytes) → IsRegister b → AllRegister bs → AllRegister (b ∷ bs)

-- A step that writes has had its turn, and writes a register packet.
data Allowed (sent_packets : ℕ) : Step → Type 0 where
  may_write : (b : Bytes) → sent_packets ≤ 1 → IsRegister b → Allowed sent_packets (Step.wrote b)
  may_fail : (b : Bytes) → sent_packets ≤ 1 → IsRegister b → Allowed sent_packets (Step.unsent b)
  may_end : Allowed sent_packets Step.ended
  may_crash : Allowed sent_packets Step.crashed
  may_search : Allowed sent_packets Step.searching

-- What becomes of a packet that is ready, for the outcome of each test.
written-Allowed :
    (sent_packets : ℕ) (b : Bytes) (late : Bool) (registered : Option Bool) (writable : Bool)
    → ltb 1 sent_packets ≡ late
    → IsRegister b
    → Allowed sent_packets (
        if late then Step.crashed else elim registered [
          | none ↦ Step.crashed
          | some true ↦ Step.ended
          | some false ↦ if writable then Step.wrote b else Step.unsent b
        ])
written-Allowed sent_packets b true registered writable e r = Allowed.may_crash
written-Allowed sent_packets b false none writable e r = Allowed.may_crash
written-Allowed sent_packets b false (some true) writable e r = Allowed.may_end
written-Allowed sent_packets b false (some false) true e r = Allowed.may_write b (ground arith) r
written-Allowed sent_packets b false (some false) false e r = Allowed.may_fail b (ground arith) r

send_register-Allowed :
    (env : Env) (sent_packets : ℕ) (reg : EnrollRegister) (writable : Bool)
    → Allowed sent_packets (send_register env sent_packets reg writable)
unfolding send_register
send_register-Allowed env sent_packets reg writable =
    elim (ℕ_discrete reg.header.type enroll_register_type) [
      | yes typed ↦
          rw (marshal_register-bytes reg typed, send_register)
            (written-Allowed sent_packets (register_bytes reg) (ltb 1 sent_packets) env.registered
              writable refl (record { packet = reg; typed = typed; filled = refl }))
      | no other ↦ rw (marshal_register-typed reg other, send_register) Allowed.may_crash
    ]

-- An outcome that ends in a panic where it is not `ok`.
handled-Allowed :
    {A : Type 0} {sent_packets : ℕ} (x : Registration.Result A) (f : A → Step)
    → ((a : A) → Allowed sent_packets (f a))
    → Allowed sent_packets (elim x [ panics ↦ Step.crashed | err e ↦ Step.crashed | ok a ↦ f a ])
handled-Allowed panics f h = Allowed.may_crash
handled-Allowed (err e) f h = Allowed.may_crash
handled-Allowed (ok a) f h = h a

if-Allowed :
    {sent_packets : ℕ} {s t : Step} (b : Bool)
    → Allowed sent_packets s
    → Allowed sent_packets t
    → Allowed sent_packets (if b then s else t)
if-Allowed true h k = h
if-Allowed false h k = k

-- A search that has ended is followed by the packet.
found-Allowed :
    (env : Env) (sent_packets : ℕ) (reg : EnrollRegister) (writable : Bool)
    (found : Registration.Result (Option ℕ))
    → Allowed sent_packets (elim found [
      | panics ↦ Step.crashed
      | err e ↦ Step.crashed
      | ok none ↦ Step.searching
      | ok (some n) ↦ send_register env sent_packets (record reg { nonce = n }) writable
    ])
found-Allowed env sent_packets reg writable panics = Allowed.may_crash
found-Allowed env sent_packets reg writable (err e) = Allowed.may_crash
found-Allowed env sent_packets reg writable (ok none) = Allowed.may_search
found-Allowed env sent_packets reg writable (ok (some n)) =
    send_register-Allowed env sent_packets (record reg { nonce = n }) writable

on_init-Allowed :
    (env : Env) (sent_packets : ℕ) (header : MessageHeader) (buffer : Bytes) (writable : Bool)
    → Allowed sent_packets (on_init env sent_packets header buffer writable)
unfolding on_init
on_init-Allowed env sent_packets header buffer writable =
    handled-Allowed (unmarshal_init (record { header = header; challenge = 0 }) buffer)
      (λ x. elim (find_nonce env (register_of env x.0.challenge)) [
        | panics ↦ Step.crashed
        | err e ↦ Step.crashed
        | ok none ↦ Step.searching
        | ok (some n) ↦
            send_register env sent_packets (record (register_of env x.0.challenge) { nonce = n })
              writable
      ])
      (λ x.
        found-Allowed env sent_packets (register_of env x.0.challenge) writable
          (find_nonce env (register_of env x.0.challenge)))

end_of-Allowed :
    {A : Type 0} {sent_packets : ℕ} (x : Registration.Result A) → Allowed sent_packets (end_of x)
end_of-Allowed panics = Allowed.may_crash
end_of-Allowed (err e) = Allowed.may_crash
end_of-Allowed (ok x) = Allowed.may_end

on_packet-Allowed :
    (env : Env) (sent_packets : ℕ) (header : MessageHeader) (buffer : Bytes) (writable : Bool)
    → Allowed sent_packets (on_packet env sent_packets header buffer writable)
unfolding on_packet
on_packet-Allowed env sent_packets header buffer writable =
    if-Allowed (header.type == enroll_init_type)
      (on_init-Allowed env sent_packets header buffer writable)
      (if-Allowed (header.type == enroll_success_type)
        (end_of-Allowed
          (unmarshal_success (record { header = header; reserved = 0; team_number = 0 }) buffer))
        (if-Allowed (header.type == enroll_failure_type)
          (end_of-Allowed (
            unmarshal_failure
              (record { header = header; reserved = 0; error_number = 0; description = [] })
              buffer))
          Allowed.may_crash))

on_round-Allowed :
    (env : Env) (sent_packets : ℕ) (r : Round) → Allowed sent_packets (on_round env sent_packets r)
unfolding on_round
on_round-Allowed env sent_packets r =
    handled-Allowed (read_packet r) (λ x. on_packet env sent_packets x.0 x.1 r.writable)
      (λ x. on_packet-Allowed env sent_packets x.0 x.1 r.writable)

-- What has been sent in all, after what a step allows.
Within : ℕ → List Bytes → Type 0
Within sent_packets bs = (sent_packets ≤ 2 → sent_packets + length bs ≤ 2) × AllRegister bs

client-nil : (sent_packets : ℕ) → Within sent_packets []
unfolding Within
client-nil sent_packets = (λ h. omega arith, AllRegister.none_written)

-- A step that is allowed, and what the rest of the loop writes after it.
step-Within :
    {sent_packets : ℕ} {s : Step} (bs : List Bytes) (end : End)
    → Allowed sent_packets s
    → Within (suc sent_packets) bs
    → Within sent_packets
        (elim s as (λ _. List Bytes × End) [
          | Step.wrote b ↦ (b ∷ bs, end)
          | Step.unsent b ↦ (b ∷ [], End.failed)
          | Step.ended ↦ ([], End.closed)
          | Step.crashed ↦ ([], End.failed)
          | Step.searching ↦ ([], End.endless)
        ]).0
unfolding Within
step-Within bs end (Allowed.may_write b early r) (few, all) =
    (λ h. let l = few (omega arith) in omega arith, AllRegister.one_more b bs r all)
step-Within bs end (Allowed.may_fail b early r) w =
    (λ h. omega arith, AllRegister.one_more b [] r AllRegister.none_written)
step-Within bs end Allowed.may_end w = (λ h. omega arith, AllRegister.none_written)
step-Within bs end Allowed.may_crash w = (λ h. omega arith, AllRegister.none_written)
step-Within bs end Allowed.may_search w = (λ h. omega arith, AllRegister.none_written)

client-Within :
    (env : Env) (sent_packets : ℕ) (rs : List Round)
    → Within sent_packets (client env sent_packets rs).0
unfolding client
client-Within env sent_packets [] = client-nil sent_packets
client-Within env sent_packets (r ∷ rs) =
    step-Within (client env (suc sent_packets) rs).0 (client env (suc sent_packets) rs).1
      (on_round-Allowed env sent_packets r) (client-Within env (suc sent_packets) rs)

-- Whatever the server sends, the client writes two packets at most, and each is a register packet
-- in full.
pub client-AllRegister :
    (env : Env) (rs : List Round)
    → (length (client env 0 rs).0 ≤ 2) × AllRegister (client env 0 rs).0
unfolding Within
client-AllRegister env rs =
    let (few, all) = client-Within env 0 rs in (let l = few (omega arith) in omega arith, all)
