-- ===== src/Registration/Conversation.antt =====
-- A registration by p2p_reg/main.go that succeeds.
use whisper2peer.Base.{
  ℕ, ◌+◌, ◌*◌, ◌^◌, ◌≡◌, ◌<◌, refl, ap, ◌∙◌, true, false, some, [], ◌∷◌, ◌++◌, be, be16, ok, drop,
  from_be-be,
}
use whisper2peer.Registration.{
  MessageHeader, EnrollRegister, enroll_register_type, enroll_init_type, enroll_success_type,
  unmarshal_header, unmarshal_init, first24bits0,
}
use whisper2peer.Registration.Layout.{register_bytes, marshal_register-bytes}
use whisper2peer.Registration.Parallel.{workers, parallel_proof_of_work2}
use whisper2peer.Registration.Solo.{solo, parallel_proof_of_work2-solo}
use whisper2peer.Registration.Found.{Hit}
use whisper2peer.Registration.Client.{
  Env, Fields, Ini, Round, Step, End, read_packet, register_of, fill_from_ini, send_register,
  on_init, on_packet, on_round, client,
}

-- The server's first packet, with a challenge.
abbrev pub init_round : ℕ → Round
init_round challenge = record {
  head = some (be16 12 ++ be16 enroll_init_type);
  body = some (be 8 challenge);
  writable = true;
}

-- The server's last packet.
abbrev pub success_round : ℕ → ℕ → Round
success_round reserved team_number = record {
  head = some (be16 8 ++ be16 enroll_success_type);
  body = some (be16 reserved ++ be16 team_number);
  writable = true;
}

abbrev init_header : MessageHeader
init_header = record { size = 12; type = enroll_init_type }

read_packet-init_round :
    (challenge : ℕ)
    → read_packet (init_round challenge)
      ≡ ok (init_header, be16 12 ++ be16 enroll_init_type ++ be 8 challenge)
unfolding read_packet unmarshal_header be
read_packet-init_round challenge = refl

unmarshal_init-be :
    (challenge : ℕ)
    → challenge < 256 ^ 8
    → unmarshal_init
        (record { header = init_header; challenge = 0 })
        (be16 12 ++ be16 enroll_init_type ++ be 8 challenge)
      ≡ ok (record { header = init_header; challenge = challenge }, 64)
unfolding be
unmarshal_init-be challenge h =
    ap (λ (c : ℕ). ok (record { header = init_header; challenge = c }, 64))
      (from_be-be 8 challenge h)

on_round-success_round :
    (env : Env) (sent_packets reserved team_number : ℕ)
    → on_round env sent_packets (success_round reserved team_number) ≡ Step.ended
unfolding on_round read_packet unmarshal_header on_packet
on_round-success_round env sent_packets reserved team_number = refl

send_register-first :
    (env : Env) (reg : EnrollRegister)
    → env.registered ≡ some false
    → reg.header.type ≡ enroll_register_type
    → send_register env 0 reg true ≡ Step.wrote (register_bytes reg)
unfolding send_register
send_register-first env reg unregistered typed =
    rw (marshal_register-bytes reg typed, send_register, unregistered) refl

register_of-typed :
    (env : Env) (f : Fields) (challenge : ℕ)
    → env.ini ≡ Ini.mapped f
    → (register_of env challenge).header.type ≡ enroll_register_type
unfolding fill_from_ini register_of
register_of-typed env f challenge mapped = rw mapped refl

on_round-init_round :
    (env : Env) (challenge n : ℕ)
    → challenge < 256 ^ 8
    → env.registered ≡ some false
    → (register_of env challenge).header.type ≡ enroll_register_type
    → parallel_proof_of_work2 env.sum256 first24bits0 (register_of env challenge) env.schedule
      ≡ ok (some n)
    → on_round env 0 (init_round challenge)
      ≡ Step.wrote (register_bytes (record (register_of env challenge) { nonce = n }))
unfolding on_round on_packet on_init
on_round-init_round env challenge n h unregistered typed found =
    rw
      (
        read_packet-init_round challenge,
        on_round,
        unmarshal_init-be challenge h,
        on_packet,
        on_init,
        found,
      )
      (send_register-first env (record (register_of env challenge) { nonce = n }) unregistered
        typed)

-- A client that can read its configuration and is not marked as registered there answers a
-- challenge by one register packet, with the fields of the configuration, the challenge and the
-- nonce of a search in which goroutine `id` is alone and round `k` is the first that passes, and
-- ends at the server's success, for a challenge and a nonce of 64 bits.
pub client-registered :
    (env : Env) (f : Fields) (challenge id k reserved team_number : ℕ)
    → env.ini ≡ Ini.mapped f
    → env.registered ≡ some false
    → env.schedule ≡ solo id k
    → challenge < 256 ^ 8
    → id < workers
    → Hit env.sum256 first24bits0
        (be 8 challenge ++ drop 8 (register_bytes (register_of env challenge)))
        0
        k
    → id + workers * k < 2 ^ 64
    → client env 0 (init_round challenge ∷ success_round reserved team_number ∷ []) ≡ (
      register_bytes (record (register_of env challenge) { nonce = id + workers * k }) ∷ [],
      End.closed,
    )
unfolding client register_of
client-registered env f challenge id k reserved team_number mapped unregistered alone h known hit
      range =
    let typed = register_of-typed env f challenge mapped in
    let found =
      ap (parallel_proof_of_work2 env.sum256 first24bits0 (register_of env challenge)) alone
      ∙ parallel_proof_of_work2-solo env.sum256 first24bits0 (register_of env challenge) id k known
          typed hit range in
    let first = on_round-init_round env challenge (id + workers * k) h unregistered typed found in
    rw (first, client, on_round-success_round env 1 reserved team_number) refl
