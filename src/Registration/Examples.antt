-- ===== src/Registration/Examples.antt =====
-- A registration with a hash that is easy to evaluate, and a server that asks too often.
use whisper2peer.Base.{
  ℕ, zero, suc, ◌+◌, ◌*◌, ◌<◌, ◌≡◌, refl, false, some, List, [], ◌∷◌, ◌++◌, Bytes, be, grown, ok,
  arith, length, ltb, drop, if◌then◌else◌,
}
use whisper2peer.Registration.{
  EnrollRegister, marshal_register, first24bits0, enroll_register_type, zero_at, and_also,
}
use whisper2peer.Registration.Layout.{register_bytes}
use whisper2peer.Registration.Search.{search_block, message_rest}
use whisper2peer.Goroutines.{Event, receive, worker, result_of, run, on_event}
use whisper2peer.Registration.Parallel.{workers, parallel_proof_of_work2, act}
use whisper2peer.Registration.Solo.{solo}
use whisper2peer.Registration.Race.{Passed, parallel_proof_of_work2-Passed}
use whisper2peer.Registration.Found.{Hit, repeated, round}
use whisper2peer.Registration.Client.{
  Env, Fields, Ini, Round, End, register_of, fill_from_ini, client,
}
use whisper2peer.Registration.Conversation.{init_round, success_round, client-registered}

-- The digest is zero from 40 bytes on.
abbrev long_enough : Bytes → Bytes
long_enough bs = if ltb (length bs) 40 then 1 ∷ [] else 0 ∷ 0 ∷ 0 ∷ []

abbrev fields : Fields
fields = record {
  team_number = 7;
  project_choice = 3;
  email = 97 ∷ [];
  firstname = 98 ∷ [];
  lastname = 99 ∷ [];
  gitlab_handle = 100 ∷ [];
}

abbrev env : Env
env = record {
  sum256 = long_enough;
  ini = Ini.mapped fields;
  registered = some false;
  schedule = solo 5 1;
}

abbrev reg : EnrollRegister
reg = register_of env 1000

hit : Hit long_enough first24bits0 (be 8 1000 ++ drop 8 (register_bytes reg)) 0 1
unfolding round repeated first24bits0 be register_of fill_from_ini zero_at and_also
hit = record { misses = first; hits = refl }
  where
    first :
        (j : ℕ)
        → j < 1
        → round long_enough first24bits0 (be 8 1000 ++ drop 8 (register_bytes reg)) (0 + j)
          ≡ ok false
    first zero h = refl
    first (suc j) h = absurd (omega arith)

reg-typed : reg.header.type ≡ enroll_register_type
unfolding register_of fill_from_ini
reg-typed = refl

hit_again : Hit long_enough first24bits0 (be 8 reg.challenge ++ drop 8 (register_bytes reg)) 0 1
unfolding register_of
hit_again = hit

-- Two goroutines, of which one has set the shared nonce when the other one has found a digest.
abbrev race : List Event
race =
    receive
    ∷ worker 5
    ∷ worker 5
    ∷ worker 5
    ∷ worker 5
    ∷ worker 5
    ∷ worker 9
    ∷ worker 9
    ∷ worker 5
    ∷ []

raced : parallel_proof_of_work2 long_enough first24bits0 reg race ≡ ok (some 9)
unfolding parallel_proof_of_work2 result_of run on_event act search_block message_rest
    marshal_register grown be register_of fill_from_ini first24bits0 zero_at and_also
raced = refl

parallel_proof_of_work2-Passed_example : Passed long_enough first24bits0 reg
parallel_proof_of_work2-Passed_example =
    parallel_proof_of_work2-Passed long_enough first24bits0 reg race 9 raced

client-registered_example :
    client env 0 (init_round 1000 ∷ success_round 0 7 ∷ [])
    ≡ (register_bytes (record (register_of env 1000) { nonce = 5 + workers * 1 }) ∷ [], End.closed)
client-registered_example =
    client-registered env fields 1000 5 1 0 7 refl refl refl (omega arith) (omega arith) hit
      (omega arith)

-- A server that asks three times.
abbrev insistent : List Round
insistent = init_round 1 ∷ init_round 2 ∷ init_round 3 ∷ []
