-- ===== src/Registration/Client.antt =====
-- `main` of p2p_reg/main.go: the conversation of the client with the server.
use whisper2peer.Base.{
  ℕ, suc, ◌+◌, ◌-◌, ◌*◌, ◌%◌, Bool, true, false, Option, some, none, List, [], ◌∷◌, ◌++◌, Bytes, ok,
  err, panics, ◌>>=◌, length, ltb, ◌==◌, if◌then◌else◌,
}
use whisper2peer.Registration.{
  Result, MessageHeader, unmarshal_header, header_size, unmarshal_init, EnrollRegister,
  zero_register, register_size, marshal_register, unmarshal_success, unmarshal_failure,
  enroll_init_type, enroll_register_type, enroll_success_type, enroll_failure_type, first24bits0,
}
use whisper2peer.Goroutines.{Event}
use whisper2peer.Registration.Parallel.{parallel_proof_of_work2}

-- The keys of the section "registration" in the configuration.
pub record Fields : Type 0 where
  pub team_number : ℕ
  pub project_choice : ℕ
  pub email : Bytes
  pub firstname : Bytes
  pub lastname : Bytes
  pub gitlab_handle : Bytes

-- What the ini library makes of the file: it cannot be loaded, `MapTo` fails after it has set some
-- fields, or it sets them all.
pub data Ini : Type 0 where
  unloadable : Ini
  unmapped mapped : Fields → Ini

abbrev pub with_fields : Fields → EnrollRegister → EnrollRegister
with_fields f e = record e {
  team_number = f.team_number;
  project_choice = f.project_choice;
  email = f.email;
  firstname = f.firstname;
  lastname = f.lastname;
  gitlab_handle = f.gitlab_handle;
}

-- `FillFromIni`, with whether it gives no error.
unfoldable pub fill_from_ini : Ini → EnrollRegister → EnrollRegister × Bool
fill_from_ini unloadable e = (e, false)
fill_from_ini (unmapped f) e = (with_fields f e, false)
fill_from_ini (mapped f) e = (
  record (with_fields f e) {
    header = record { size = e.header.size; type = enroll_register_type };
  },
  true,
)

-- What the client finds around it: the hash, the file, the key "registered" of the file as it is
-- loaded again (`none` where that fails), and the schedule of a search.
pub record Env : Type 0 where
  pub sum256 : Bytes → Bytes
  pub ini : Ini
  pub registered : Option Bool
  pub schedule : List Event

-- The case of the `switch` on `USE_PARALLEL` that its value, which nothing changes, selects; `none`
-- where the search has not ended.
abbrev pub find_nonce : Env → EnrollRegister → Result (Option ℕ)
find_nonce env e = parallel_proof_of_work2 env.sum256 first24bits0 e env.schedule

-- What the two calls of `Read` for a packet give, `none` for an error, and whether `Write` succeeds
-- in this round.
pub record Round : Type 0 where
  pub head : Option Bytes
  pub body : Option Bytes
  pub writable : Bool

pub data Step : Type 0 where
  wrote unsent : Bytes → Step
  ended crashed searching : Step

-- `Read` into a buffer of `n` bytes, where fewer bytes and errors end in a panic.
abbrev pub read_exactly : ℕ → Option Bytes → Result Bytes
read_exactly n none = panics
read_exactly n (some bs) = if length bs == n then ok bs else panics

-- The header of a packet, and the buffer with the whole of it. The slice behind the header is out
-- of range where the size is below 4.
unfoldable pub read_packet : Round → Result (MessageHeader × Bytes)
read_packet r = do
  head ← read_exactly header_size r.head
  (header, _) ← unmarshal_header head
  body ←
      if ltb header.size header_size
      then panics
      else read_exactly (header.size - header_size) r.body
  ok (header, head ++ body)

-- The register message for a challenge, before the search.
unfoldable pub register_of : Env → ℕ → EnrollRegister
register_of env challenge =
    let reg = (fill_from_ini env.ini zero_register).0 in
    record reg {
      header = record {
        size = (register_size reg % 65536 + 2 * 3) % 65536;
        type = reg.header.type;
      };
      challenge = challenge;
    }

-- From `Marshal` to `Write`.
unfoldable pub send_register : Env → ℕ → EnrollRegister → Bool → Step
send_register env sent_packets reg writable = elim (marshal_register reg []) [
  | panics ↦ crashed
  | err e ↦ crashed
  | ok buffer ↦ if ltb 1 sent_packets then crashed else elim env.registered [
    | none ↦ crashed
    | some true ↦ ended
    | some false ↦ if writable then wrote buffer else unsent buffer
  ]
]

unfoldable pub on_init : Env → ℕ → MessageHeader → Bytes → Bool → Step
on_init env sent_packets header buffer writable =
    elim (unmarshal_init (record { header = header; challenge = 0 }) buffer) [
      | panics ↦ crashed
      | err e ↦ crashed
      | ok (init, _) ↦
          let reg = register_of env init.challenge in
          elim (find_nonce env reg) [
            | panics ↦ crashed
            | err e ↦ crashed
            | ok none ↦ searching
            | ok (some n) ↦ send_register env sent_packets (record reg { nonce = n }) writable
          ]
    ]

-- The last packet, once it is parsed.
abbrev pub end_of : {A : Type 0} → Result A → Step
end_of (ok _) = ended
end_of (err e) = crashed
end_of panics = crashed

-- The `switch` on the type of a packet.
unfoldable pub on_packet : Env → ℕ → MessageHeader → Bytes → Bool → Step
on_packet env sent_packets header buffer writable =
    if header.type == enroll_init_type
    then on_init env sent_packets header buffer writable
    else if header.type == enroll_success_type
    then end_of
        (unmarshal_success (record { header = header; reserved = 0; team_number = 0 }) buffer)
    else if header.type == enroll_failure_type
    then end_of (
        unmarshal_failure
          (record { header = header; reserved = 0; error_number = 0; description = [] }) buffer)
    else crashed

unfoldable pub on_round : Env → ℕ → Round → Step
on_round env sent_packets r = elim (read_packet r) [
  | panics ↦ crashed
  | err e ↦ crashed
  | ok (header, buffer) ↦ on_packet env sent_packets header buffer r.writable
]

-- How the client ends, `waiting` where the list of rounds does.
pub data End : Type 0 where
  waiting closed failed endless : End

-- The loop: what is written, and how it ends.
unfoldable pub client : Env → ℕ → List Round → List Bytes × End
client env sent_packets [] = ([], waiting)
client env sent_packets (r ∷ rs) = elim (on_round env sent_packets r) [
  | wrote b ↦ let (bs, end) = client env (suc sent_packets) rs in (b ∷ bs, end)
  | unsent b ↦ (b ∷ [], failed)
  | ended ↦ ([], closed)
  | crashed ↦ ([], failed)
  | searching ↦ ([], endless)
]
