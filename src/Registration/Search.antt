-- ===== src/Registration/Search.antt =====
-- What the searches for a proof of work in p2p_reg/main.go hash, and the search of one thread.
--
-- A hash object is what has been written to it, and no search resets it.
use whisper2peer.Base.{
  ℕ, zero, suc, ◌+◌, ◌%◌, ◌^◌, Bool, true, false, Option, some, none, [], ◌++◌, Bytes, be, ok, err,
  panics, ◌>>=◌, length, leb, drop, if◌then◌else◌,
}
use whisper2peer.Registration.{Result, EnrollRegister, marshal_register}

-- What `Marshal` gives with the error ignored, without its first 8 bytes.
unfoldable pub message_rest : EnrollRegister → Result Bytes
message_rest e = elim (marshal_register e []) [
  | panics ↦ panics
  | err x ↦ panics
  | ok m ↦ if leb 8 (length m) then ok (drop 8 m) else panics
]

-- What each round of a search writes to the hash: the challenge and the rest of the message, which
-- has been marshalled before the search.
unfoldable pub search_block : EnrollRegister → Result Bytes
unfolding message_rest
search_block e = do m ← message_rest e; ok (be 8 e.challenge ++ m)

module _ (sum256 : Bytes → Bytes) (pred : Bytes → Result Bool) where
  -- The loop of `sequentialProofOfWork`, for the block, what the hash holds and `e.Nonce`.
  unfoldable pub sequential_loop : ℕ → Bytes → Bytes → ℕ → Result (Option ℕ)
  sequential_loop zero block h nonce = ok none
  sequential_loop (suc fuel) block h nonce = elim (pred (sum256 (h ++ block))) [
    | panics ↦ panics
    | err x ↦ err x
    | ok true ↦ ok (some nonce)
    | ok false ↦ sequential_loop fuel block (h ++ block) ((nonce + 1) % 2 ^ 64)
  ]

  -- `sequentialProofOfWork`.
  unfoldable pub sequential_proof_of_work : ℕ → EnrollRegister → Result (Option ℕ)
  sequential_proof_of_work fuel e = do block ← search_block e; sequential_loop fuel block [] 0
