-- ===== src/Args.antt =====
-- gossip/internal/args/args.go, and in gossip/main/main.go the arguments of a user, `Merge` and
-- `NewMain`.
--
-- An argument that may be missing is an `Option`; so is a slice, for `nil`. What the command line
-- holds is given, and so is what `ini.Load` with `MapTo` reads from a file, `none` for an error. Of
-- `NewMain` the arguments that it passes to `NewMainWithArgs` are kept.
pub mod Precedence
pub mod Examples
use Prim.Native.String.{String}
use whisper2peer.Base.{ℕ, Option, none, some, List, Outcome, ok, or_panic, ◌>>=◌}

pub record Args : Type 0 where
  pub degree : ℕ
  pub cache_size : ℕ
  pub gossip_timer : ℕ
  pub hz_addr : String
  pub vert_addr : String
  pub peer_addrs : Option (List String)

pub record UserArgs : Type 0 where
  pub degree : Option ℕ
  pub cache_size : Option ℕ
  pub gossip_timer : Option ℕ
  pub hz_addr : Option String
  pub vert_addr : Option String
  pub peer_addrs : Option (List String)
  pub config_file : Option String

abbrev pub new_from_defaults : Args
new_from_defaults = record {
  degree = 30;
  cache_size = 50;
  gossip_timer = 1;
  hz_addr = "127.0.0.1:6001";
  vert_addr = "127.0.0.1:7001";
  peer_addrs = none;
}

-- One `if` of `Merge`, with what its assignment does.
abbrev pub if_set : {A : Type 0} → Option A → (A → Args → Args) → Args → Args
if_set none assign args = args
if_set (some x) assign args = assign x args

-- `Merge`, its first `if` twice as in the source.
unfoldable pub merge : UserArgs → Args → Args
merge user args0 =
    let args1 = if_set user.degree (λ x a. record a { degree = x }) args0 in
    let args2 = if_set user.degree (λ x a. record a { degree = x }) args1 in
    let args3 = if_set user.cache_size (λ x a. record a { cache_size = x }) args2 in
    let args4 = if_set user.gossip_timer (λ x a. record a { gossip_timer = x }) args3 in
    let args5 = if_set user.hz_addr (λ x a. record a { hz_addr = x }) args4 in
    let args6 = if_set user.vert_addr (λ x a. record a { vert_addr = x }) args5 in
    if_set user.peer_addrs (λ x a. record a { peer_addrs = some x }) args6

-- The `if` on the file.
abbrev pub merge_file : (String → Option UserArgs) → Option String → Args → Outcome ⊥ Args
merge_file load none args = ok args
merge_file load (some path) args = do user ← or_panic (load path); ok (merge user args)

unfoldable pub new_main : (String → Option UserArgs) → UserArgs → Outcome ⊥ Args
new_main load user = do
  args ← merge_file load user.config_file new_from_defaults
  ok (merge user args)
