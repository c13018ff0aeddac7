-- ===== src/Args/Precedence.antt =====
-- Where each argument of the program comes from.
use Prim.Native.String.{String}
use whisper2peer.Base.{ℕ, Option, none, some, List, ◌≡◌, refl, ok, arith}
use whisper2peer.Args.{Args, UserArgs, new_from_defaults, if_set, merge, merge_file, new_main}

-- A file that sets nothing.
abbrev pub nothing_set : UserArgs
nothing_set = record {
  degree = none;
  cache_size = none;
  gossip_timer = none;
  hz_addr = none;
  vert_addr = none;
  peer_addrs = none;
  config_file = none;
}

-- What the file of the command line sets, where it can be read and where there is none.
abbrev pub from_file : (String → Option UserArgs) → Option String → Option UserArgs
from_file load none = some nothing_set
from_file load (some path) = load path

-- The first of the command line, the file and the default.
abbrev pub first : {A : Type 0} → Option A → Option A → A → A
first (some x) _ _ = x
first none (some x) _ = x
first none none x = x

-- The same where the default is `nil`.
abbrev pub first_set : {A : Type 0} → Option A → Option A → Option A
first_set (some x) _ = some x
first_set none y = y

-- `Merge` sets each field by itself.
abbrev pub over : {A : Type 0} → Option A → A → A
over none x = x
over (some y) _ = y

set_degree :
    (o : Option ℕ) (args : Args)
    → if_set o (λ x a. record a { degree = x }) args ≡ record args { degree = over o args.degree }
set_degree none args = refl
set_degree (some x) args = refl

set_cache_size :
    (o : Option ℕ) (args : Args)
    → if_set o (λ x a. record a { cache_size = x }) args
      ≡ record args { cache_size = over o args.cache_size }
set_cache_size none args = refl
set_cache_size (some x) args = refl

set_gossip_timer :
    (o : Option ℕ) (args : Args)
    → if_set o (λ x a. record a { gossip_timer = x }) args
      ≡ record args { gossip_timer = over o args.gossip_timer }
set_gossip_timer none args = refl
set_gossip_timer (some x) args = refl

set_hz_addr :
    (o : Option String) (args : Args)
    → if_set o (λ x a. record a { hz_addr = x }) args
      ≡ record args { hz_addr = over o args.hz_addr }
set_hz_addr none args = refl
set_hz_addr (some x) args = refl

set_vert_addr :
    (o : Option String) (args : Args)
    → if_set o (λ x a. record a { vert_addr = x }) args
      ≡ record args { vert_addr = over o args.vert_addr }
set_vert_addr none args = refl
set_vert_addr (some x) args = refl

set_peer_addrs :
    (o : Option (List String)) (args : Args)
    → if_set o (λ x a. record a { peer_addrs = some x }) args
      ≡ record args { peer_addrs = first_set o args.peer_addrs }
set_peer_addrs none args = refl
set_peer_addrs (some x) args = refl

over_again : {A : Type 0} (o : Option A) (x : A) → over o (over o x) ≡ over o x
over_again none x = refl
over_again (some y) x = refl

merge-fields :
    (user : UserArgs) (args : Args)
    → merge user args ≡ record {
      degree = over user.degree args.degree;
      cache_size = over user.cache_size args.cache_size;
      gossip_timer = over user.gossip_timer args.gossip_timer;
      hz_addr = over user.hz_addr args.hz_addr;
      vert_addr = over user.vert_addr args.vert_addr;
      peer_addrs = first_set user.peer_addrs args.peer_addrs;
    }
unfolding merge
merge-fields user args = simp (
  set_degree, set_cache_size, set_gossip_timer, set_hz_addr, set_vert_addr, set_peer_addrs,
  over_again,
)

first-over : {A : Type 0} (o p : Option A) (x : A) → over o (over p x) ≡ first o p x
first-over none none x = refl
first-over none (some y) x = refl
first-over (some y) p x = refl

first_set-nil : {A : Type 0} (o : Option A) → first_set o none ≡ o
first_set-nil none = refl
first_set-nil (some x) = refl

set_by_file :
    (load : String → Option UserArgs) (path : Option String) (file : UserArgs) (args : Args)
    → from_file load path ≡ some file
    → merge_file load path args ≡ ok (merge file args)
unfolding merge
set_by_file load none file args h = ground (arith, h)
set_by_file load (some path) file args h = ground (arith, h)

-- Where the command line names no file, or one that can be read, each argument of the program is
-- the one of the command line, where that is missing the one of the file, and where both are
-- missing the default.
pub new_main-first :
    (load : String → Option UserArgs) (user file : UserArgs)
    → from_file load user.config_file ≡ some file
    → new_main load user
      ≡ ok (record {
        degree = first user.degree file.degree 30;
        cache_size = first user.cache_size file.cache_size 50;
        gossip_timer = first user.gossip_timer file.gossip_timer 1;
        hz_addr = first user.hz_addr file.hz_addr "127.0.0.1:6001";
        vert_addr = first user.vert_addr file.vert_addr "127.0.0.1:7001";
        peer_addrs = first_set user.peer_addrs file.peer_addrs;
      })
unfolding new_main
new_main-first load user file h = simp (
  set_by_file load user.config_file file new_from_defaults h,
  merge-fields,
  first-over,
  first_set-nil,
)
