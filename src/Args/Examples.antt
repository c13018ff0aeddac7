-- ===== src/Args/Examples.antt =====
-- The arguments of a node that are set in part by a file.
use Prim.Native.String.{String}
use whisper2peer.Base.{Option, none, some, [], ◌∷◌, ◌≡◌, refl, ok, panics}
use whisper2peer.Args.{Args, UserArgs, new_main}
use whisper2peer.Args.Precedence.{nothing_set, new_main-first}

abbrev in_file : UserArgs
in_file = record nothing_set { degree = some 10; cache_size = some 5 }

abbrev on_line : UserArgs
on_line = record nothing_set {
  degree = some 3;
  peer_addrs = some ("127.0.0.1:6002" ∷ []);
  config_file = some "whisper.ini";
}

abbrev load_example : String → Option UserArgs
load_example path = some in_file

no_file : new_main (λ _. none) on_line ≡ panics
unfolding new_main
no_file = refl

abbrev expected : Args
expected = record {
  degree = 3;
  cache_size = 5;
  gossip_timer = 1;
  hz_addr = "127.0.0.1:6001";
  vert_addr = "127.0.0.1:7001";
  peer_addrs = some ("127.0.0.1:6002" ∷ []);
}

new_main-first_example : new_main load_example on_line ≡ ok expected
new_main-first_example = new_main-first load_example on_line in_file refl
