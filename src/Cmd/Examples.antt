-- ===== src/Cmd/Examples.antt =====
-- A machine on which no daemon runs.
use googlysync.Prelude.{◌≡◌, refl, inr, none, some, [], ◌∷◌, ℕ, true, lit, str_eq, ok, err}
use googlysync.Config.{
  Config, Options, System, defaults, dir_or, from_file, apply_config_file, apply_file, apply_env,
  override_int, new_config, new_config_with_options,
}
use googlysync.Config.Lists.{split_list}
use googlysync.Config.Ints.{atoi}
use googlysync.Config.Resolve.{empty_file}
use googlysync.Ipc.{Protobuf}
use googlysync.Cmd.{Tools, prints, main, run_daemon, run_ping, run_status}
use googlysync.Cmd.Codes.{exit_codes}

abbrev protobuf : Protobuf
protobuf = record { Timestamp = ℕ; new = λ t. t; as_time = λ t. t; as_time-new = λ t. refl }

abbrev sys : System
sys = record {
  getenv = λ v. [];
  user_config_dir = ok (lit "/home/u/.config");
  user_home_dir = ok (lit "/home/u");
  join = λ ps. lit "/x";
  read_file = λ p. err (lit "no file");
  decode = λ t. ok empty_file;
}

abbrev opts : Options
opts = record { config_path = []; log_level = []; socket_path = lit "/tmp/s" }

abbrev tools : Tools protobuf
tools = record {
  daemon_flags = λ args. inr opts;
  ping_flags = λ args. inr opts;
  status_flags = λ args. inr (opts, 2, true);
  Runner = Unit {0};
  initialize = λ o. ok tt;
  run = λ d. some (lit "address already in use");
  Conn = Unit {0};
  dial = λ path. ok tt;
  ping = λ c. err (lit "connection refused");
  ask_status = λ c. err (lit "connection refused");
  run_program = λ m. none;
}

unknown_test : (main protobuf sys tools (lit "dev") (lit "sync" ∷ [])).code ≡ 2
unfolding main str_eq
unknown_test = refl

version_test : (main protobuf sys tools (lit "dev") (lit "version" ∷ [])).out ≡ lit "dev" ∷ []
unfolding main str_eq
version_test = refl

exit_codes_example :
    (run_daemon protobuf sys tools (lit "dev") []
      ≡ record { out = []; complaints = lit "run failed: address already in use" ∷ []; code = 1 })
    × (run_ping protobuf sys tools (lit "dev") []
        ≡ prints (lit "ping error: connection refused" ∷ []))
    × (run_status protobuf sys tools (lit "dev") []
        ≡ prints (lit "status error: connection refused" ∷ []))
unfolding new_config_with_options new_config dir_or defaults from_file apply_config_file apply_file
    apply_env override_int split_list atoi str_eq
exit_codes_example =
    exit_codes protobuf sys tools (lit "dev") [] [] [] opts opts opts 2 true refl refl refl

abbrev cfg : Config
cfg = record (defaults sys (lit "/home/u/.config") (lit "/x") (lit "/x")) {
  socket_path = lit "/tmp/s";
}

resolved : new_config_with_options sys opts ≡ ok cfg
unfolding new_config_with_options new_config dir_or defaults from_file apply_config_file apply_file
    apply_env override_int split_list atoi str_eq
resolved = refl
