-- ===== src/Config/Examples.antt =====
-- The configuration resolved in small environments.
use googlysync.Prelude.{
  ◌≡◌, refl, List, [], ◌∷◌, ◌++◌, ℤ, pos, negsuc, none, some, Str, lit, str_eq, if◌then◌else◌, All,
  Result, ok, err, ◌>>=◌,
}
use googlysync.Config.{
  Config, Options, System, defaults, dir_or, from_file, apply_config_file, apply_file, apply_env,
  override_int, new_config, new_config_with_options,
}
use googlysync.Config.Lists.{split_list}
use googlysync.Config.Ints.{atoi}
use googlysync.Config.Pieces.{IsPiece, flat, without_commas, join_commas, split_list-IsPiece}
use googlysync.Config.Resolve.{
  IsUsable, empty_file, file_settings, settled, resolve-eq-settled, resolve-IsUsable,
}

abbrev joined : List Str → Str
joined [] = []
joined (p ∷ []) = p
joined (p ∷ q ∷ ps) = p ++ lit "/" ++ joined (q ∷ ps)

-- A home directory, a file that sets the log level and the queue size, and a variable for each.
abbrev sys : System
sys = record {
  getenv = λ v.
      if str_eq v (lit "GOOGLYSYNC_SYNC_QUEUE_SIZE")
      then lit "64"
      else if str_eq v (lit "GOOGLYSYNC_EVENT_LOG_SIZE")
      then lit "-3"
      else [];
  user_config_dir = ok (lit "/home/u/.config");
  user_home_dir = ok (lit "/home/u");
  join = joined;
  read_file = λ p. ok [];
  decode = λ t. ok (record empty_file { log_level = lit "debug"; sync_queue_size = pos 8 });
}

abbrev opts : Options
opts = record { config_path = lit "c.json"; log_level = []; socket_path = lit "/tmp/s" }

queue_of : Result Config → ℤ
queue_of (ok cfg) = cfg.sync_queue_size
queue_of (err e) = pos 0

level_of : Result Config → Str
level_of (ok cfg) = cfg.log_level
level_of (err e) = []

-- the environment wins over the file, the file over the default
queue_test : queue_of (new_config_with_options sys opts) ≡ pos 64
unfolding queue_of new_config_with_options new_config dir_or defaults from_file apply_config_file
    apply_file apply_env override_int atoi str_eq
queue_test = refl

level_test : level_of (new_config_with_options sys opts) ≡ lit "debug"
unfolding level_of new_config_with_options new_config dir_or defaults from_file apply_config_file
    apply_file apply_env override_int atoi str_eq
level_test = refl

atoi_test :
    (atoi (lit "-12") ≡ some (negsuc 11))
    × (atoi (lit "+7") ≡ some (pos 7))
    × (atoi (lit "1_0") ≡ none)
    × (atoi (lit "9223372036854775808") ≡ none)
unfolding atoi
atoi_test = (refl, refl, refl, refl)

split_test : split_list (lit ",a,,bc,") ≡ lit "a" ∷ lit "bc" ∷ []
unfolding split_list
split_test = refl

split_list-IsPiece_example :
    All IsPiece (split_list (lit ",a,,bc,"))
    × (flat (split_list (lit ",a,,bc,")) ≡ without_commas (lit ",a,,bc,"))
    × ((ps : List Str) → All IsPiece ps → split_list (join_commas ps) ≡ ps)
split_list-IsPiece_example = split_list-IsPiece (lit ",a,,bc,")

resolve-eq-settled_example :
    new_config_with_options sys opts
    ≡ (do base ← new_config sys; fc ← file_settings sys opts; ok (settled sys opts fc base))
resolve-eq-settled_example = resolve-eq-settled sys opts

abbrev resolved : Config
resolved =
    settled sys opts (record empty_file { log_level = lit "debug"; sync_queue_size = pos 8 })
      (unfold defaults in
        defaults sys (lit "/home/u/.config") (lit "/home/u/.local/share") (lit "/home/u/.cache"))

resolve-IsUsable_example : IsUsable resolved
unfolding new_config_with_options new_config dir_or defaults from_file apply_config_file apply_file
    apply_env override_int atoi str_eq split_list
resolve-IsUsable_example = resolve-IsUsable sys opts resolved refl
