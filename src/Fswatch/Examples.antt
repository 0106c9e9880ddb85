-- ===== src/Fswatch/Examples.antt =====
-- The watcher on small inputs.
use googlysync.Prelude.{
  ℕ, ◌+◌, Bool, true, false, ◌&&◌, ◌||◌, ◌≡◌, refl, ◌↔◌, none, some, List, [], ◌∷◌, ◌++◌, pos, Str,
  lit, Time, any, str_eq, take,
}
use googlysync.Prelude.Dict.{get, put}
use googlysync.Config.{Config}
use googlysync.Status
use googlysync.Status.Calls
use googlysync.Fswatch.Ops.{remove, merge_op, Masks, has, normalize_op}
use googlysync.Fswatch.Ops.Normalize.{merged, normalize-eq-merged_iff}
use googlysync.Fswatch.Paths.{Filepath, base, has_suffix, should_ignore}
use googlysync.Fswatch.Paths.Ignored.{IsIgnored, should_ignore_iff}
use googlysync.Fswatch.Walk.{Tree, file, dir, unreadable, nil, cons, walk, add_recursive}
use googlysync.Fswatch.Walk.Visible.{visible, add_recursive-visible}
use googlysync.Fswatch.Watcher.{Event, Watcher, Arrival, handle_event, flush_pending}
use googlysync.Fswatch.Watcher.Burst.{hits, handle_all, burst, pending-burst}
use googlysync.Fswatch.Watcher.Flush.{events_at, meets, kept, flushed}
use googlysync.Fswatch.Watcher.Emit.{room, shown, flush_pending_lem}

-- fsnotify's constants
abbrev pub masks : Masks
masks = record { create_bit = 1; write_bit = 2; remove_bit = 4; rename_bit = 8; chmod_bit = 16 }

-- patterns that match only themselves, and no relative paths
abbrev pub fp : Filepath
fp = record { glob = str_eq; rel = λ root p. none }

abbrev pub cfg : Config
cfg = record {
  app_name = [];
  config_dir = [];
  data_dir = [];
  runtime_dir = [];
  socket_path = [];
  sync_root = lit "/r";
  ignore_patterns = lit ".git" ∷ [];
  event_log_size = pos 20;
  sync_queue_size = pos 20;
  log_level = [];
  database_path = lit "/r/db";
  config_file = [];
  log_file_path = [];
  log_file_max_mb = pos 1;
  log_file_max_backups = pos 1;
  log_file_max_age_days = pos 1;
  oauth_client_id = [];
  oauth_client_secret = [];
  oauth_redirect_host = [];
}

abbrev pub accepts : Str → Bool
accepts p = true

abbrev arrival : Str → ℕ → Time → Arrival
arrival p bits t = record { name = p; op = bits; now = t; is_dir = false; entry = none }

abbrev pub watcher : Watcher
watcher = record { status = Status.new_store 1; out = []; pending = []; watched = [] }

base_test :
    (base (lit "/a/b.txt") ≡ lit "b.txt")
    × (base (lit "/a/b//") ≡ lit "b")
    × (base (lit "///") ≡ lit "/")
    × (base [] ≡ lit ".")
unfolding base any
base_test = (refl, refl, refl, refl)

ignore_test :
    (should_ignore fp cfg (lit "/r/x.swp") ≡ true)
    × (should_ignore fp cfg (lit "/r/db") ≡ true)
    × (should_ignore fp cfg (lit "/r/.git") ≡ true)
    × (should_ignore fp cfg (lit "/r/notes.txt") ≡ false)
unfolding should_ignore base any has_suffix str_eq
ignore_test = (refl, refl, refl, refl)

-- created, written and removed within the debounce time; a temporary file; a bit not known
abbrev arrivals : List Arrival
arrivals =
    arrival (lit "/r/a") 1 10
    ∷ arrival (lit "/r/a") 2 20
    ∷ arrival (lit "/r/x.tmp") 1 25
    ∷ arrival (lit "/r/a") 4 30
    ∷ arrival (lit "/r/a") 32 40
    ∷ []

burst_test :
    get (handle_all fp masks cfg accepts (lit "/r/a") arrivals watcher).pending (lit "/r/a")
    ≡ some (record { path = lit "/r/a"; op = remove; when = 300_000_030 })
unfolding handle_event should_ignore base any has_suffix str_eq normalize_op merge_op get put
burst_test = refl

normalize-eq-merged_iff_example : (normalize_op masks 5 ≡ merged masks 5) ↔ (
    ((has 5 masks.create_bit || has 5 masks.write_bit)
      && (has 5 masks.remove_bit || has 5 masks.rename_bit))
    ≡ false)
normalize-eq-merged_iff_example = normalize-eq-merged_iff masks 5

should_ignore_iff_example :
    (should_ignore fp cfg (lit "/r/x.swp") ≡ true) ↔ IsIgnored fp cfg (lit "/r/x.swp")
should_ignore_iff_example = should_ignore_iff fp cfg (lit "/r/x.swp")

-- a directory with a file, a directory to skip and one that cannot be read
abbrev tree : Tree
tree =
    dir (lit "/r") (
      cons (file (lit "/r/a"))
        (cons (dir (lit "/r/.git") nil) (cons (unreadable (lit "/r/z")) nil)))

walk_test :
    add_recursive (should_ignore fp cfg) accepts (some tree) []
    ≡ (lit "/r" ∷ lit "/r/z" ∷ [], false)
unfolding add_recursive walk should_ignore base any has_suffix str_eq
walk_test = refl

add_recursive-visible_example :
    let r = add_recursive (should_ignore fp cfg) accepts (some tree) [] in
    (rest : List Str) × (r.0 ++ rest ≡ visible (should_ignore fp cfg) tree)
    × (r.1 ≡ true → rest ≡ [])
add_recursive-visible_example = add_recursive-visible (should_ignore fp cfg) accepts tree []

pending-burst_example :
    get (handle_all fp masks cfg accepts (lit "/r/a") arrivals watcher).pending (lit "/r/a")
    ≡ burst fp masks cfg accepts
        (lit "/r/a")
        (get [] (lit "/r/a"))
        (hits fp masks cfg accepts (lit "/r/a") arrivals)
pending-burst_example = pending-burst fp masks cfg accepts (lit "/r/a") arrivals watcher

abbrev pub clock : ℕ → Time
clock i = 400_000_000 + i

abbrev pub loaded : Watcher
loaded = record watcher {
  pending = (lit "/r/a", record { path = lit "/r/a"; op = remove; when = 300_000_030 }) ∷ [];
}

flush_pending_lem_example :
    let w' = flush_pending fp masks cfg accepts clock (lit "/r/a" ∷ []) loaded in
    (ready : List Event) × ((p : Str)
      → meets (lit "/r/a" ∷ []) p ≡ true
      → (events_at p ready ≡ flushed (clock 0) p (get loaded.pending p))
        × (get w'.pending p ≡ kept (clock 0) (get loaded.pending p)))
    × (w'.out ≡ take (room loaded) ready)
    × (w'.status ≡ Calls.run loaded.status (shown fp masks cfg accepts clock 1 ready))
flush_pending_lem_example = flush_pending_lem fp masks cfg accepts clock (lit "/r/a" ∷ []) loaded
