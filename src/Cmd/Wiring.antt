-- ===== src/Cmd/Wiring.antt =====
-- cmd/googlysync/providers.go: the parts that the daemon is made of, from a configuration.
use googlysync.Prelude.{ℤ, pos, negsuc, zero, suc, ◌≡◌, refl, true, Time, is_pos, ok, arith}
use googlysync.Config.{Config, Options, System, new_config_with_options}
use googlysync.Config.Resolve.{resolve-IsUsable}
use googlysync.Status.{Store, new_store, set_max_events}
use googlysync.Sync.Queue.{Queue, new_queue}

unfoldable pub new_status_store : Config → Time → Store
new_status_store cfg now = set_max_events cfg.event_log_size (new_store now)

unfoldable pub new_sync_queue : Config → Queue
new_sync_queue cfg = new_queue cfg.sync_queue_size

max_events-set_max_events :
    (n : ℤ) (s : Store) → is_pos n ≡ true → pos (set_max_events n s).max_events ≡ n
unfolding set_max_events
max_events-set_max_events (pos zero) s h = ground arith
max_events-set_max_events (pos (suc n)) s h = refl
max_events-set_max_events (negsuc n) s h = ground arith

capacity-new_queue : (n : ℤ) → is_pos n ≡ true → pos (new_queue n).capacity ≡ n
unfolding new_queue
capacity-new_queue (pos zero) h = ground arith
capacity-new_queue (pos (suc n)) h = refl
capacity-new_queue (negsuc n) h = ground arith

-- In a daemon whose configuration resolves, whatever stands in its file and environment, the status
-- store keeps as many events, and the queue holds as many, as the configuration says: the defaults
-- that both fall back to for other sizes are never used.
pub wired_sizes :
    (sys : System) (opts : Options) (cfg : Config) (now : Time)
    → new_config_with_options sys opts ≡ ok cfg
    → (pos (new_status_store cfg now).max_events ≡ cfg.event_log_size)
      × (pos (new_sync_queue cfg).capacity ≡ cfg.sync_queue_size)
unfolding new_status_store new_sync_queue
wired_sizes sys opts cfg now h =
    let u = resolve-IsUsable sys opts cfg h in
    (
      max_events-set_max_events cfg.event_log_size (new_store now) u.event_log_size,
      capacity-new_queue cfg.sync_queue_size u.sync_queue_size,
    )
