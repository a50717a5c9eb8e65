-- ===== src/Sync/Machine.antt =====
-- core/textile/sync as a whole: the two loops that `Start` runs, the goroutines that they start, and
-- the calls that announce changes, in any order.
use space_daemon.Prelude.{ℕ, true, String, List, [], ◌∷◌}
use space_daemon.Sync.Deps.{Deps, System}
use space_daemon.Sync.Loop.{Loop, idle, State, main_step, worker_step}
use space_daemon.Sync.Notify.{
  notify_item_added, notify_item_removed, notify_bucket_created, notify_bucket_backup_on,
  notify_bucket_backup_off, notify_bucket_restore, notify_file_restore, notify_bucket_startup,
  notify_index_item_added,
}
use space_daemon.Sync.Queue.{QueueName, buckets, file_pinning, Synchronizer}

-- the methods of `Synchronizer` that other components call while the loops run
pub data Notification : Type 0 where
  item_added item_removed file_restore : String → String → Notification
  bucket_created : String → List ℕ → Notification
  bucket_backup_on bucket_backup_off bucket_restore bucket_startup : String → Notification
  index_item_added : String → String → String → Notification

unfoldable pub notify : Notification → Synchronizer → Synchronizer
notify (item_added bucket path) = notify_item_added bucket path
notify (item_removed bucket path) = notify_item_removed bucket path
notify (file_restore bucket path) = notify_file_restore bucket path
notify (bucket_created bucket enckey) = notify_bucket_created bucket enckey
notify (bucket_backup_on bucket) = notify_bucket_backup_on bucket
notify (bucket_backup_off bucket) = notify_bucket_backup_off bucket
notify (bucket_restore bucket) = notify_bucket_restore bucket
notify (bucket_startup bucket) = notify_bucket_startup bucket
notify (index_item_added bucket path db_id) = notify_index_item_added bucket path db_id

pub record Machine (W : Type 0) : Type 0 where
  pub system : System W
  pub buckets_loop : Loop
  pub file_loop : Loop

-- what happens next: a turn of a loop, a goroutine of a loop, or a call from outside
pub data Choice : Type 0 where
  turn : QueueName → Choice
  goroutine : QueueName → ℕ → Choice
  notified : Notification → Choice

module _ {W : Type 0} where
  abbrev pub loop_of : QueueName → Machine W → Loop
  loop_of buckets m = m.buckets_loop
  loop_of file_pinning m = m.file_loop

  abbrev pub other_loop : QueueName → Machine W → Loop
  other_loop buckets m = m.file_loop
  other_loop file_pinning m = m.buckets_loop

  abbrev pub put_state : QueueName → State W → Machine W → Machine W
  put_state buckets (s, l) m = record { system = s; buckets_loop = l; file_loop = m.file_loop }
  put_state file_pinning (s, l) m = record {
    system = s;
    buckets_loop = m.buckets_loop;
    file_loop = l;
  }

abbrev pub new_loop : Loop
new_loop = record { phase = idle; number = 0; parallel_task_count = 0; workers = [] }

-- `Start`: both loops run from here on
unfoldable pub start : {W : Type 0} → System W → Machine W
start s = record {
  system = record s { sync = record (s.sync) { is_running = true } };
  buckets_loop = new_loop;
  file_loop = new_loop;
}

module _ {W H C : Type 0} (D : Deps W H C) (fuel : ℕ) where
  unfoldable pub step : Choice → Machine W → Machine W
  step (turn q) m = put_state q (main_step D fuel q (m.system, loop_of q m)) m
  step (goroutine q i) m = put_state q (worker_step D fuel i (m.system, loop_of q m)) m
  step (notified n) m =
      let s = m.system in record m { system = record s { sync = notify n s.sync } }

  unfoldable pub run : List Choice → Machine W → Machine W
  unfolding step
  run [] m = m
  run (c ∷ cs) m = run cs (step c m)
