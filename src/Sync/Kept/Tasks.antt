-- ===== src/Sync/Kept/Tasks.antt =====
-- No task, whatever its calls return, changes a task of core/textile/sync that is there, or makes
-- the queues unsound.
use space_daemon.Outcome.{Result, ok, err}
use space_daemon.Prelude.{ℕ, String, Option, none, some, List}
use space_daemon.Sync.Deps.{Deps, BucketSchema, MirrorBucketSchema}
use space_daemon.Sync.Executors.{
  check_task_type, or_panic, arg, decoded, both, process_add_item, process_remove_item,
  process_pin_file, process_unpin_file, save_mirror, process_create_bucket, backup_on,
  process_bucket_backup_on, backup_off, process_bucket_backup_off, recreate_mirror,
  process_bucket_restore_task, download_newer, process_restore_file, index_shared, index_parent,
  index_own, process_add_index_item_task, process_remove_index_item_task, process_type, process,
}
use space_daemon.Sync.Kept.{
  enqueue_new-Kept, enqueue_new_at_front-Kept, notify_sync_needed-Kept,
  notify_index_item_added-Kept,
}
use space_daemon.Sync.Kept.Calls.{
  set_mirror_file_backup-Keeps, unset_mirror_file_backup-Keeps, create_mirror_bucket-Keeps,
  replicate_thread_to_hub-Keeps, dereplicate_thread_from_hub-Keeps, download_file-Keeps,
  upload_file_to_remote-Keeps, delete_file_from_remote-Keeps, upload_all_files_in_path-Keeps,
  delete_all_files_in_path-Keeps, newer_bucket_path-Keeps, send_event-Keeps, restore_bucket-Keeps,
}
use space_daemon.Sync.Kept.Rules.{Keeps, exec_rules}
use space_daemon.Sync.Restore.{Newer, source, target}
use space_daemon.Sync.Task.{
  Task, TaskType, add_item, remove_item, create_bucket, pin_file, unpin_file, bucket_backup_on,
  bucket_backup_off, bucket_restore, restore_file, add_index_item, remove_index_item, other,
}

module _ {W : Type 0} where
  check_task_type-Keeps : (t : Task) (tp : TaskType) → Keeps {W = W} (check_task_type t tp)
  unfolding check_task_type
  check_task_type-Keeps t tp = search exec_rules

  or_panic-Keeps : (o : Option String) → Keeps {W = W} (or_panic o)
  or_panic-Keeps none = search exec_rules
  or_panic-Keeps (some a) = search exec_rules

  arg-Keeps : (t : Task) (i : ℕ) → Keeps {W = W} (arg t i)
  unfolding arg
  arg-Keeps t i = or_panic-Keeps _

  decoded-Keeps : (o : Option (List ℕ)) → Keeps {W = W} (decoded o)
  decoded-Keeps none = search exec_rules
  decoded-Keeps (some a) = search exec_rules

  both-Keeps : (a b : Result (Unit {0})) → Keeps {W = W} (both a b)
  both-Keeps (ok a) b = search exec_rules
  both-Keeps (err a) b = search exec_rules

ruleset task_rules = (exec_rules, check_task_type-Keeps, arg-Keeps)

module _ {W H C : Type 0} (D : Deps W H C) where
  process_add_item-Keeps : (t : Task) → Keeps (process_add_item D t)
  unfolding process_add_item
  process_add_item-Keeps t =
      search
        (
          task_rules, set_mirror_file_backup-Keeps, send_event-Keeps, enqueue_new-Kept,
          notify_sync_needed-Kept, notify_index_item_added-Kept,
        )
        depth 24

  process_remove_item-Keeps : (t : Task) → Keeps (process_remove_item D t)
  unfolding process_remove_item
  process_remove_item-Keeps t =
      search
        (
          task_rules, unset_mirror_file_backup-Keeps, delete_file_from_remote-Keeps,
          enqueue_new-Kept, notify_sync_needed-Kept,
        )
        depth 24

  process_pin_file-Keeps : (t : Task) → Keeps (process_pin_file D t)
  unfolding process_pin_file
  process_pin_file-Keeps t =
      search
        (task_rules, upload_file_to_remote-Keeps, set_mirror_file_backup-Keeps, send_event-Keeps)
        depth 24

  process_unpin_file-Keeps : (t : Task) → Keeps (process_unpin_file D t)
  unfolding process_unpin_file
  process_unpin_file-Keeps t = search (task_rules, delete_file_from_remote-Keeps) depth 24

  save_mirror-Keeps :
      (bucket : String) (r : Result MirrorBucketSchema) → Keeps (save_mirror D bucket r)
  save_mirror-Keeps bucket (ok m) = search task_rules
  save_mirror-Keeps bucket (err e) = search task_rules

  process_create_bucket-Keeps : (t : Task) → Keeps (process_create_bucket D t)
  unfolding process_create_bucket
  process_create_bucket-Keeps t =
      search (task_rules, decoded-Keeps, create_mirror_bucket-Keeps, save_mirror-Keeps) depth 24

  backup_on-Keeps :
      (fuel : ℕ) (bucket : String) (m : BucketSchema) → Keeps (backup_on D fuel bucket m)
  backup_on-Keeps fuel bucket m =
      search (task_rules, replicate_thread_to_hub-Keeps, upload_all_files_in_path-Keeps) depth 24

  process_bucket_backup_on-Keeps : (fuel : ℕ) (t : Task) → Keeps (process_bucket_backup_on D fuel t)
  unfolding process_bucket_backup_on
  process_bucket_backup_on-Keeps fuel t = search (task_rules, backup_on-Keeps) depth 24

  backup_off-Keeps :
      (fuel : ℕ) (bucket : String) (m : BucketSchema) → Keeps (backup_off D fuel bucket m)
  backup_off-Keeps fuel bucket m =
      search (task_rules, dereplicate_thread_from_hub-Keeps, delete_all_files_in_path-Keeps) depth
        24

  process_bucket_backup_off-Keeps :
      (fuel : ℕ) (t : Task) → Keeps (process_bucket_backup_off D fuel t)
  unfolding process_bucket_backup_off
  process_bucket_backup_off-Keeps fuel t = search (task_rules, backup_off-Keeps) depth 24

  recreate_mirror-Keeps : (bucket : String) (m : BucketSchema) → Keeps (recreate_mirror D bucket m)
  recreate_mirror-Keeps bucket m = search (task_rules, enqueue_new_at_front-Kept) depth 24

  process_bucket_restore_task-Keeps :
      (fuel : ℕ) (t : Task) → Keeps (process_bucket_restore_task D fuel t)
  unfolding process_bucket_restore_task
  process_bucket_restore_task-Keeps fuel t =
      search (task_rules, recreate_mirror-Keeps, restore_bucket-Keeps) depth 24

  download_newer-Keeps :
      (h k : H) (bucket path : String) (n : Newer) → Keeps (download_newer D h k bucket path n)
  download_newer-Keeps h k bucket path source = search task_rules
  download_newer-Keeps h k bucket path target =
      search (task_rules, download_file-Keeps, send_event-Keeps) depth 24

  process_restore_file-Keeps : (t : Task) → Keeps (process_restore_file D t)
  unfolding process_restore_file
  process_restore_file-Keeps t =
      search (task_rules, newer_bucket_path-Keeps, download_newer-Keeps) depth 24

  index_parent-Keeps : (bucket parent : String) → Keeps (index_parent D bucket parent)
  index_parent-Keeps bucket parent = search task_rules

  index_own-Keeps : (bucket path : String) → Keeps (index_own D bucket path)
  index_own-Keeps bucket path = search (task_rules, index_parent-Keeps, both-Keeps) depth 24

  index_shared-Keeps : (bucket path id : String) → Keeps (index_shared D bucket path id)
  index_shared-Keeps bucket path id = search task_rules

  process_add_index_item_task-Keeps : (t : Task) → Keeps (process_add_index_item_task D t)
  unfolding process_add_index_item_task
  process_add_index_item_task-Keeps t =
      search (task_rules, index_own-Keeps, index_shared-Keeps) depth 24

  process_remove_index_item_task-Keeps : (t : Task) → Keeps (process_remove_index_item_task D t)
  unfolding process_remove_index_item_task
  process_remove_index_item_task-Keeps t = search task_rules depth 24

  process_type-Keeps : (fuel : ℕ) (type : TaskType) (t : Task) → Keeps (process_type D fuel type t)
  unfolding process_type
  process_type-Keeps fuel add_item t = process_add_item-Keeps t
  process_type-Keeps fuel remove_item t = process_remove_item-Keeps t
  process_type-Keeps fuel create_bucket t = process_create_bucket-Keeps t
  process_type-Keeps fuel pin_file t = process_pin_file-Keeps t
  process_type-Keeps fuel unpin_file t = process_unpin_file-Keeps t
  process_type-Keeps fuel bucket_backup_on t = process_bucket_backup_on-Keeps fuel t
  process_type-Keeps fuel bucket_backup_off t = process_bucket_backup_off-Keeps fuel t
  process_type-Keeps fuel bucket_restore t = process_bucket_restore_task-Keeps fuel t
  process_type-Keeps fuel restore_file t = process_restore_file-Keeps t
  process_type-Keeps fuel add_index_item t = process_add_index_item_task-Keeps t
  process_type-Keeps fuel remove_index_item t = process_remove_index_item_task-Keeps t
  process_type-Keeps fuel (other text) t = search task_rules

  -- every task keeps the tasks that are there, and the queues sound
  pub process-Keeps : (fuel : ℕ) (t : Task) → Keeps (process D fuel t)
  unfolding process
  process-Keeps fuel t = process_type-Keeps fuel t.type t
