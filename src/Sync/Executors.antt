-- ===== src/Sync/Executors.antt =====
-- core/textile/sync/task-executors.go: what the tasks do.
pub mod Args
pub mod Buckets
pub mod Files
pub mod Index
use space_daemon.Exec.{Exec, pure, raise, attempt, lift, ◌>>=◌, ◌>>◌, when}
use space_daemon.Outcome.{Result, ok, err, new, panic}
use space_daemon.Prelude.{
  ℕ, String, Bool, true, false, not, Option, none, some, List, [], ◌∷◌, str_eq, get_elem?, ◌&&◌,
  if◌then◌else◌,
}
use space_daemon.Prelude.Hex
use space_daemon.Prelude.Paths.{base, dir}
use space_daemon.Sync.Deps.{
  Deps, System, BucketSchema, MirrorBucketSchema, MirrorFileSchema, FileInfo,
  file_backup_in_progress, file_backup_ready, file_restored, file_item, directory_item, outside,
  inside,
}
use space_daemon.Sync.Mirror.{
  set_mirror_file_backup, unset_mirror_file_backup, create_mirror_bucket, replicate_thread_to_hub,
  dereplicate_thread_from_hub,
}
use space_daemon.Sync.Notify.{notify_sync_needed, notify_index_item_added}
use space_daemon.Sync.Pinning.{
  upload_file_to_remote, download_file, delete_file_from_remote, upload_all_files_in_path,
  delete_all_files_in_path,
}
use space_daemon.Sync.Queue.{buckets, file_pinning, enqueue_new, enqueue_new_at_front}
use space_daemon.Sync.Restore.{Newer, source, target, newer_bucket_path, send_event, restore_bucket}
use space_daemon.Sync.Task.{
  Task, TaskType, type_text, new_task, add_item, remove_item, create_bucket, pin_file, unpin_file,
  bucket_backup_on, bucket_backup_off, bucket_restore, restore_file, add_index_item,
  remove_index_item, other,
}
unfoldable pub use space_daemon.Sync.Executors.Args.{check_task_type, or_panic, arg}
unfoldable pub use space_daemon.Sync.Executors.Files.{
  is_none, nil_mirror_file, in_progress, backed_up, item_was_added, item_was_removed,
  process_add_item, process_remove_item, process_pin_file, process_unpin_file, download_newer,
  process_restore_file,
}
unfoldable pub use space_daemon.Sync.Executors.Buckets.{
  decoded, save_mirror, bucket_was_created, process_create_bucket, backup_on,
  process_bucket_backup_on, backup_off, process_bucket_backup_off, recreate_mirror,
  process_bucket_restore_task,
}
unfoldable pub use space_daemon.Sync.Executors.Index.{
  both, index_shared, index_parent, index_own, process_add_index_item_task,
  process_remove_index_item_task,
}

module _ {W H C : Type 0} (D : Deps W H C) where
  -- the `switch` of `executeTask`; a type that is none of the constants is only logged
  unfoldable pub process_type : ℕ → TaskType → Task → Exec (System W) (Unit {0})
  process_type fuel add_item t = process_add_item D t
  process_type fuel remove_item t = process_remove_item D t
  process_type fuel create_bucket t = process_create_bucket D t
  process_type fuel pin_file t = process_pin_file D t
  process_type fuel unpin_file t = process_unpin_file D t
  process_type fuel bucket_backup_on t = process_bucket_backup_on D fuel t
  process_type fuel bucket_backup_off t = process_bucket_backup_off D fuel t
  process_type fuel bucket_restore t = process_bucket_restore_task D fuel t
  process_type fuel restore_file t = process_restore_file D t
  process_type fuel add_index_item t = process_add_index_item_task D t
  process_type fuel remove_index_item t = process_remove_index_item_task D t
  process_type fuel (other text) t = pure tt

  unfoldable pub process : ℕ → Task → Exec (System W) (Unit {0})
  unfolding process_type
  process fuel t = process_type fuel t.type t
