-- ===== src/Sync/Executors/Files.antt =====
-- core/textile/sync/task-executors.go: the tasks of files.
use space_daemon.Exec.{Exec, pure, attempt, lift, ◌>>=◌, ◌>>◌, when}
use space_daemon.Outcome.{Result, ok, err}
use space_daemon.Prelude.{String, Bool, true, false, Option, none, some, [], ◌∷◌, ◌&&◌}
use space_daemon.Sync.Deps.{
  Deps, System, MirrorFileSchema, FileInfo, file_backup_in_progress, file_backup_ready,
  file_restored, outside, inside,
}
use space_daemon.Sync.Mirror.{set_mirror_file_backup, unset_mirror_file_backup}
use space_daemon.Sync.Notify.{notify_sync_needed, notify_index_item_added}
use space_daemon.Sync.Pinning.{upload_file_to_remote, download_file, delete_file_from_remote}
use space_daemon.Sync.Queue.{buckets, file_pinning, enqueue_new}
use space_daemon.Sync.Restore.{Newer, source, target, newer_bucket_path, send_event}
use space_daemon.Sync.Task.{
  Task, new_task, add_item, remove_item, pin_file, unpin_file, restore_file, remove_index_item,
}
use space_daemon.Sync.Executors.Args.{check_task_type, arg}

abbrev pub is_none : {A : Type 0} → Option A → Bool
is_none none = true
is_none (some a) = false

-- a pointer that is nil where the call returned an error
abbrev pub nil_mirror_file : Result (Option MirrorFileSchema) → Bool
nil_mirror_file (ok o) = is_none o
nil_mirror_file (err e) = true

abbrev pub in_progress : FileInfo → FileInfo
in_progress info = record info { locally_available = true; backup_in_progress = true }

abbrev pub backed_up : FileInfo → FileInfo
backed_up info = record info { locally_available = true; backed_up = true }

module _ {W H C : Type 0} (D : Deps W H C) where
  -- the rest of `processAddItem` and of `processRemoveItem`, once the arguments are read
  abbrev pub item_was_added : String → String → Exec (System W) (Unit {0})
  item_was_added bucket path = do
    model ← outside (D.find_bucket bucket)
    mirror_file ← attempt (outside (D.find_mirror_file_by_path_and_bucket_slug path bucket))
    when (model.backup && nil_mirror_file mirror_file) (set_mirror_file_backup D path bucket true)
    local ← outside (D.get_bucket bucket)
    item ← attempt (outside (D.list_directory local path))
    send_event D item in_progress path file_backup_in_progress bucket model.db_id
    inside (enqueue_new (new_task pin_file (bucket ∷ path ∷ [])) file_pinning)
    inside notify_sync_needed
    inside (notify_index_item_added bucket path "")

  abbrev pub item_was_removed : String → String → Exec (System W) (Unit {0})
  item_was_removed bucket path = do
    inside (enqueue_new (new_task unpin_file (bucket ∷ path ∷ [])) file_pinning)
    inside (enqueue_new (new_task remove_index_item (bucket ∷ path ∷ "" ∷ [])) buckets)
    inside notify_sync_needed
    unset_mirror_file_backup D path bucket
    delete_file_from_remote D bucket path

  unfoldable pub process_add_item : Task → Exec (System W) (Unit {0})
  process_add_item t = do
    check_task_type t add_item
    bucket ← arg t 0
    path ← arg t 1
    item_was_added bucket path

  unfoldable pub process_remove_item : Task → Exec (System W) (Unit {0})
  process_remove_item t = do
    check_task_type t remove_item
    bucket ← arg t 0
    path ← arg t 1
    item_was_removed bucket path

  unfoldable pub process_pin_file : Task → Exec (System W) (Unit {0})
  process_pin_file t = do
    check_task_type t pin_file
    bucket ← arg t 0
    path ← arg t 1
    upload_file_to_remote D bucket path
    attempt (set_mirror_file_backup D path bucket false)
    local ← outside (D.get_bucket bucket)
    model ← outside (D.find_bucket bucket)
    item ← attempt (outside (D.list_directory local path))
    send_event D item backed_up path file_backup_ready bucket model.db_id

  unfoldable pub process_unpin_file : Task → Exec (System W) (Unit {0})
  process_unpin_file t = do
    check_task_type t unpin_file
    bucket ← arg t 0
    path ← arg t 1
    delete_file_from_remote D bucket path

  -- the error of `ListDirectory` is returned at the end
  abbrev pub download_newer : H → H → String → String → Newer → Exec (System W) (Unit {0})
  download_newer local mirror bucket path source = pure tt
  download_newer local mirror bucket path target = do
    download_file D mirror local path
    model ← outside (D.find_bucket bucket)
    item ← attempt (outside (D.list_directory mirror path))
    send_event D item backed_up path file_restored bucket model.db_id
    lift item
    pure tt

  unfoldable pub process_restore_file : Task → Exec (System W) (Unit {0})
  process_restore_file t = do
    check_task_type t restore_file
    bucket ← arg t 0
    path ← arg t 1
    local ← outside (D.get_bucket bucket)
    mirror ← outside (D.get_mirror_bucket bucket)
    newer ← newer_bucket_path D local mirror path
    download_newer local mirror bucket path newer
