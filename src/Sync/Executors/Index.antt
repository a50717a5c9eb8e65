-- ===== src/Sync/Executors/Index.antt =====
-- core/textile/sync/task-executors.go: the tasks of the search index.
use space_daemon.Exec.{Exec, pure, raise, attempt, lift, ◌>>=◌, ◌>>◌}
use space_daemon.Outcome.{Result, ok, err}
use space_daemon.Prelude.{String, str_eq, if◌then◌else◌}
use space_daemon.Prelude.Paths.{base, dir}
use space_daemon.Sync.Deps.{Deps, System, file_item, directory_item, outside}
use space_daemon.Sync.Task.{Task, add_index_item, remove_index_item}
use space_daemon.Sync.Executors.Args.{check_task_type, arg}

-- `erg.Wait()`: both goroutines have run, and the first error is returned
abbrev pub both : {S : Type 0} → Result (Unit {0}) → Result (Unit {0}) → Exec S (Unit {0})
both (ok a) second = lift second
both (err e) second = raise e

module _ {W H C : Type 0} (D : Deps W H C) where
  -- the source passes the path where `FindReceivedFile` takes the bucket, and the other way round
  abbrev pub index_shared : String → String → String → Exec (System W) (Unit {0})
  index_shared bucket path db_id = do
    file ← outside (D.find_received_file db_id path bucket)
    outside (D.update_search_index_record file.file_name file.path file_item file.bucket db_id)

  abbrev pub index_parent : String → String → Exec (System W) (Unit {0})
  index_parent bucket parent =
      if str_eq parent "/"
      then pure tt
      else outside (D.update_search_index_record (base parent) parent directory_item bucket "")

  -- the two goroutines of the error group, one after the other
  abbrev pub index_own : String → String → Exec (System W) (Unit {0})
  index_own bucket path = do
    file ← attempt (outside (D.update_search_index_record (base path) path file_item bucket ""))
    parent ← attempt (index_parent bucket (dir path))
    both file parent

  unfoldable pub process_add_index_item_task : Task → Exec (System W) (Unit {0})
  process_add_index_item_task t = do
    check_task_type t add_index_item
    bucket ← arg t 0
    path ← arg t 1
    db_id ← arg t 2
    if str_eq db_id "" then index_own bucket path else index_shared bucket path db_id

  unfoldable pub process_remove_index_item_task : Task → Exec (System W) (Unit {0})
  process_remove_index_item_task t = do
    check_task_type t remove_index_item
    bucket ← arg t 0
    path ← arg t 1
    db_id ← arg t 2
    outside (D.delete_search_index_record (base path) path bucket db_id)
