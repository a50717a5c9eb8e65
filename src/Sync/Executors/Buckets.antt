-- ===== src/Sync/Executors/Buckets.antt =====
-- core/textile/sync/task-executors.go: the tasks of buckets.
use space_daemon.Exec.{Exec, pure, raise, attempt, lift, ◌>>=◌, ◌>>◌, when}
use space_daemon.Outcome.{Result, ok, err, new}
use space_daemon.Prelude.{ℕ, String, not, Option, none, some, List, [], ◌∷◌, str_eq, if◌then◌else◌}
use space_daemon.Prelude.Hex
use space_daemon.Sync.Deps.{Deps, System, BucketSchema, MirrorBucketSchema, outside, inside}
use space_daemon.Sync.Mirror.{
  create_mirror_bucket, replicate_thread_to_hub, dereplicate_thread_from_hub,
}
use space_daemon.Sync.Pinning.{upload_all_files_in_path, delete_all_files_in_path}
use space_daemon.Sync.Queue.{buckets, enqueue_new_at_front}
use space_daemon.Sync.Restore.{restore_bucket}
use space_daemon.Sync.Task.{
  Task, new_task, create_bucket, bucket_backup_on, bucket_backup_off, bucket_restore,
}
use space_daemon.Sync.Executors.Args.{check_task_type, arg}

abbrev pub decoded : {S : Type 0} → Option (List ℕ) → Exec S (List ℕ)
decoded none = raise (new "encoding/hex")
decoded (some bytes) = pure bytes

module _ {W H C : Type 0} (D : Deps W H C) where
  -- the mirror is nil exactly where `createMirrorBucket` returned an error, which is then dropped
  abbrev pub save_mirror : String → Result MirrorBucketSchema → Exec (System W) (Unit {0})
  save_mirror bucket (err e) = pure tt
  save_mirror bucket (ok mirror) = do outside (D.model_create_mirror_bucket bucket mirror); pure tt

  -- the rest of `processCreateBucket`, once the arguments are read
  abbrev pub bucket_was_created : String → List ℕ → Exec (System W) (Unit {0})
  bucket_was_created bucket enckey = do
    mirror ← attempt (create_mirror_bucket D bucket enckey)
    save_mirror bucket mirror
    outside (D.add_bucket_listener bucket)

  unfoldable pub process_create_bucket : Task → Exec (System W) (Unit {0})
  process_create_bucket t = do
    check_task_type t create_bucket
    bucket ← arg t 0
    text ← arg t 1
    enckey ← decoded (Hex.decode text)
    bucket_was_created bucket enckey

  abbrev pub backup_on : ℕ → String → BucketSchema → Exec (System W) (Unit {0})
  backup_on fuel bucket model = do
    db_id ← lift (D.parse_db_id model.db_id)
    replicate_thread_to_hub D db_id
    upload_all_files_in_path D fuel bucket ""

  unfoldable pub process_bucket_backup_on : ℕ → Task → Exec (System W) (Unit {0})
  process_bucket_backup_on fuel t = do
    check_task_type t bucket_backup_on
    bucket ← arg t 0
    model ← outside (D.find_bucket bucket)
    when model.backup (backup_on fuel bucket model)

  abbrev pub backup_off : ℕ → String → BucketSchema → Exec (System W) (Unit {0})
  backup_off fuel bucket model = do
    db_id ← lift (D.parse_db_id model.db_id)
    dereplicate_thread_from_hub D db_id
    delete_all_files_in_path D fuel bucket ""

  unfoldable pub process_bucket_backup_off : ℕ → Task → Exec (System W) (Unit {0})
  process_bucket_backup_off fuel t = do
    check_task_type t bucket_backup_off
    bucket ← arg t 0
    model ← outside (D.find_bucket bucket)
    when (not model.backup) (backup_off fuel bucket model)

  abbrev pub recreate_mirror : String → BucketSchema → Exec (System W) (Unit {0})
  recreate_mirror bucket model = do
    let key = Hex.encode model.encryption_key
    inside (enqueue_new_at_front (new_task create_bucket (bucket ∷ key ∷ [])) buckets)
    raise (new "trying to restore a bucket that has not been replicated. Recreating mirror bucket.")

  unfoldable pub process_bucket_restore_task : ℕ → Task → Exec (System W) (Unit {0})
  process_bucket_restore_task fuel t = do
    check_task_type t bucket_restore
    bucket ← arg t 0
    model ← outside (D.find_bucket bucket)
    if str_eq model.mirror.remote_db_id ""
        then recreate_mirror bucket model
        else restore_bucket D fuel bucket
