-- ===== src/Sync/Restore.antt =====
-- core/textile/sync/restore.go: a bucket restored from its mirror.
use space_daemon.Bucket.{DirEntries, each}
use space_daemon.Exec.{Exec, pure, attempt, ◌>>=◌, ◌>>◌}
use space_daemon.Outcome.{Result, ok, err}
use space_daemon.Prelude.{ℕ, String, Bool, true, false, leb, if◌then◌else◌}
use space_daemon.Prelude.Paths.{extension}
use space_daemon.Sync.Deps.{
  Deps, System, FileInfo, FileEvent, FileEventType, file_restoring, outside, inside,
}
use space_daemon.Sync.Notify.{notify_file_restore}

-- utils.MapDirEntryToFileInfo
unfoldable pub map_dir_entry_to_file_info : DirEntries → String → FileInfo
map_dir_entry_to_file_info entry path = record {
  path = path;
  is_dir = entry.item.is_dir;
  name = entry.item.name;
  size = entry.item.size;
  file_extension = extension entry.item.name;
  created = entry.item.updated_at;
  updated = entry.item.updated_at;
  ipfs_hash = entry.item.cid;
  backed_up = false;
  locally_available = false;
  backup_in_progress = false;
  restore_in_progress = false;
}

-- which of its two arguments `newerBucketPath` returns
pub data Newer : Type 0 where
  source target : Newer

abbrev pub ok_or_false : Result Bool → Bool
ok_or_false (ok b) = b
ok_or_false (err e) = false

module _ {W H C : Type 0} (D : Deps W H C) where
  -- the target where the source does not answer, or is older
  abbrev pub newer_of : ℕ → Result ℕ → Newer
  newer_of target_updated_at (ok src_updated_at) =
      if leb target_updated_at src_updated_at then source else target
  newer_of target_updated_at (err e) = target

  unfoldable pub newer_bucket_path : H → H → String → Exec (System W) Newer
  newer_bucket_path src tgt path = do
    target_updated_at ← outside (D.updated_at tgt path)
    src_updated_at ← attempt (outside (D.updated_at src path))
    pure (newer_of target_updated_at src_updated_at)

  -- `if s.eventNotifier != nil && err == nil { … SendFileEvent }`
  unfoldable pub send_event :
      Result DirEntries
      → (FileInfo → FileInfo)
      → String
      → FileEventType
      → String
      → String
      → Exec (System W) (Unit {0})
  send_event (err e) flags path type bucket db_id s = (ok tt, s)
  send_event (ok entries) flags path type bucket db_id s =
      let event : FileEvent = record {
        info = flags (map_dir_entry_to_file_info entries path);
        type = type;
        bucket = bucket;
        db_id = db_id;
      } in
      (
        ok tt,
        if s.sync.has_notifier then record s { world = D.send_file_event event s.world } else s,
      )

  abbrev pub restoring : Bool → FileInfo → FileInfo
  restoring exists info = record info {
    backed_up = true;
    locally_available = exists;
    restore_in_progress = true;
  }

  abbrev pub announce_restore : H → String → Bool → String → Exec (System W) (Unit {0})
  announce_restore mirror bucket exists path = do
    model ← outside (D.find_bucket bucket)
    item ← attempt (outside (D.list_directory mirror path))
    send_event item (restoring exists) path file_restoring bucket model.db_id
    inside (notify_file_restore bucket path)

  abbrev pub unless_source : Newer → Exec (System W) (Unit {0}) → Exec (System W) (Unit {0})
  unless_source source m = pure tt
  unless_source target m = m

  abbrev pub restore_if_newer : H → H → String → Bool → String → Exec (System W) (Unit {0})
  restore_if_newer local mirror bucket false path = announce_restore mirror bucket false path
  restore_if_newer local mirror bucket true path = do
    newer ← newer_bucket_path local mirror path
    unless_source newer (announce_restore mirror bucket true path)

  -- the `iterator` of `restoreBucket`
  unfoldable pub restore_item : H → H → String → String → Exec (System W) (Unit {0})
  restore_item local mirror bucket path = do
    exists ← attempt (outside (D.file_exists local path))
    restore_if_newer local mirror bucket (ok_or_false exists) path

  unfoldable pub restore_bucket : ℕ → String → Exec (System W) (Unit {0})
  restore_bucket fuel bucket = do
    local ← outside (D.get_bucket bucket)
    mirror ← outside (D.get_mirror_bucket bucket)
    each (λ path. outside (D.list_directory mirror path)) fuel (restore_item local mirror bucket) ""
        true
    pure tt
