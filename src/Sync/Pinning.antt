-- ===== src/Sync/Pinning.antt =====
-- core/textile/sync/pinning.go: files that are copied between a bucket and its mirror, and the walks
-- that announce every file of a bucket.
use space_daemon.Bucket.{Item, is_meta_file_name}
use space_daemon.Exec.{Exec, pure, raise, attempt, lift, ◌>>=◌, ◌>>◌}
use space_daemon.Outcome.{Failure, ok, out_of_fuel}
use space_daemon.Prelude.{ℕ, zero, suc, String, List, [], ◌∷◌, if◌then◌else◌}
use space_daemon.Sync.Deps.{Deps, System, outside, inside}
use space_daemon.Sync.Mirror.{add_current_user_as_file_owner}
use space_daemon.Sync.Notify.{notify_item_added, notify_item_removed}
use space_daemon.Sync.Queue.{Synchronizer}

module _ {W H C : Type 0} (D : Deps W H C) where
  -- `GetFile` into the pipe: what it wrote can be read also where it then failed, since the writer
  -- is closed without an error
  unfoldable pub piped : H → String → Exec (System W) (List ℕ × Failure)
  piped source path s =
      let (r, w) = D.get_file source path s.world in (ok r, record s { world = w })

  unfoldable pub upload_file_to_bucket : H → H → String → Exec (System W) (Unit {0})
  unfolding piped
  upload_file_to_bucket source target path = do
    read ← piped source path
    outside (D.upload_file target path read.0)
    lift read.1
    -- an error here is only logged
    attempt (add_current_user_as_file_owner D (D.slug target) path)
    pure tt

  unfoldable pub download_file : H → H → String → Exec (System W) (Unit {0})
  unfolding piped
  download_file source target path = do
    read ← piped source path
    outside (D.download_file target path read.0)
    lift read.1
    attempt (add_current_user_as_file_owner D (D.slug target) path)
    pure tt

  unfoldable pub upload_file_to_remote : String → String → Exec (System W) (Unit {0})
  upload_file_to_remote bucket path = do
    mirror ← outside (D.get_mirror_bucket bucket)
    local ← outside (D.get_bucket bucket)
    upload_file_to_bucket local mirror path

  unfoldable pub delete_file_from_remote : String → String → Exec (System W) (Unit {0})
  delete_file_from_remote bucket path = do
    mirror ← outside (D.get_mirror_bucket bucket)
    outside (D.delete_dir_or_file mirror path)

  -- the loop over the items of one directory
  unfoldable pub announce_items :
      (String → Exec (System W) (Unit {0}))
      → (String → Synchronizer → Synchronizer)
      → List Item
      → Exec (System W) (Unit {0})
  announce_items deeper notify [] = pure tt
  announce_items deeper notify (item ∷ items) =
      let rest = announce_items deeper notify items in
      if is_meta_file_name item.name
      then rest
      else if item.is_dir
      then (deeper item.path >> rest)
      else (inside (notify item.path) >> rest)

  -- What `uploadAllFilesInPath` and `deleteAllFilesInPath` have in common; `fuel` bounds the depth.
  unfoldable pub announce_files :
      (String → Synchronizer → Synchronizer) → ℕ → String → String → Exec (System W) (Unit {0})
  unfolding announce_items is_meta_file_name
  announce_files notify zero bucket path = raise out_of_fuel
  announce_files notify (suc fuel) bucket path = do
    local ← outside (D.get_bucket bucket)
    dir ← outside (D.list_directory local path)
    announce_items (announce_files notify fuel bucket) notify dir.items

  unfoldable pub upload_all_files_in_path : ℕ → String → String → Exec (System W) (Unit {0})
  unfolding announce_files
  upload_all_files_in_path fuel bucket path =
      announce_files (notify_item_added bucket) fuel bucket path

  unfoldable pub delete_all_files_in_path : ℕ → String → String → Exec (System W) (Unit {0})
  unfolding announce_files
  delete_all_files_in_path fuel bucket path =
      announce_files (notify_item_removed bucket) fuel bucket path
