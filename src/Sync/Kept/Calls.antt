-- ===== src/Sync/Kept/Calls.antt =====
-- What the calls of mirror.go, pinning.go, restore.go and threads.go in core/textile/sync keep.
use space_daemon.Bucket.{DirEntries, Item, each, each_items}
use space_daemon.Exec.{Exec}
use space_daemon.Outcome.{Result, ok, err, Failure}
use space_daemon.Prelude.{
  ℕ, zero, suc, ◌+◌, String, Bool, true, false, Option, none, some, List, [], ◌∷◌, if◌then◌else◌,
}
use space_daemon.Sync.Deps.{Deps, System, MirrorFileSchema, FileInfo, FileEventType}
use space_daemon.Sync.Kept.Rules.{Keeps, exec_rules, Keeps-inside, Keeps-pure, Keeps-if, Keeps-bind}
use space_daemon.Sync.Kept.{
  Kept, Kept-refl, KeptIn, notify_item_added-Kept, notify_item_removed-Kept,
  notify_file_restore-Kept,
}
use space_daemon.Sync.Mirror.{
  save_backup, set_mirror_file_backup, clear_backup, unset_mirror_file_backup,
  add_current_user_as_file_owner, thread_or_new, create_mirror_thread, root_or_new,
  create_mirror_bucket, replicate_thread_to_hub, dereplicate_thread_from_hub,
}
use space_daemon.Sync.Pinning.{
  piped, upload_file_to_bucket, download_file, upload_file_to_remote, delete_file_from_remote,
  announce_items, announce_files, upload_all_files_in_path, delete_all_files_in_path,
}
use space_daemon.Sync.Queue.{Synchronizer}
use space_daemon.Sync.Restore.{
  Newer, source, target, newer_bucket_path, send_event, announce_restore, unless_source,
  restore_if_newer, restore_item, restore_bucket,
}

module _ {W H C : Type 0} (D : Deps W H C) where
  pub save_backup-Keeps :
      (path slug : String) (b : Bool) (o : Option MirrorFileSchema)
      → Keeps (save_backup D path slug b o)
  save_backup-Keeps path slug b none = search exec_rules
  save_backup-Keeps path slug b (some mf) = search exec_rules

  pub set_mirror_file_backup-Keeps :
      (path slug : String) (b : Bool) → Keeps (set_mirror_file_backup D path slug b)
  unfolding set_mirror_file_backup
  set_mirror_file_backup-Keeps path slug b = search (exec_rules, save_backup-Keeps)

  pub clear_backup-Keeps : (o : Option MirrorFileSchema) → Keeps (clear_backup D o)
  clear_backup-Keeps none = search exec_rules
  clear_backup-Keeps (some mf) = search exec_rules

  pub unset_mirror_file_backup-Keeps :
      (path slug : String) → Keeps (unset_mirror_file_backup D path slug)
  unfolding unset_mirror_file_backup
  unset_mirror_file_backup-Keeps path slug = search (exec_rules, clear_backup-Keeps)

  pub add_current_user_as_file_owner-Keeps :
      (bucket path : String) → Keeps (add_current_user_as_file_owner D bucket path)
  unfolding add_current_user_as_file_owner
  add_current_user_as_file_owner-Keeps bucket path = search exec_rules

  pub thread_or_new-Keeps :
      (ctx : C) (id : String) (k : List ℕ) (r : Failure) → Keeps (thread_or_new D ctx id k r)
  thread_or_new-Keeps ctx id k (ok a) = search exec_rules
  thread_or_new-Keeps ctx id k (err e) = search exec_rules

  pub create_mirror_thread-Keeps : (slug : String) → Keeps (create_mirror_thread D slug)
  unfolding create_mirror_thread
  create_mirror_thread-Keeps slug = search (exec_rules, thread_or_new-Keeps) depth 12

  pub root_or_new-Keeps :
      (ctx : C) (slug : String) (o : Option String) → Keeps (root_or_new D ctx slug o)
  root_or_new-Keeps ctx slug none = search exec_rules
  root_or_new-Keeps ctx slug (some k) = search exec_rules

  pub create_mirror_bucket-Keeps :
      (slug : String) (k : List ℕ) → Keeps (create_mirror_bucket D slug k)
  unfolding create_mirror_bucket
  create_mirror_bucket-Keeps slug k =
      search (exec_rules, create_mirror_thread-Keeps, root_or_new-Keeps) depth 12

  pub replicate_thread_to_hub-Keeps : (id : String) → Keeps (replicate_thread_to_hub D id)
  unfolding replicate_thread_to_hub
  replicate_thread_to_hub-Keeps id = search exec_rules

  pub dereplicate_thread_from_hub-Keeps : (id : String) → Keeps (dereplicate_thread_from_hub D id)
  unfolding dereplicate_thread_from_hub
  dereplicate_thread_from_hub-Keeps id = search exec_rules

  pub piped-Keeps : (h : H) (path : String) → Keeps (piped D h path)
  unfolding piped
  piped-Keeps h path = record { at = λ s. Kept-refl s.sync }

  pub upload_file_to_bucket-Keeps :
      (h k : H) (path : String) → Keeps (upload_file_to_bucket D h k path)
  unfolding upload_file_to_bucket
  upload_file_to_bucket-Keeps h k path =
      search (exec_rules, piped-Keeps, add_current_user_as_file_owner-Keeps) depth 12

  pub download_file-Keeps : (h k : H) (path : String) → Keeps (download_file D h k path)
  unfolding download_file
  download_file-Keeps h k path =
      search (exec_rules, piped-Keeps, add_current_user_as_file_owner-Keeps) depth 12

  pub upload_file_to_remote-Keeps :
      (bucket path : String) → Keeps (upload_file_to_remote D bucket path)
  unfolding upload_file_to_remote
  upload_file_to_remote-Keeps bucket path = search (exec_rules, upload_file_to_bucket-Keeps)

  pub delete_file_from_remote-Keeps :
      (bucket path : String) → Keeps (delete_file_from_remote D bucket path)
  unfolding delete_file_from_remote
  delete_file_from_remote-Keeps bucket path = search exec_rules

  -- the two walks: an announcement that keeps the queues makes a walk that keeps them
  module _ (notify : String → Synchronizer → Synchronizer)
      (kept : (path : String) (s : Synchronizer) → Kept s (notify path s)) where
    announce_items-Keeps :
        (deeper : String → Exec (System W) (Unit {0}))
        → ((path : String) → Keeps (deeper path))
        → (items : List Item) → Keeps (announce_items D deeper notify items)
    unfolding announce_items
    announce_items-Keeps deeper h [] = Keeps-pure tt
    announce_items-Keeps deeper h (item ∷ items) =
        let rest = announce_items-Keeps deeper h items in
        Keeps-if _ _ _ rest (
          Keeps-if _ _ _ (Keeps-bind _ _ (h item.path) (λ _. rest))
            (Keeps-bind _ _ (Keeps-inside _ (kept item.path)) (λ _. rest)))

    announce_files-Keeps :
        (fuel : ℕ) (bucket path : String) → Keeps (announce_files D notify fuel bucket path)
    unfolding announce_files
    announce_files-Keeps zero bucket path = search exec_rules
    announce_files-Keeps (suc fuel) bucket path =
        search (exec_rules, announce_items-Keeps, announce_files-Keeps fuel bucket)

  pub upload_all_files_in_path-Keeps :
      (fuel : ℕ) (bucket path : String) → Keeps (upload_all_files_in_path D fuel bucket path)
  unfolding upload_all_files_in_path
  upload_all_files_in_path-Keeps fuel bucket =
      announce_files-Keeps _ (notify_item_added-Kept bucket) fuel bucket

  pub delete_all_files_in_path-Keeps :
      (fuel : ℕ) (bucket path : String) → Keeps (delete_all_files_in_path D fuel bucket path)
  unfolding delete_all_files_in_path
  delete_all_files_in_path-Keeps fuel bucket =
      announce_files-Keeps _ (notify_item_removed-Kept bucket) fuel bucket

  pub newer_bucket_path-Keeps : (h k : H) (path : String) → Keeps (newer_bucket_path D h k path)
  unfolding newer_bucket_path
  newer_bucket_path-Keeps h k path = search exec_rules

  pub send_event-Keeps :
      (r : Result DirEntries) (f : FileInfo → FileInfo) (path : String) (type : FileEventType)
      (bucket id : String)
      → Keeps (send_event D r f path type bucket id)
  unfolding send_event
  send_event-Keeps (ok e) f path type bucket id = record { at = λ s. sent s.sync.has_notifier s _ }
    where
      sent : (b : Bool) (s : System W) (w : W) → KeptIn s (if b then record s { world = w } else s)
      sent true s w = Kept-refl s.sync
      sent false s w = Kept-refl s.sync
  send_event-Keeps (err e) f path type bucket id = record { at = λ s. Kept-refl s.sync }

  pub announce_restore-Keeps :
      (h : H) (bucket : String) (b : Bool) (path : String)
      → Keeps (announce_restore D h bucket b path)
  announce_restore-Keeps h bucket b path =
      search (exec_rules, send_event-Keeps, Keeps-inside _ (notify_file_restore-Kept bucket path))
        depth 12

  pub unless_source-Keeps :
      (n : Newer) (m : Exec (System W) (Unit {0})) → Keeps m → Keeps (unless_source D n m)
  unless_source-Keeps source m h = Keeps-pure tt
  unless_source-Keeps target m h = h

  pub restore_if_newer-Keeps :
      (h k : H) (bucket : String) (b : Bool) (path : String)
      → Keeps (restore_if_newer D h k bucket b path)
  restore_if_newer-Keeps h k bucket false path = announce_restore-Keeps k bucket false path
  restore_if_newer-Keeps h k bucket true path =
      search (exec_rules, newer_bucket_path-Keeps, unless_source-Keeps, announce_restore-Keeps)

  pub restore_item-Keeps : (h k : H) (bucket path : String) → Keeps (restore_item D h k bucket path)
  unfolding restore_item
  restore_item-Keeps h k bucket path = search (exec_rules, restore_if_newer-Keeps)

  -- a walk over a bucket by actions that keep the queues
  module _ (list : String → Exec (System W) DirEntries)
      (lists : (p : String) → Keeps (list p)) where
    each_items-Keeps :
        (deeper : String → Exec (System W) ℕ) (iterator : String → Exec (System W) (Unit {0}))
        → ((p : String) → Keeps (deeper p))
        → ((p : String) → Keeps (iterator p))
        → (path : String) (deep : Bool) (count : ℕ) (items : List Item)
        → Keeps (each_items list deeper iterator path deep count items)
    unfolding each_items
    each_items-Keeps deeper iterator hd hi path deep count [] = Keeps-pure count
    each_items-Keeps deeper iterator hd hi path deep count (item ∷ items) =
        let rest = λ (n : ℕ). each_items-Keeps deeper iterator hd hi path deep (count + n) items in
        Keeps-if _ _ _ (rest 0)
          (Keeps-if _ _ _ (Keeps-bind _ _ (hd _) rest) (Keeps-bind _ _ (hi _) (λ _. rest 0)))

    each-Keeps :
        (fuel : ℕ) (iterator : String → Exec (System W) (Unit {0}))
        → ((p : String) → Keeps (iterator p))
        → (path : String) (deep : Bool) → Keeps (each list fuel iterator path deep)
    unfolding each
    each-Keeps zero iterator hi path deep = search exec_rules
    each-Keeps (suc fuel) iterator hi path deep = Keeps-bind _ _ (lists path) (λ d.
        each_items-Keeps _ iterator (λ p. each-Keeps fuel iterator hi p deep) hi path deep 0
          d.items)

  pub restore_bucket-Keeps : (fuel : ℕ) (bucket : String) → Keeps (restore_bucket D fuel bucket)
  unfolding restore_bucket
  restore_bucket-Keeps fuel bucket = search (exec_rules, each-Keeps, restore_item-Keeps) depth 12
