-- ===== src/Sync/Announced/Restored.antt =====
-- core/textile/sync/restore.go: which files of a mirror bucket are announced for a download.
use space_daemon.Exec.{pure, attempt, ◌>>=◌}
use space_daemon.Outcome.{ok}
use space_daemon.Prelude.{ℕ, String, ◌≡◌, ◌≤◌, ◌<◌, refl, Bool, true, false, arith, [], ◌∷◌}
use space_daemon.Prelude.Tests.{leb}
use space_daemon.Sync.Announced.{send_event-Steady}
use space_daemon.Sync.Held.{Holds, IsOwn, Holds-enqueue_new, Holds-notify}
use space_daemon.Sync.Steady.{Leaves, Leaves-Steady, Leaves-inside, Leaves-bind, steady_rules}
use space_daemon.Sync.Deps.{Deps, System, outside}
use space_daemon.Sync.Notify.{notify_file_restore}
use space_daemon.Sync.Queue.{Synchronizer, buckets}
use space_daemon.Sync.Restore.{restore_item, announce_restore, newer_bucket_path}
use space_daemon.Sync.Task.{new_task, restore_file}

holding :
    (bucket path : String) (s : Synchronizer)
    → IsOwn restore_file (bucket ∷ path ∷ []) s
    → Holds restore_file (bucket ∷ path ∷ []) (notify_file_restore bucket path s)
unfolding notify_file_restore new_task
holding bucket path s own =
    Holds-notify _ _ _ (Holds-enqueue_new _ _ s _ buckets refl refl refl refl own)

module _ {W H C : Type 0} (D : Deps W H C) where
  announce_restore-Leaves :
      (mirror : H) (bucket : String) (exists : Bool) (path : String)
      → Leaves
          (IsOwn restore_file (bucket ∷ path ∷ []))
          (Holds restore_file (bucket ∷ path ∷ []))
          (announce_restore D mirror bucket exists path)
  announce_restore-Leaves mirror bucket exists path =
      let own = IsOwn restore_file (bucket ∷ path ∷ []) in
      Leaves-bind _ _ (Leaves-Steady own _ (search steady_rules)) (λ model.
        Leaves-bind _ _ (Leaves-Steady own _ (search steady_rules)) (λ item.
          Leaves-bind _ _ (Leaves-Steady own _ (send_event-Steady D _ _ _ _ _ _))
            (λ u. Leaves-inside own _ _ (holding bucket path))))

  module _ (local mirror : H) (bucket path : String) (s : System W) (w1 w2 w3 : W) (theirs ours : ℕ)
      (there : D.file_exists local path s.world ≡ (ok true, w1))
      (mirrored : D.updated_at mirror path w1 ≡ (ok theirs, w2))
      (kept : D.updated_at local path w2 ≡ (ok ours, w3)) where
    -- Of a file that exists in the local bucket, where both buckets tell when it was changed and the
    -- local one is at least as new: restoring it returns at once and leaves the synchronizer as it was.
    restore_item-newer :
        theirs ≤ ours → restore_item D local mirror bucket path s ≡ (ok tt, record s { world = w3 })
    unfolding restore_item newer_bucket_path outside attempt ◌>>=◌ pure
    restore_item-newer le =
        let b : leb theirs ours ≡ true = ground (arith, le) in rw (there, mirrored, kept, b) refl

    -- Of a file that exists in the local bucket, where both buckets tell when it was changed, the
    -- mirror's is newer, the calls succeed and the ID of the task that restores the file belongs to it,
    -- so that a task that is queued or pending under it is of its type, has its arguments and stands in
    -- a queue: a task that restores this file is queued or pending, stands in a queue and is found by
    -- its ID.
    pub restore_item-older :
        ours < theirs
        → IsOwn restore_file (bucket ∷ path ∷ []) s.sync
        → (restore_item D local mirror bucket path s).0 ≡ ok tt
        → Holds restore_file (bucket ∷ path ∷ []) (restore_item D local mirror bucket path s).1.sync
    restore_item-older lt own e = rw same (
        (announce_restore-Leaves mirror bucket true path).at (record s { world = w3 }) tt own
          (rw same at e))
      where
        same :
            restore_item D local mirror bucket path s
            ≡ announce_restore D mirror bucket true path (record s { world = w3 })
        same =
            unfold restore_item newer_bucket_path outside attempt ◌>>=◌ pure in
            let b : leb theirs ours ≡ false = ground (arith, lt) in
            rw (there, mirrored, kept, b) refl
