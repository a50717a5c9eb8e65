-- ===== src/Sync/Announced/Created.antt =====
-- `NotifyBucketCreated` and `processCreateBucket` of core/textile/sync: the key on its way through a task.
use space_daemon.Exec.{pure, ◌>>=◌}
use space_daemon.Prelude.{
  ℕ, String, ◌≡◌, refl, List, [], ◌∷◌, some, length, Bool-cases, inl, inr, get_elem?-append_last,
}
use space_daemon.Prelude.Hex
use space_daemon.Prelude.Hex.{AreBytes, decode-encode}
use space_daemon.Sync.Deps.{Deps, System}
use space_daemon.Sync.Executors.{
  process, process_type, process_create_bucket, check_task_type, arg, bucket_was_created,
}
use space_daemon.Sync.Kept.{notify_sync_needed-Kept}
use space_daemon.Sync.Notify.{notify_bucket_created}
use space_daemon.Sync.Queue.{Synchronizer, load, enqueue_new, buckets, alloc, is_task_enqueued}
use space_daemon.Sync.Task.{Task, new_task, type_text, create_bucket}

load-enqueue_new :
    (t : Task) (s : Synchronizer) → load (enqueue_new t buckets s) (length s.heap) ≡ some t
unfolding enqueue_new alloc
load-enqueue_new t s = elim (Bool-cases (is_task_enqueued (alloc t s) t.id)) [
  | inl e ↦ rw (get_elem?-append_last s.heap t, e) (get_elem?-append_last s.heap t)
  | inr e ↦ rw (get_elem?-append_last s.heap t, e) (get_elem?-append_last s.heap t)
]

module _ {W H C : Type 0} (D : Deps W H C) (fuel : ℕ) where
  -- Announcing a new bucket with a key of bytes allocates a task, and executing that task creates the
  -- mirror bucket with that key.
  pub process-notify_bucket_created :
      (bucket : String) (key : List ℕ) (s : Synchronizer) (u : System W)
      → AreBytes key
      → (t : Task) × (load (notify_bucket_created bucket key s) (length s.heap) ≡ some t)
        × (process D fuel t u ≡ bucket_was_created D bucket key u)
  unfolding notify_bucket_created process process_type process_create_bucket check_task_type arg
      new_task type_text pure ◌>>=◌
  process-notify_bucket_created bucket key s u b =
      let t = new_task create_bucket (bucket ∷ Hex.encode key ∷ []) in
      (
        t,
        (notify_sync_needed-Kept _).loads _ _ (load-enqueue_new t s),
        rw (decode-encode key b) refl,
      )
