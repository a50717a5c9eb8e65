-- ===== src/Sync/Exclusive/Runs.antt =====
-- Whatever the order in which the loops of core/textile/sync, their goroutines and the calls from
-- outside take their steps.
use space_daemon.Prelude.{ℕ, ◌+◌, ◌≤◌, ◌<◌, ◌≡◌, some, List, [], ◌∷◌, arith}
use space_daemon.Sync.Deps.{Deps}
use space_daemon.Sync.Exclusive.{busy, IsExclusive}
use space_daemon.Sync.Exclusive.Steps.{main_step-IsExclusive, worker_step-IsExclusive}
use space_daemon.Sync.Kept.{
  Kept, notify_item_added-Kept, notify_item_removed-Kept, notify_bucket_created-Kept,
  notify_bucket_backup_on-Kept, notify_bucket_backup_off-Kept, notify_bucket_restore-Kept,
  notify_file_restore-Kept, notify_bucket_startup-Kept, notify_index_item_added-Kept,
}
use space_daemon.Sync.Loop.{Worker}
use space_daemon.Sync.Machine.{
  Machine, Choice, turn, goroutine, notified, Notification, item_added, item_removed, file_restore,
  bucket_created, bucket_backup_on, bucket_backup_off, bucket_restore, bucket_startup,
  index_item_added, notify, step, run, start,
}
use space_daemon.Sync.Queue.{buckets, file_pinning, Synchronizer, load, new_synchronizer}
use space_daemon.Sync.Sound.{occurrences, count_task}
use space_daemon.Sync.Task.{Task, pending}

pub notify-Kept : (n : Notification) (s : Synchronizer) → Kept s (notify n s)
unfolding notify
notify-Kept (item_added bucket path) s = notify_item_added-Kept bucket path s
notify-Kept (item_removed bucket path) s = notify_item_removed-Kept bucket path s
notify-Kept (file_restore bucket path) s = notify_file_restore-Kept bucket path s
notify-Kept (bucket_created bucket enckey) s = notify_bucket_created-Kept bucket enckey s
notify-Kept (bucket_backup_on bucket) s = notify_bucket_backup_on-Kept bucket s
notify-Kept (bucket_backup_off bucket) s = notify_bucket_backup_off-Kept bucket s
notify-Kept (bucket_restore bucket) s = notify_bucket_restore-Kept bucket s
notify-Kept (bucket_startup bucket) s = notify_bucket_startup-Kept bucket s
notify-Kept (index_item_added bucket path db_id) s =
    notify_index_item_added-Kept bucket path db_id s

Kept-IsExclusive :
    (others : ℕ → ℕ) (ws : List Worker) {s u : Synchronizer}
    → Kept s u
    → IsExclusive others s ws
    → IsExclusive others u ws
Kept-IsExclusive others ws k h = record {
  sound = k.sound h.sound;
  single = h.single;
  is_pending = λ p pos. let (t, l, e) = h.is_pending p pos in (t, k.loads p t l, e);
}

-- the same, seen from the other loop
swapped-IsExclusive :
    (xs ys : List Worker) (s : Synchronizer)
    → IsExclusive (λ p. busy p xs) s ys
    → IsExclusive (λ p. busy p ys) s xs
swapped-IsExclusive xs ys s h = record {
  sound = h.sound;
  single = λ p. omega (arith, h.single p);
  is_pending = λ p pos. h.is_pending p (omega arith);
}

abbrev pub IsSafe : {W : Type 0} → Machine W → Type 0
IsSafe m = IsExclusive (λ p. busy p m.file_loop.workers) m.system.sync m.buckets_loop.workers

start-IsSafe : {W : Type 0} (w : W) → IsSafe (start (record { sync = new_synchronizer; world = w }))
unfolding start busy
start-IsSafe w = record {
  sound =
      unfold occurrences count_task in
      record {
        in_heap = λ p pos. omega arith;
        once = λ p. omega arith;
        mapped = λ p t pos l active. absurd (omega arith);
      };
  single = λ p. omega arith;
  is_pending = λ p pos. absurd (omega arith);
}

module _ {W H C : Type 0} (D : Deps W H C) (fuel : ℕ) where
  step-IsSafe : (c : Choice) (m : Machine W) → IsSafe m → IsSafe (step D fuel c m)
  unfolding step
  step-IsSafe (turn buckets) m h =
      main_step-IsExclusive _ D fuel buckets (m.system, m.buckets_loop) h
  step-IsSafe (turn file_pinning) m h = swapped-IsExclusive _ _ _ (
      main_step-IsExclusive _ D fuel file_pinning (m.system, m.file_loop)
        (swapped-IsExclusive _ _ _ h))
  step-IsSafe (goroutine buckets i) m h =
      worker_step-IsExclusive _ D fuel i (m.system, m.buckets_loop) h
  step-IsSafe (goroutine file_pinning i) m h =
      swapped-IsExclusive _ _ _
        (worker_step-IsExclusive _ D fuel i (m.system, m.file_loop) (swapped-IsExclusive _ _ _ h))
  step-IsSafe (notified n) m h = Kept-IsExclusive _ _ (notify-Kept n m.system.sync) h

  pub run-IsSafe : (cs : List Choice) (m : Machine W) → IsSafe m → IsSafe (run D fuel cs m)
  unfolding run
  run-IsSafe [] m h = h
  run-IsSafe (c ∷ cs) m h = run-IsSafe cs (step D fuel c m) (step-IsSafe c m h)

module _ {W H C : Type 0} (D : Deps W H C) (fuel : ℕ) (w : W) (cs : List Choice) where
  -- the system after the steps `cs`, from a new synchronizer that is started
  abbrev pub reached : Machine W
  reached = run D fuel cs (start (record { sync = new_synchronizer; world = w }))

  -- From a new synchronizer, after any steps of the two loops, their goroutines and the calls that
  -- announce changes: no task is held by two goroutines, of whichever loop, and a task that a
  -- goroutine holds is pending, so that no loop starts it a second time.
  pub reached-single_worker :
      ((p : ℕ) → busy p reached.file_loop.workers + busy p reached.buckets_loop.workers ≤ 1)
      × ((p : ℕ)
          → 0 < busy p reached.file_loop.workers + busy p reached.buckets_loop.workers
          → (t : Task) × (load reached.system.sync p ≡ some t) × (t.state ≡ pending))
  reached-single_worker =
      let h = run-IsSafe D fuel cs _ (start-IsSafe w) in (h.single, h.is_pending)
