-- ===== src/Sync/Exclusive.antt =====
-- Who executes a task of core/textile/sync: the goroutines of the two loops, one task each, and no
-- task twice at the same time.
pub mod Steps
pub mod Runs
use space_daemon.Prelude.{
  ℕ, zero, suc, ◌+◌, ◌≤◌, ◌<◌, ◌≡◌, ◌≢◌, refl, Bool, true, false, some, List, [], ◌∷◌, ◌++◌, arith,
  ◌==◌, ==_iff, if◌then◌else◌,
}
use space_daemon.Sync.Deps.{Deps, System}
use space_daemon.Sync.Loop.{Worker, mark_pending, update_task, execute_task}
use space_daemon.Sync.Loop.Execute.{
  load-update_self, load-update_ne, update-IsSound, load-execute_ne, execute-IsSound,
}
use space_daemon.Sync.Queue.{Synchronizer, load}
use space_daemon.Sync.Sound.{IsSound}
use space_daemon.Sync.Task.{Task, TaskState, queued, pending, is_active, is_queued}

-- how many of the goroutines have a task
unfoldable pub busy : ℕ → List Worker → ℕ
busy p [] = 0
busy p (w ∷ ws) = (if w.task == p then 1 else 0) + busy p ws

pub busy-append : (p : ℕ) (xs ys : List Worker) → busy p (xs ++ ys) ≡ busy p xs + busy p ys
unfolding busy
busy-append p [] ys = omega arith
busy-append p (x ∷ xs) ys = omega (arith, busy-append p xs ys)

-- `others` counts the goroutines of the other loop
pub record IsExclusive (others : ℕ → ℕ) (s : Synchronizer) (ws : List Worker) : Type 0 where
  pub sound : IsSound s
  pub single : (p : ℕ) → others p + busy p ws ≤ 1
  pub is_pending :
      (p : ℕ) → 0 < others p + busy p ws → (t : Task) × (load s p ≡ some t) × (t.state ≡ pending)

module _ (others : ℕ → ℕ) (ws : List Worker) (s : Synchronizer) (h : IsExclusive others s ws) where
  -- a task that is not pending has no goroutine
  pub busy_pending :
      (p : ℕ) (t : Task) → load s p ≡ some t → (t.state ≡ pending → ⊥) → others p + busy p ws ≡ 0
  busy_pending p t l ne = ground (arith, h.is_pending p)

  -- a change of one task that has no goroutine
  pub changed-IsExclusive :
      (p : ℕ) (u : Synchronizer)
      → others p + busy p ws ≡ 0
      → IsSound u
      → ((x : ℕ) (t : Task) → p ≢ x → load s x ≡ some t → load u x ≡ some t)
      → IsExclusive others u ws
  changed-IsExclusive p u none_busy sound same = record {
    sound = sound;
    single = h.single;
    is_pending = λ x pos.
        let (t, l, e) = h.is_pending x pos in
        (t, same x t (λ q. absurd (omega (arith, ap_busy x q))) l, e);
  }
    where
      ap_busy : (x : ℕ) → p ≡ x → others x + busy x ws ≡ 0
      ap_busy x q = rw (← q) none_busy
