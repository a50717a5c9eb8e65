-- ===== src/Sync/Loop/Execute.antt =====
-- What `executeTask` of core/textile/sync leaves of the tasks.
use space_daemon.Outcome.{Result}
use space_daemon.Prelude.{
  ℕ, ◌<◌, ◌≡◌, ◌≢◌, ◌∙◌, true, some, length, get_elem?-set_self, get_elem?-set_ne, get_elem?-lt,
  length-set, arith, Bool-cases, inl, inr, ◌==◌,
}
use space_daemon.Prelude.Map.{lookup}
use space_daemon.Sync.Deps.{Deps, System}
use space_daemon.Sync.Executors.{process}
use space_daemon.Sync.Kept.Tasks.{process-Keeps}
use space_daemon.Sync.Loop.{settle, verdict, update_task, execute_task}
use space_daemon.Sync.Queue.{Synchronizer, load}
use space_daemon.Sync.Sound.{IsSound, occurrences}
use space_daemon.Sync.Task.{Task, is_active}

module _ (f : Task → Task) (p : ℕ) (t : Task) (s : Synchronizer) (l : load s p ≡ some t) where
  pub load-update_self : load (update_task f p s) p ≡ some (f t)
  unfolding update_task
  load-update_self = rw l (get_elem?-set_self s.heap p (f t) (get_elem?-lt s.heap p l))

  pub load-update_ne : (x : ℕ) → p ≢ x → load (update_task f p s) x ≡ load s x
  unfolding update_task
  load-update_ne x ne = rw l (get_elem?-set_ne s.heap p x (f t) ne)

  pub occurrences-update : (x : ℕ) → occurrences x (update_task f p s) ≡ occurrences x s
  unfolding update_task occurrences
  occurrences-update x = rw l

  pub length-update : length (update_task f p s).heap ≡ length s.heap
  unfolding update_task
  length-update = rw l (length-set s.heap p (f t))

  queue_hash_map-update : (update_task f p s).queue_hash_map ≡ s.queue_hash_map
  unfolding update_task
  queue_hash_map-update = rw l

  module _ (same_id : (f t).id ≡ t.id) (active : is_active t.state ≡ true) where
    mapped_self : IsSound s → 0 < occurrences p s → lookup (f t).id s.queue_hash_map ≡ some p
    mapped_self h pos = rw same_id (h.mapped p t pos l active)

    -- a task that is active, changed with its ID kept
    pub update-IsSound : IsSound s → IsSound (update_task f p s)
    update-IsSound h = record {
      in_heap = λ x pos. rw length-update (h.in_heap x (rw (occurrences-update x) at pos));
      once = λ x. rw (occurrences-update x) (h.once x);
      mapped = λ x u pos lu au. rw queue_hash_map-update (elim (Bool-cases (p == x)) [
        | inl e ↦
            ground (arith, e, mapped_self h, load-update_self, occurrences-update x, h.mapped x u)
        | inr ne ↦ ground (arith, ne, h.mapped x u, load-update_ne x, occurrences-update x)
      ]);
    }

settle-id : (r : Result (Unit {0})) (t : Task) → (settle r t).id ≡ t.id
unfolding settle
settle-id r t = ground arith

module _ {W H C : Type 0} (D : Deps W H C) (fuel : ℕ) where
  -- what the executor of the task returns
  abbrev pub returned : Task → System W → Result (Unit {0})
  returned t s = (process D fuel t s).0

  module _ (p : ℕ) (t : Task) (s : System W) (l : load s.sync p ≡ some t) where
    execute_lem : execute_task D fuel p s ≡ (
      verdict (returned t s) t,
      record ((process D fuel t s).1) {
        sync = update_task (settle (returned t s)) p (process D fuel t s).1.sync;
      },
    )
    unfolding execute_task
    execute_lem = rw l

    after_process : load (process D fuel t s).1.sync p ≡ some t
    after_process = ((process-Keeps D fuel t).at s).loads p t l

    -- its own task is settled by what the executor returned, and keeps its other fields
    pub load-execute_self : load (execute_task D fuel p s).1.sync p ≡ some (settle (returned t s) t)
    load-execute_self = rw execute_lem (load-update_self _ p t _ after_process)

    pub verdict-execute : (execute_task D fuel p s).0 ≡ verdict (returned t s) t
    verdict-execute = rw execute_lem

    -- every other task is as it was
    pub load-execute_ne :
        (x : ℕ) (u : Task)
        → p ≢ x
        → load s.sync x ≡ some u
        → load (execute_task D fuel p s).1.sync x ≡ some u
    load-execute_ne x u ne lu =
        rw execute_lem
          (load-update_ne _ p t _ after_process x ne ∙ ((process-Keeps D fuel t).at s).loads x u lu)

    -- Executing a task gives that task what its executor's result makes of it, returns the error that the
    -- result makes of it, and leaves every other task as it was.
    pub execute_task-own_task :
        (load (execute_task D fuel p s).1.sync p ≡ some (settle (returned t s) t))
        × ((execute_task D fuel p s).0 ≡ verdict (returned t s) t)
        × ((x : ℕ) (u : Task)
            → p ≢ x
            → load s.sync x ≡ some u
            → load (execute_task D fuel p s).1.sync x ≡ some u)
    execute_task-own_task = (load-execute_self, verdict-execute, load-execute_ne)

    pub execute-IsSound :
        is_active t.state ≡ true → IsSound s.sync → IsSound (execute_task D fuel p s).1.sync
    execute-IsSound active h = rw execute_lem (
        update-IsSound _ p t _ after_process (settle-id _ t) active
          (((process-Keeps D fuel t).at s).sound h))
