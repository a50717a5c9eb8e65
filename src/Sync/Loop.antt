-- ===== src/Sync/Loop.antt =====
-- core/textile/sync/synchronizer.go: `executeTask`, and the passes that `sync` makes over a queue.
-- A pass runs beside the goroutines that it starts, so it is a machine: one step is one turn of the
-- pass's loop, and the execution of a goroutine is one step too.
pub mod Execute
pub mod Cleanup
use space_daemon.Exec.{Exec}
use space_daemon.Outcome.{Result, ok, err, Err, panic, max_retries_surpassed}
use space_daemon.Prelude.{
  ℕ, zero, suc, ◌+◌, ◌-◌, Bool, true, false, not, Option, none, some, List, [], ◌∷◌, ◌++◌, ltb,
  ◌==◌, ◌&&◌, if◌then◌else◌,
}
use space_daemon.Sync.Deps.{Deps, System}
use space_daemon.Sync.Executors.{process}
use space_daemon.Sync.Queue.{Node, QueueName, Synchronizer, nodes, set_nodes, load, store}
use space_daemon.Sync.Task.{
  Task, TaskState, queued, pending, succeeded, dequeued, is_queued, surpassed,
}

abbrev pub is_panic : Err → Bool
is_panic panic = true
is_panic _ = false

-- The task once its executor has returned, in one step: `taskFailed`, which a failed task has before
-- it is queued again, is not seen by another goroutine here.
unfoldable pub settle : Result (Unit {0}) → Task → Task
unfolding surpassed
settle (ok a) t = record t { state = succeeded }
settle (err e) t = if is_panic e then t else record t {
  state = if surpassed t.max_retries (t.retries + 1) then dequeued else queued;
  retries = t.retries + 1;
}

-- the error that `executeTask` returns
unfoldable pub verdict : Result (Unit {0}) → Task → Result (Unit {0})
unfolding surpassed
verdict (ok a) t = ok a
verdict (err e) t =
    if not (is_panic e) && surpassed t.max_retries (t.retries + 1)
    then err max_retries_surpassed
    else err e

abbrev changed : (Task → Task) → ℕ → Option Task → Synchronizer → Synchronizer
changed f p none s = s
changed f p (some t) s = store p (f t) s

-- f(p)
unfoldable pub update_task : (Task → Task) → ℕ → Synchronizer → Synchronizer
unfolding store
update_task f p s = changed f p (load s p) s

abbrev pub max_parallel_tasks : ℕ
max_parallel_tasks = 16

-- where a loop is: between passes, at an element of the queue (or at its end), or at `ptWg.Wait()`
pub data Phase : Type 0 where
  idle : Phase
  visiting : Option ℕ → Phase
  waiting : Phase

-- a goroutine that was started and has not finished, and the pass that started it
pub record Worker : Type 0 where
  pub task : ℕ
  pub pass : ℕ

-- one of the two loops of `Start`; the passes are numbered, and `parallel_task_count` is that of the
-- pass `number`
pub record Loop : Type 0 where
  pub phase : Phase
  pub number : ℕ
  pub parallel_task_count : ℕ
  pub workers : List Worker

-- queue.Front(), curr.Next()
unfoldable pub front : List Node → Option ℕ
front [] = none
front (n ∷ l) = some n.key

unfoldable pub next_key : ℕ → List Node → Option ℕ
unfolding front
next_key k [] = none
next_key k (n ∷ l) = if n.key == k then front l else next_key k l

-- curr.Value
unfoldable pub task_at : ℕ → List Node → Option ℕ
task_at k [] = none
task_at k (n ∷ l) = if n.key == k then some n.task else task_at k l

abbrev pub is_finished : TaskState → Bool
is_finished succeeded = true
is_finished dequeued = true
is_finished _ = false

abbrev pub finished_at : Option Task → Bool
finished_at none = false
finished_at (some t) = is_finished t.state

-- the last loop of `sync`
unfoldable pub unfinished : Synchronizer → List Node → List Node
unfinished s [] = []
unfinished s (n ∷ l) =
    let rest = unfinished s l in if finished_at (load s n.task) then rest else n ∷ rest

unfoldable pub clean_up : QueueName → Synchronizer → Synchronizer
unfolding unfinished
clean_up q s = set_nodes q (unfinished s (nodes q s)) s

-- the goroutines that `ptWg` counts for the pass `number`
unfoldable pub running : ℕ → List Worker → ℕ
running number [] = 0
running number (w ∷ ws) = (if w.pass == number then 1 else 0) + running number ws

abbrev pub State : Type 0 → Type 0
State W = System W × Loop

abbrev pub go_to : {W : Type 0} → Phase → Loop → System W → State W
go_to phase l s = (s, record l { phase = phase })

-- task.State = taskPending
abbrev pub mark_pending : Task → Task
mark_pending t = record t { state = pending }

module _ {W H C : Type 0} (D : Deps W H C) (fuel : ℕ) where
  unfoldable pub execute_loaded : ℕ → Option Task → Exec (System W) (Unit {0})
  unfolding update_task settle verdict
  execute_loaded p none s = (err panic, s)
  execute_loaded p (some t) s =
      let (r, s') = process D fuel t s in
      (verdict r t, record s' { sync = update_task (settle r) p s'.sync })

  -- `executeTask` of the task that `p` points to
  unfoldable pub execute_task : ℕ → Exec (System W) (Unit {0})
  unfolding execute_loaded
  execute_task p s = execute_loaded p (load s.sync p) s

  -- curr = curr.Next()
  abbrev pub advance : QueueName → ℕ → Loop → System W → State W
  advance q k l s = go_to (visiting (next_key k (nodes q s.sync))) l s

  abbrev pub after_inline : QueueName → ℕ → Loop → Result (Unit {0}) × System W → State W
  after_inline q k l (ok a, s) = advance q k l s
  after_inline q k l (err e, s) = go_to idle l s

  unfoldable pub start_or_execute : QueueName → ℕ → ℕ → Bool → Loop → System W → State W
  start_or_execute q k p true l s =
      advance q k
        (record l {
          parallel_task_count = l.parallel_task_count + 1;
          workers = record { task = p; pass = l.number } ∷ l.workers;
        })
        s
  start_or_execute q k p false l s = after_inline q k l (execute_task p s)

  -- the body of the loop at an element whose task is `t`
  unfoldable pub visit_task : QueueName → ℕ → ℕ → Task → Loop → System W → State W
  unfolding start_or_execute update_task
  visit_task q k p t l s =
      if is_queued t.state
      then start_or_execute q k p (t.parallelizable && ltb l.parallel_task_count max_parallel_tasks)
          l (record s { sync = update_task mark_pending p s.sync })
      else advance q k l s

  unfoldable pub visit_loaded : QueueName → ℕ → ℕ → Option Task → Loop → System W → State W
  unfolding visit_task
  visit_loaded q k p none l s = go_to waiting l s
  visit_loaded q k p (some t) l s = visit_task q k p t l s

  unfoldable pub visit : QueueName → ℕ → Option ℕ → Loop → System W → State W
  unfolding visit_loaded
  visit q k none l s = go_to waiting l s
  visit q k (some p) l s = visit_loaded q k p (load s.sync p) l s

  unfoldable pub main_phase : QueueName → Phase → Loop → System W → State W
  unfolding visit clean_up
  main_phase q idle l s = (
    s,
    record l {
      phase = visiting (front (nodes q s.sync));
      number = l.number + 1;
      parallel_task_count = 0;
    },
  )
  main_phase q (visiting none) l s = go_to waiting l s
  main_phase q (visiting (some k)) l s = visit q k (task_at k (nodes q s.sync)) l s
  main_phase q waiting l s =
      if running l.number l.workers == 0
      then go_to idle l (record s { sync = clean_up q s.sync })
      else (s, l)

  -- one turn of the loop over the queue
  unfoldable pub main_step : QueueName → State W → State W
  unfolding main_phase
  main_step q (s, l) = main_phase q l.phase l s

  unfoldable pub finish : Worker → List Worker → Loop → System W → State W
  finish w others l s =
      let (r, s') = execute_task w.task s in
      (
        s',
        record l {
          parallel_task_count =
              if w.pass == l.number then l.parallel_task_count - 1 else l.parallel_task_count;
          workers = others;
        },
      )

  unfoldable pub pick : ℕ → List Worker → List Worker → Loop → System W → State W
  unfolding finish
  pick i before [] l s = (s, l)
  pick zero before (w ∷ ws) l s = finish w (before ++ ws) l s
  pick (suc i) before (w ∷ ws) l s = pick i (before ++ (w ∷ [])) ws l s

  -- the goroutine at position `i` runs
  unfoldable pub worker_step : ℕ → State W → State W
  unfolding pick
  worker_step i (s, l) = pick i [] l.workers l s
