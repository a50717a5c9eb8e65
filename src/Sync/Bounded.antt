-- ===== src/Sync/Bounded.antt =====
-- How many goroutines a pass of core/textile/sync starts.
use space_daemon.Prelude.{
  ℕ, zero, suc, ◌+◌, ◌≤◌, ◌<◌, ◌≡◌, refl, Bool, true, false, Option, none, some, List, [], ◌∷◌,
  ◌++◌, arith, ◌==◌, if◌then◌else◌, Bool-cases, Option-cases, inl, inr,
}
use mathlib.Core.List.{append_assoc}
use space_daemon.Outcome.{Result, ok, err}
use space_daemon.Sync.Deps.{Deps, System}
use space_daemon.Sync.Loop.{
  Loop, Worker, State, Phase, idle, visiting, waiting, max_parallel_tasks, execute_task,
  start_or_execute, visit_task, visit_loaded, visit, main_phase, main_step, finish, pick,
  worker_step, after_inline, running,
}
use space_daemon.Sync.Machine.{
  Machine, Choice, turn, goroutine, notified, step, run, start, new_loop, loop_of,
}
use space_daemon.Sync.Queue.{QueueName, buckets, file_pinning, load}
use space_daemon.Sync.Task.{Task, is_queued}

-- no goroutine is of a pass that is still to come
abbrev NoneLater : ℕ → List Worker → Type 0
NoneLater n [] = Unit
NoneLater n (w ∷ ws) = (w.pass ≤ n) × NoneLater n ws

pub record IsBounded (l : Loop) : Type 0 where
  pub counted : l.parallel_task_count ≡ running l.number l.workers
  pub bounded : l.parallel_task_count ≤ max_parallel_tasks
  pub none_later : NoneLater l.number l.workers

running-append : (n : ℕ) (xs ys : List Worker) → running n (xs ++ ys) ≡ running n xs + running n ys
unfolding running
running-append n [] ys = omega arith
running-append n (x ∷ xs) ys = omega (arith, running-append n xs ys)

running-taken :
    (n : ℕ) (xs ys : List Worker) (w : Worker)
    → running n (xs ++ w ∷ ys) ≡ (if w.pass == n then 1 else 0) + running n (xs ++ ys)
running-taken n xs ys w =
    rw (running-append n xs (w ∷ ys), running-append n xs ys) (unfold running in omega arith)

NoneLater-remove :
    (n : ℕ) (xs ys : List Worker) (w : Worker) → NoneLater n (xs ++ w ∷ ys) → NoneLater n (xs ++ ys)
NoneLater-remove n [] ys w h = h.1
NoneLater-remove n (x ∷ xs) ys w h = (h.0, NoneLater-remove n xs ys w h.1)

NoneLater-suc : (n : ℕ) (ws : List Worker) → NoneLater n ws → NoneLater (n + 1) ws
NoneLater-suc n [] h = tt
NoneLater-suc n (w ∷ ws) h = (omega (arith, h.0), NoneLater-suc n ws h.1)

-- a new pass has no goroutine yet
running-suc : (n : ℕ) (ws : List Worker) → NoneLater n ws → running (n + 1) ws ≡ 0
unfolding running
running-suc n [] h = refl
running-suc n (w ∷ ws) h = ground (arith, running-suc n ws h.1, h.0)

module _ {W H C : Type 0} (D : Deps W H C) (fuel : ℕ) where
  abbrev IsBoundedState : State W → Type 0
  IsBoundedState st = IsBounded st.1

  same-IsBounded : (l : Loop) (phase : Phase) → IsBounded l → IsBounded (record l { phase = phase })
  same-IsBounded l phase h = record {
    counted = h.counted;
    bounded = h.bounded;
    none_later = h.none_later;
  }

  after_inline-IsBounded :
      (q : QueueName) (k : ℕ) (l : Loop) (r : Result (Unit {0})) (s : System W)
      → IsBounded l
      → IsBoundedState (after_inline D fuel q k l (r, s))
  after_inline-IsBounded q k l (ok a) s h = same-IsBounded l _ h
  after_inline-IsBounded q k l (err e) s h = same-IsBounded l _ h

  start_or_execute-IsBounded :
      (q : QueueName) (k p : ℕ) (b : Bool) (l : Loop) (s : System W)
      → IsBounded l
      → (b ≡ true → l.parallel_task_count < max_parallel_tasks)
      → IsBoundedState (start_or_execute D fuel q k p b l s)
  unfolding start_or_execute
  start_or_execute-IsBounded q k p true l s h room = record {
    counted = unfold running in ground (arith, h.counted);
    bounded = omega (arith, room refl);
    none_later = (omega arith, h.none_later);
  }
  start_or_execute-IsBounded q k p false l s h room =
      let (r, s') = execute_task D fuel p s in after_inline-IsBounded q k l r s' h

  visit_task-IsBounded :
      (q : QueueName) (k p : ℕ) (t : Task) (l : Loop) (s : System W)
      → IsBounded l
      → IsBoundedState (visit_task D fuel q k p t l s)
  unfolding visit_task
  visit_task-IsBounded q k p t l s h = elim (Bool-cases (is_queued t.state)) [
    | inl e ↦ rw e (start_or_execute-IsBounded q k p _ l _ h (λ b. ground (arith, b)))
    | inr e ↦ rw e (same-IsBounded l _ h)
  ]

  visit-IsBounded :
      (q : QueueName) (k : ℕ) (o : Option ℕ) (l : Loop) (s : System W)
      → IsBounded l
      → IsBoundedState (visit D fuel q k o l s)
  unfolding visit visit_loaded
  visit-IsBounded q k none l s h = same-IsBounded l _ h
  visit-IsBounded q k (some p) l s h = elim (Option-cases (load s.sync p)) [
    | inl e ↦ rw e (same-IsBounded l _ h)
    | inr (t, e) ↦ rw e (visit_task-IsBounded q k p t l s h)
  ]

  main_phase-IsBounded :
      (q : QueueName) (phase : Phase) (l : Loop) (s : System W)
      → IsBounded l
      → IsBoundedState (main_phase D fuel q phase l s)
  unfolding main_phase
  main_phase-IsBounded q idle l s h = record {
    counted = ground (arith, running-suc l.number l.workers h.none_later);
    bounded = omega arith;
    none_later = NoneLater-suc l.number l.workers h.none_later;
  }
  main_phase-IsBounded q (visiting none) l s h = same-IsBounded l _ h
  main_phase-IsBounded q (visiting (some k)) l s h = visit-IsBounded q k _ l s h
  main_phase-IsBounded q waiting l s h = elim (Bool-cases (running l.number l.workers == 0)) [
    | inl e ↦ rw e (same-IsBounded l _ h)
    | inr e ↦ rw e h
  ]

  pick-IsBounded :
      (i : ℕ) (before after : List Worker) (l : Loop) (s : System W)
      → IsBounded l
      → l.workers ≡ before ++ after
      → IsBoundedState (pick D fuel i before after l s)
  unfolding pick finish
  pick-IsBounded i before [] l s h e = h
  pick-IsBounded zero before (w ∷ after) l s h e =
      let c : l.parallel_task_count ≡ running l.number (before ++ w ∷ after) = rw (← e) h.counted in
      record {
        counted = ground (arith, c, running-taken l.number before after w);
        bounded = ground (arith, h.bounded);
        none_later = NoneLater-remove l.number before after w (rw e at h.none_later);
      }
  pick-IsBounded (suc i) before (w ∷ after) l s h e =
      pick-IsBounded i (before ++ (w ∷ [])) after l s h (rw (append_assoc before (w ∷ []) after) e)

  main_step-IsBounded :
      (q : QueueName) (st : State W) → IsBoundedState st → IsBoundedState (main_step D fuel q st)
  unfolding main_step
  main_step-IsBounded q (s, l) h = main_phase-IsBounded q l.phase l s h

  worker_step-IsBounded :
      (i : ℕ) (st : State W) → IsBoundedState st → IsBoundedState (worker_step D fuel i st)
  unfolding worker_step
  worker_step-IsBounded i (s, l) h = pick-IsBounded i [] l.workers l s h refl

  abbrev BothBounded : Machine W → Type 0
  BothBounded m = IsBounded m.buckets_loop × IsBounded m.file_loop

  step-BothBounded : (c : Choice) (m : Machine W) → BothBounded m → BothBounded (step D fuel c m)
  unfolding step
  step-BothBounded (turn buckets) m h = (main_step-IsBounded buckets _ h.0, h.1)
  step-BothBounded (turn file_pinning) m h = (h.0, main_step-IsBounded file_pinning _ h.1)
  step-BothBounded (goroutine buckets i) m h = (worker_step-IsBounded i _ h.0, h.1)
  step-BothBounded (goroutine file_pinning i) m h = (h.0, worker_step-IsBounded i _ h.1)
  step-BothBounded (notified n) m h = h

  run-BothBounded :
      (cs : List Choice) (m : Machine W) → BothBounded m → BothBounded (run D fuel cs m)
  unfolding run
  run-BothBounded [] m h = h
  run-BothBounded (c ∷ cs) m h = run-BothBounded cs (step D fuel c m) (step-BothBounded c m h)

new_loop-IsBounded : IsBounded new_loop
new_loop-IsBounded = record {
  counted = unfold running in refl;
  bounded = omega arith;
  none_later = tt;
}

-- From a start of the synchronizer, after any steps of the loops, their goroutines and the calls that
-- announce changes, the counter of each loop's last pass is the number of goroutines of that pass
-- that have not finished, and it is at most 16.
pub run-bounded_goroutines :
    {W H C : Type 0} (D : Deps W H C) (fuel : ℕ) (s : System W) (cs : List Choice) (q : QueueName)
    → let l = loop_of q (run D fuel cs (start s)) in
      (l.parallel_task_count ≡ running l.number l.workers) × (running l.number l.workers ≤ 16)
run-bounded_goroutines D fuel s cs buckets =
    let h =
      (run-BothBounded D fuel cs (start s)
        (unfold start in (new_loop-IsBounded, new_loop-IsBounded))).0 in
    (h.counted, omega (arith, h.counted, h.bounded))
run-bounded_goroutines D fuel s cs file_pinning =
    let h =
      (run-BothBounded D fuel cs (start s)
        (unfold start in (new_loop-IsBounded, new_loop-IsBounded))).1 in
    (h.counted, omega (arith, h.counted, h.bounded))
