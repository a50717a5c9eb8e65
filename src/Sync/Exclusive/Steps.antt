-- ===== src/Sync/Exclusive/Steps.antt =====
-- Each step of a loop of core/textile/sync keeps the tasks exclusive.
use mathlib.Core.List.{append_assoc}
use space_daemon.Outcome.{Result, ok, err}
use space_daemon.Prelude.{
  ℕ, zero, suc, ◌+◌, ◌≡◌, refl, Bool, true, false, Option, none, some, List, [], ◌∷◌, ◌++◌, arith,
  ◌==◌, ==_iff, if◌then◌else◌, Bool-cases, Option-cases, inl, inr,
}
use space_daemon.Sync.Deps.{Deps, System}
use space_daemon.Sync.Exclusive.{busy, busy-append, IsExclusive, busy_pending, changed-IsExclusive}
use space_daemon.Sync.Loop.{
  Loop, Worker, State, Phase, idle, visiting, waiting, mark_pending, update_task, execute_task,
  start_or_execute, visit_task, visit_loaded, visit, main_phase, main_step, finish, pick,
  worker_step, clean_up, after_inline, running,
}
use space_daemon.Sync.Loop.Execute.{
  load-update_self, load-update_ne, update-IsSound, load-execute_ne, execute-IsSound,
}
use space_daemon.Sync.Loop.Cleanup.{clean_up-IsSound, load-clean_up}
use space_daemon.Sync.Queue.{QueueName, Synchronizer, load}
use space_daemon.Sync.Task.{Task, TaskState, queued, pending, is_active, is_queued}

module _ (others : ℕ → ℕ) where
  abbrev pub IsExclusiveState : {W : Type 0} → State W → Type 0
  IsExclusiveState (s, l) = IsExclusive others s.sync l.workers

  queued_state : (t : TaskState) → is_queued t ≡ true → (t ≡ queued) × (is_active t ≡ true)
  queued_state t h = ground arith

  module _ (ws : List Worker) (s : Synchronizer) (h : IsExclusive others s ws) where
    -- marking a queued task
    marked-IsExclusive :
        (p : ℕ) (t : Task)
        → load s p ≡ some t
        → is_queued t.state ≡ true
        → IsExclusive others (update_task mark_pending p s) ws × (others p + busy p ws ≡ 0)
    marked-IsExclusive p t l q =
        let (e, active) = queued_state t.state q in
        let idle_task = busy_pending others ws s h p t l (λ (e' : t.state ≡ pending). cc) in
        (
          changed-IsExclusive others ws s h p _ idle_task
              (update-IsSound mark_pending p t s l refl active h.sound)
              (λ x u ne lu. rw (load-update_ne mark_pending p t s l x ne) lu),
          idle_task,
        )

    -- a goroutine for a task that is pending and has none
    started-IsExclusive :
        (p n : ℕ) (t : Task)
        → load s p ≡ some t
        → t.state ≡ pending
        → others p + busy p ws ≡ 0
        → IsExclusive others s (record { task = p; pass = n } ∷ ws)
    unfolding busy
    started-IsExclusive p n t l e none_busy = record {
      sound = h.sound;
      single = λ x. ground (arith, h.single x);
      is_pending = λ x pos. elim (Bool-cases (p == x)) [
        | inl q ↦ (t, rw (← (==_iff p x).0 q) l, e)
        | inr ne ↦ h.is_pending x (ground (arith, ne, pos))
      ];
    }

  -- the same goroutines, whatever else of the loop changes
  module _ {W H C : Type 0} (D : Deps W H C) (fuel : ℕ) where
    -- a task that is active and has no goroutine, executed
    executed-IsExclusive :
        (ws : List Worker) (s : System W) (p : ℕ) (t : Task)
        → IsExclusive others s.sync ws
        → load s.sync p ≡ some t
        → is_active t.state ≡ true
        → others p + busy p ws ≡ 0
        → IsExclusive others (execute_task D fuel p s).1.sync ws
    executed-IsExclusive ws s p t h l active none_busy =
        changed-IsExclusive others ws s.sync h p _ none_busy
          (execute-IsSound D fuel p t s l active h.sound)
          (λ x u ne lu. load-execute_ne D fuel p t s l x u ne lu)

    after_inline-IsExclusive :
        (q : QueueName) (k : ℕ) (l : Loop) (r : Result (Unit {0})) (s : System W)
        → IsExclusive others s.sync l.workers
        → IsExclusiveState (after_inline D fuel q k l (r, s))
    after_inline-IsExclusive q k l (ok a) s h = h
    after_inline-IsExclusive q k l (err e) s h = h

    start_or_execute-IsExclusive :
        (q : QueueName) (k p : ℕ) (b : Bool) (l : Loop) (s : System W) (t : Task)
        → IsExclusive others s.sync l.workers
        → load s.sync p ≡ some t
        → t.state ≡ pending
        → others p + busy p l.workers ≡ 0
        → IsExclusiveState (start_or_execute D fuel q k p b l s)
    unfolding start_or_execute
    start_or_execute-IsExclusive q k p true l s t h lt e none_busy =
        started-IsExclusive l.workers s.sync h p l.number t lt e none_busy
    start_or_execute-IsExclusive q k p false l s t h lt e none_busy =
        let (r, s') = execute_task D fuel p s in
        after_inline-IsExclusive q k l r s'
          (executed-IsExclusive l.workers s p t h lt (rw e) none_busy)

    visit_task-IsExclusive :
        (q : QueueName) (k p : ℕ) (t : Task) (l : Loop) (s : System W)
        → IsExclusive others s.sync l.workers
        → load s.sync p ≡ some t
        → IsExclusiveState (visit_task D fuel q k p t l s)
    unfolding visit_task
    visit_task-IsExclusive q k p t l s h lt = elim (Bool-cases (is_queued t.state)) [
      | inl e ↦
          let (marked, none_busy) = marked-IsExclusive l.workers s.sync h p t lt e in
          rw e (
            start_or_execute-IsExclusive q k p _ l _ (mark_pending t) marked
              (load-update_self mark_pending p t s.sync lt) refl none_busy)
      | inr e ↦ rw e h
    ]

    visit-IsExclusive :
        (q : QueueName) (k : ℕ) (o : Option ℕ) (l : Loop) (s : System W)
        → IsExclusive others s.sync l.workers
        → IsExclusiveState (visit D fuel q k o l s)
    unfolding visit visit_loaded
    visit-IsExclusive q k none l s h = h
    visit-IsExclusive q k (some p) l s h = elim (Option-cases (load s.sync p)) [
      | inl e ↦ rw e h
      | inr (t, e) ↦ rw e (visit_task-IsExclusive q k p t l s h e)
    ]

    clean_up-IsExclusive :
        (q : QueueName) (s : Synchronizer) (ws : List Worker)
        → IsExclusive others s ws
        → IsExclusive others (clean_up q s) ws
    clean_up-IsExclusive q s ws h = record {
      sound = clean_up-IsSound q s h.sound;
      single = h.single;
      is_pending =
          λ p pos. let (t, l, e) = h.is_pending p pos in (t, rw (load-clean_up q s p) l, e);
    }

    main_phase-IsExclusive :
        (q : QueueName) (phase : Phase) (l : Loop) (s : System W)
        → IsExclusive others s.sync l.workers
        → IsExclusiveState (main_phase D fuel q phase l s)
    unfolding main_phase
    main_phase-IsExclusive q idle l s h = h
    main_phase-IsExclusive q (visiting none) l s h = h
    main_phase-IsExclusive q (visiting (some k)) l s h = visit-IsExclusive q k _ l s h
    main_phase-IsExclusive q waiting l s h = elim (Bool-cases (running l.number l.workers == 0)) [
      | inl e ↦ rw e (clean_up-IsExclusive q s.sync l.workers h)
      | inr e ↦ rw e h
    ]

    pub main_step-IsExclusive :
        (q : QueueName) (st : State W)
        → IsExclusiveState st
        → IsExclusiveState (main_step D fuel q st)
    unfolding main_step
    main_step-IsExclusive q (s, l) h = main_phase-IsExclusive q l.phase l s h

    -- a goroutine that is taken out of the list
    busy-taken :
        (x : ℕ) (before after : List Worker) (w : Worker)
        → busy x (before ++ w ∷ after) ≡ (if w.task == x then 1 else 0) + busy x (before ++ after)
    busy-taken x before after w =
        rw (busy-append x before (w ∷ after), busy-append x before after)
          (unfold busy in omega arith)

    taken-IsExclusive :
        (before after : List Worker) (w : Worker) (s : Synchronizer)
        → IsExclusive others s (before ++ w ∷ after)
        → IsExclusive others s (before ++ after)
    taken-IsExclusive before after w s h = record {
      sound = h.sound;
      single = λ x. ground (arith, h.single x, busy-taken x before after w);
      is_pending = λ x pos. h.is_pending x (ground (arith, busy-taken x before after w, pos));
    }

    taken_alone :
        (before after : List Worker) (w : Worker) (s : Synchronizer)
        → IsExclusive others s (before ++ w ∷ after)
        → others w.task + busy w.task (before ++ after) ≡ 0
    taken_alone before after w s h =
        ground (arith, h.single w.task, busy-taken w.task before after w)

    taken_pending :
        (before after : List Worker) (w : Worker) (s : Synchronizer)
        → IsExclusive others s (before ++ w ∷ after)
        → (t : Task) × (load s w.task ≡ some t) × (t.state ≡ pending)
    taken_pending before after w s h =
        h.is_pending w.task (ground (arith, busy-taken w.task before after w))

    pick-IsExclusive :
        (i : ℕ) (before after : List Worker) (l : Loop) (s : System W)
        → IsExclusive others s.sync (before ++ after)
        → l.workers ≡ before ++ after
        → IsExclusiveState (pick D fuel i before after l s)
    unfolding pick finish
    pick-IsExclusive i before [] l s h e = rw e h
    pick-IsExclusive zero before (w ∷ after) l s h e =
        let (t, lt, p) = taken_pending before after w s.sync h in
        executed-IsExclusive (before ++ after) s w.task t
          (taken-IsExclusive before after w s.sync h) lt (rw p)
          (taken_alone before after w s.sync h)
    pick-IsExclusive (suc i) before (w ∷ after) l s h e =
        pick-IsExclusive i (before ++ (w ∷ [])) after l s
          (rw (append_assoc before (w ∷ []) after) h) (rw (append_assoc before (w ∷ []) after) e)

    pub worker_step-IsExclusive :
        (i : ℕ) (st : State W) → IsExclusiveState st → IsExclusiveState (worker_step D fuel i st)
    unfolding worker_step
    worker_step-IsExclusive i (s, l) h = pick-IsExclusive i [] l.workers l s h refl
