-- ===== src/Sync/Retries.antt =====
-- `MaxRetries` of core/textile/sync/synchronizer.go: how often a task that fails is executed.
use space_daemon.Outcome.{Result, ok, err}
use space_daemon.Prelude.{
  ℕ, zero, suc, ◌+◌, ◌≡◌, refl, Bool, true, false, List, [], ◌∷◌, some, arith, length, pos,
  if◌then◌else◌, Bool-cases, inl, inr,
}
use space_daemon.Prelude.Tests.{ltb}
use space_daemon.Sync.Deps.{Deps, System}
use space_daemon.Sync.Loop.{settle, is_panic, execute_task}
use space_daemon.Sync.Loop.Execute.{returned, load-execute_self}
use space_daemon.Sync.Queue.{load}
use space_daemon.Sync.Task.{Task, TaskState, queued, dequeued, surpassed}

abbrev has_failed : Result (Unit {0}) → Bool
has_failed (ok a) = false
has_failed (err e) = if is_panic e then false else true

unfoldable pub all_failed : List (Result (Unit {0})) → Bool
all_failed [] = true
all_failed (r ∷ rs) = if has_failed r then all_failed rs else false

-- the task after executions with these results
settled : List (Result (Unit {0})) → Task → Task
settled [] t = t
settled (r ∷ rs) t = settled rs (settle r t)

abbrev state_after : ℕ → ℕ → TaskState
state_after limit n = if ltb limit n then dequeued else queued

record HasFailed (limit n : ℕ) (t : Task) : Type 0 where
  pub limited : t.max_retries ≡ pos limit
  pub counted : t.retries ≡ n
  pub state : t.state ≡ state_after limit n

settle-HasFailed :
    (limit n : ℕ) (r : Result (Unit {0})) (t : Task)
    → has_failed r ≡ true
    → HasFailed limit n t
    → HasFailed limit (suc n) (settle r t)
unfolding settle surpassed
settle-HasFailed limit n (ok a) t f h = ground (arith, f)
settle-HasFailed limit n (err e) t f h = elim (Bool-cases (is_panic e)) [
  | inl p ↦ ground (arith, f, p)
  | inr p ↦ rw p (record {
    limited = h.limited;
    counted = omega (arith, h.counted);
    state = rw (h.limited, h.counted) (ground arith);
  })
]

settled-HasFailed :
    (limit n : ℕ) (rs : List (Result (Unit {0}))) (t : Task)
    → all_failed rs ≡ true
    → HasFailed limit n t
    → HasFailed limit (n + length rs) (settled rs t)
unfolding all_failed settled
settled-HasFailed limit n [] t f h = let e : n + 0 ≡ n = omega arith in rw e h
settled-HasFailed limit n (r ∷ rs) t f h = elim (Bool-cases (has_failed r)) [
  | inl e ↦
      let shift : n + suc (length rs) ≡ suc n + length rs = omega arith in
      let rest : all_failed rs ≡ true = ground (arith, f, e) in
      rw shift
        (settled-HasFailed limit (suc n) rs (settle r t) rest (settle-HasFailed limit n r t e h))
  | inr e ↦ ground (arith, f, e)
]

module _ {W H C : Type 0} (D : Deps W H C) (fuel p : ℕ) where
  -- `n` executions of the task that `p` points to, one after the other
  unfoldable pub executed : ℕ → System W → System W
  executed zero s = s
  executed (suc n) s = executed n (execute_task D fuel p s).1

  -- what the executor returned in each of them
  unfoldable pub outcomes : ℕ → Task → System W → List (Result (Unit {0}))
  outcomes zero t s = []
  outcomes (suc n) t s =
      let r = returned D fuel t s in r ∷ outcomes n (settle r t) (execute_task D fuel p s).1

  length-outcomes : (n : ℕ) (t : Task) (s : System W) → length (outcomes n t s) ≡ n
  unfolding outcomes
  length-outcomes zero t s = refl
  length-outcomes (suc n) t s =
      let rest = length-outcomes n (settle (returned D fuel t s) t) (execute_task D fuel p s).1 in
      omega (arith, rest)

  load-executed :
      (n : ℕ) (t : Task) (s : System W)
      → load s.sync p ≡ some t
      → load (executed n s).sync p ≡ some (settled (outcomes n t s) t)
  unfolding executed outcomes settled
  load-executed zero t s l = l
  load-executed (suc n) t s l = load-executed n _ _ (load-execute_self D fuel p t s l)

  -- A queued task that has not failed yet and may be retried `limit` times, executed `n` times with an
  -- executor that returned an error each time: it counts `n` retries and is queued again while `n` is
  -- at most `limit`, and dequeued beyond.
  pub executed-retries :
      (limit n : ℕ) (t : Task) (s : System W)
      → load s.sync p ≡ some t
      → t.max_retries ≡ pos limit
      → t.retries ≡ 0
      → t.state ≡ queued
      → all_failed (outcomes n t s) ≡ true
      → (u : Task) × (load (executed n s).sync p ≡ some u)
        × (u.retries ≡ n)
        × (u.state ≡ (if ltb limit n then dequeued else queued))
  executed-retries limit n t s l m r q f =
      let h : HasFailed limit 0 t = record {
        limited = m;
        counted = r;
        state = rw q (ground arith);
      } in
      let k = settled-HasFailed limit 0 (outcomes n t s) t f h in
      let e = length-outcomes n t s in
      let z : 0 + length (outcomes n t s) ≡ n = omega (arith, e) in
      (_, load-executed n t s l, omega (arith, k.counted, e), rw z at k.state)
