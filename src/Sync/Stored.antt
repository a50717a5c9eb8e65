-- ===== src/Sync/Stored.antt =====
-- core/textile/sync/queue.go: `storeQueue` and `restoreQueue`, which keep the queues over a restart.
use space_daemon.Exec.{Exec, lift, gets, ◌>>=◌}
use space_daemon.Outcome.{Result, ok, err, panic}
use space_daemon.Prelude.{
  ℕ, ◌<◌, ◌≡◌, ◌≢◌, ◌∙◌, refl, String, false, Option, some, none, List, [], ◌∷◌, ◌++◌, arith,
  length, Bool-cases, inl, inr, get_elem?-set_self, get_elem?-set_ne, get_elem?-append_last,
  get_elem?-append_left, get_elem?-lt,
}
use space_daemon.Sync.Deps.{System, inside, outside}
use space_daemon.Sync.Queue.{
  Node, QueueName, buckets, file_pinning, Synchronizer, load, store, alloc, enqueue_task,
  enqueue_at, is_task_enqueued, id_of,
}
use space_daemon.Sync.Sound.{heap-pushed}
use space_daemon.Sync.Task.{Task}

abbrev pub queue_store_key : String
queue_store_key = "TextileSyncTaskQueue"

pub record MarshalledQueue : Type 0 where
  pub queue_as_slice : List Task
  pub file_queue_as_slice : List Task

-- the store, and encoding/json on the queues
pub record QueueStore (W : Type 0) : Type 0 where
  pub st_get : String → Exec W String
  pub st_set : String → String → Exec W (Unit {0})
  pub marshal : MarshalledQueue → Result String
  pub unmarshal : String → Result MarshalledQueue

abbrev pub with_task : Option Task → Result (List Task) → Result (List Task)
with_task none rest = err panic
with_task (some t) rest = add rest
  where
    add : Result (List Task) → Result (List Task)
    add (ok ts) = ok (t ∷ ts)
    add (err e) = err e

-- the copies of the tasks that a queue points to
unfoldable pub as_slice : Synchronizer → List Node → Result (List Task)
as_slice s [] = ok []
as_slice s (n ∷ l) = with_task (load s n.task) (as_slice s l)

-- `s.enqueueTask(&el, queue)` for the other elements of a range: `el` is one variable, at `p`, which
-- each round overwrites
unfoldable pub restore_rest : ℕ → QueueName → List Task → Synchronizer → Synchronizer
unfolding store enqueue_task
restore_rest p q [] s = s
restore_rest p q (t ∷ ts) s = restore_rest p q ts (enqueue_task p q (store p t s))

unfoldable pub restore_slice : QueueName → List Task → Synchronizer → Synchronizer
unfolding restore_rest alloc
restore_slice q [] s = s
restore_slice q (t ∷ ts) s =
    let p = length s.heap in restore_rest p q ts (enqueue_task p q (alloc t s))

unfoldable pub restored : MarshalledQueue → Synchronizer → Synchronizer
unfolding restore_slice
restored m s =
    restore_slice file_pinning m.file_queue_as_slice (restore_slice buckets m.queue_as_slice s)

module _ {W : Type 0} (Q : QueueStore W) where
  unfoldable pub store_queue : Exec (System W) (Unit {0})
  unfolding as_slice
  store_queue = do
    tasks ← gets (λ s. as_slice s.sync s.sync.task_queue)
    queue_as_slice ← lift tasks
    file_tasks ← gets (λ s. as_slice s.sync s.sync.file_pinning_queue)
    file_queue_as_slice ← lift file_tasks
    marshalled ← lift (
        Q.marshal
          (record { queue_as_slice = queue_as_slice; file_queue_as_slice = file_queue_as_slice }))
    outside (Q.st_set queue_store_key marshalled)

  unfoldable pub restore_queue : Exec (System W) (Unit {0})
  unfolding restored
  restore_queue = do
    text ← outside (Q.st_get queue_store_key)
    queue ← lift (Q.unmarshal text)
    inside (restored queue)

-- every element of the list points to `p`
abbrev pub PointTo : ℕ → List Node → Type 0
PointTo p [] = Unit {0}
PointTo p (n ∷ l) = (n.task ≡ p) × PointTo p l

abbrev pub last_of : Task → List Task → Task
last_of t [] = t
last_of t (u ∷ ts) = last_of u ts

PointTo-push :
    (p k : ℕ) (l : List Node) → PointTo p l → PointTo p (l ++ (record { key = k; task = p } ∷ []))
PointTo-push p k [] h = (refl, tt)
PointTo-push p k (n ∷ l) h = (h.0, PointTo-push p k l h.1)

enqueue_task-PointTo :
    (p : ℕ) (s : Synchronizer)
    → PointTo p s.task_queue
    → PointTo p (enqueue_task p buckets s).task_queue
unfolding enqueue_task enqueue_at
enqueue_task-PointTo p s h = elim (Bool-cases (is_task_enqueued s (id_of (load s p)))) [
  | inl e ↦ rw e h
  | inr e ↦ rw e (PointTo-push p s.fresh_key s.task_queue h)
]

heap-enqueue_task : (p : ℕ) (q : QueueName) (s : Synchronizer) → (enqueue_task p q s).heap ≡ s.heap
unfolding enqueue_task enqueue_at
heap-enqueue_task p q s = elim (Bool-cases (is_task_enqueued s (id_of (load s p)))) [
  | inl e ↦ rw e refl
  | inr e ↦ rw e (heap-pushed s false p (id_of (load s p)) q)
]

task_queue-enqueue_file :
    (p : ℕ) (s : Synchronizer) → (enqueue_task p file_pinning s).task_queue ≡ s.task_queue
unfolding enqueue_task enqueue_at
task_queue-enqueue_file p s = elim (Bool-cases (is_task_enqueued s (id_of (load s p)))) [
  | inl e ↦ rw e refl
  | inr e ↦ rw e refl
]

restore_rest-last :
    (p : ℕ) (ts : List Task) (t : Task) (s : Synchronizer)
    → PointTo p s.task_queue
    → load s p ≡ some t
    → PointTo p (restore_rest p buckets ts s).task_queue
      × (load (restore_rest p buckets ts s) p ≡ some (last_of t ts))
unfolding restore_rest store
restore_rest-last p [] t s h l = (h, l)
restore_rest-last p (u ∷ ts) t s h l =
    let s' = store p u s in
    restore_rest-last p ts u (enqueue_task p buckets s') (enqueue_task-PointTo p s' h) (
      rw (heap-enqueue_task p buckets s') (get_elem?-set_self s.heap p u (get_elem?-lt s.heap p l)))

restore_rest-file :
    (p x : ℕ) (ts : List Task) (s : Synchronizer)
    → p ≢ x
    → ((restore_rest p file_pinning ts s).task_queue ≡ s.task_queue)
      × (load (restore_rest p file_pinning ts s) x ≡ load s x)
unfolding restore_rest store
restore_rest-file p x [] s ne = (refl, refl)
restore_rest-file p x (u ∷ ts) s ne =
    let s' = store p u s in
    let h = restore_rest-file p x ts (enqueue_task p file_pinning s') ne in
    (
      h.0 ∙ task_queue-enqueue_file p s',
      h.1 ∙ (rw (heap-enqueue_task p file_pinning s') (get_elem?-set_ne s.heap p x u ne)),
    )

restore_slice-file :
    (x : ℕ) (t : Task) (ts : List Task) (s : Synchronizer)
    → load s x ≡ some t
    → ((restore_slice file_pinning ts s).task_queue ≡ s.task_queue)
      × (load (restore_slice file_pinning ts s) x ≡ some t)
unfolding restore_slice alloc
restore_slice-file x t [] s l = (refl, l)
restore_slice-file x t (u ∷ ts) s l =
    let p = length s.heap in
    let lt : x < length s.heap = get_elem?-lt s.heap x l in
    let h =
      restore_rest-file p x ts (enqueue_task p file_pinning (alloc u s))
        (λ q. absurd (omega (arith, lt, q))) in
    (
      h.0 ∙ task_queue-enqueue_file p (alloc u s),
      h.1
          ∙ (rw (heap-enqueue_task p file_pinning (alloc u s))
              (get_elem?-append_left s.heap (u ∷ []) x lt ∙ l)),
    )

-- Restoring stored queues into an empty task queue leaves there pointers to one task alone, which is
-- the last task of the stored task queue, however many tasks were stored.
pub restored-last_task :
    (t : Task) (ts files : List Task) (s : Synchronizer)
    → s.task_queue ≡ []
    → let u = restored (record { queue_as_slice = t ∷ ts; file_queue_as_slice = files }) s in
      PointTo (length s.heap) u.task_queue × (load u (length s.heap) ≡ some (last_of t ts))
unfolding restored restore_slice alloc
restored-last_task t ts files s empty =
    let p = length s.heap in
    let s' = alloc t s in
    let none_yet : PointTo p s'.task_queue = rw empty tt in
    let first =
      restore_rest-last p ts t (enqueue_task p buckets s') (enqueue_task-PointTo p s' none_yet)
        (rw (heap-enqueue_task p buckets s') (get_elem?-append_last s.heap t)) in
    let second = restore_slice-file p (last_of t ts) files _ first.1 in
    (rw second.0 first.0, second.1)
