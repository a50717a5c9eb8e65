-- ===== src/Sync/Sound.antt =====
-- What holds of the queues and the map of core/textile/sync between two of the model's steps, in runs that
-- start with empty queues.
use space_daemon.Prelude.{
  ℕ, ◌+◌, ◌≤◌, ◌<◌, ◌≡◌, refl, sym, ◌∙◌, Bool, true, false, some, List, [], ◌∷◌, ◌++◌, length,
  get_elem?-append_left, get_elem?-append_last, length-append, get_elem?-lt, arith, ◌==◌, eq_iff,
  if◌then◌else◌, Bool-cases, inl, inr, String,
}
use space_daemon.Prelude.Map.{lookup, insert, lookup-insert}
use space_daemon.Sync.Queue.{
  Node, QueueName, buckets, file_pinning, Synchronizer, load, alloc, enqueue_at, enqueue_new,
  enqueue_new_at_front, is_task_enqueued, pushed,
}
use space_daemon.Sync.Task.{Task, is_active}

-- how often a task stands in a queue
unfoldable pub count_task : ℕ → List Node → ℕ
count_task p [] = 0
count_task p (n ∷ l) = (if n.task == p then 1 else 0) + count_task p l

-- how often it stands in the two queues
unfoldable pub occurrences : ℕ → Synchronizer → ℕ
occurrences p s = count_task p s.task_queue + count_task p s.file_pinning_queue

pub record IsSound (s : Synchronizer) : Type 0 where
  pub in_heap : (p : ℕ) → 0 < occurrences p s → p < length s.heap
  pub once : (p : ℕ) → occurrences p s ≤ 1
  -- a task that is queued or pending is the one that the map holds under its ID
  pub mapped :
      (p : ℕ) (t : Task)
      → 0 < occurrences p s
      → load s p ≡ some t
      → is_active t.state ≡ true
      → lookup t.id s.queue_hash_map ≡ some p

pub count_task-append :
    (p : ℕ) (xs ys : List Node) → count_task p (xs ++ ys) ≡ count_task p xs + count_task p ys
unfolding count_task
count_task-append p [] ys = omega arith
count_task-append p (x ∷ xs) ys = omega (arith, count_task-append p xs ys)

-- the front or the back of a queue, after a push of the task `x`
pub count_task-push :
    (p k x : ℕ) (l : List Node)
    → count_task p (l ++ record { key = k; task = x } ∷ [])
      ≡ count_task p l + (if x == p then 1 else 0)
count_task-push p k x l = rw count_task-append (unfold count_task in omega arith)

module _ (s : Synchronizer) where
  pub occurrences-pushed :
      (front : Bool) (x : ℕ) (id : String) (q : QueueName) (p : ℕ)
      → occurrences p (pushed front x id q s) ≡ occurrences p s + (if x == p then 1 else 0)
  unfolding occurrences
  occurrences-pushed false x id buckets p =
      omega (arith, count_task-push p s.fresh_key x s.task_queue)
  occurrences-pushed false x id file_pinning p =
      omega (arith, count_task-push p s.fresh_key x s.file_pinning_queue)
  occurrences-pushed true x id buckets p = unfold count_task in omega arith
  occurrences-pushed true x id file_pinning p = unfold count_task in omega arith

  pub heap-pushed :
      (front : Bool) (x : ℕ) (id : String) (q : QueueName) → (pushed front x id q s).heap ≡ s.heap
  heap-pushed front x id buckets = refl
  heap-pushed front x id file_pinning = refl

  pub queue_hash_map-pushed :
      (front : Bool) (x : ℕ) (id : String) (q : QueueName)
      → (pushed front x id q s).queue_hash_map ≡ insert id x s.queue_hash_map
  queue_hash_map-pushed front x id buckets = refl
  queue_hash_map-pushed front x id file_pinning = refl

  -- a task that is in no queue, pushed where the map has no active task of its ID
  module _ (h : IsSound s) (front : Bool) (x : ℕ) (t : Task) (q : QueueName)
      (loaded : load s x ≡ some t) (absent : occurrences x s ≡ 0)
      (free : is_task_enqueued s t.id ≡ false) where
    mapped_after :
        (p : ℕ) (u : Task)
        → 0 < occurrences p (pushed front x t.id q s)
        → load s p ≡ some u
        → is_active u.state ≡ true
        → lookup u.id (insert t.id x s.queue_hash_map) ≡ some p
    unfolding is_task_enqueued
    mapped_after p u pos l active = ground (
      arith,
      lookup-insert t.id u.id x s.queue_hash_map,
      eq_iff t.id u.id,
      occurrences-pushed front x t.id q p,
      h.mapped p u,
    )

    pushed-IsSound : IsSound (pushed front x t.id q s)
    pushed-IsSound = record {
      in_heap = λ p pos. rw (heap-pushed front x t.id q) (
          ground (
            arith,
            occurrences-pushed front x t.id q p,
            h.in_heap p,
            get_elem?-lt s.heap x loaded,
          ));
      once = λ p. ground (arith, occurrences-pushed front x t.id q p, h.once p);
      mapped = λ p u pos l active.
          rw (queue_hash_map-pushed front x t.id q)
            (mapped_after p u pos (rw (heap-pushed front x t.id q) at l) active);
    }

-- an allocation changes no task that is there
pub load-alloc :
    (s : Synchronizer) (t u : Task) (p : ℕ) → load s p ≡ some u → load (alloc t s) p ≡ some u
unfolding alloc
load-alloc s t u p l = get_elem?-append_left s.heap (t ∷ []) p (get_elem?-lt s.heap p l) ∙ l

alloc-IsSound : (s : Synchronizer) (t : Task) → IsSound s → IsSound (alloc t s)
unfolding alloc occurrences
alloc-IsSound s t h = record {
  in_heap = λ p pos. omega (arith, h.in_heap p pos, length-append s.heap (t ∷ []));
  once = h.once;
  mapped = λ p u pos l active.
      h.mapped p u pos (sym (get_elem?-append_left s.heap (t ∷ []) p (h.in_heap p pos)) ∙ l) active;
}

fresh-absent :
    (s : Synchronizer) (t : Task) → IsSound s → occurrences (length s.heap) (alloc t s) ≡ 0
unfolding alloc occurrences
fresh-absent s t h = ground (arith, h.in_heap (length s.heap))

enqueue_at-IsSound :
    (s : Synchronizer) (front : Bool) (t : Task) (q : QueueName)
    → IsSound s
    → IsSound (enqueue_at front (length s.heap) t.id q (alloc t s))
unfolding enqueue_at
enqueue_at-IsSound s front t q h = elim (Bool-cases (is_task_enqueued (alloc t s) t.id)) [
  | inl e ↦ rw e (alloc-IsSound s t h)
  | inr free ↦ rw free (
      pushed-IsSound (alloc t s) (alloc-IsSound s t h) front (length s.heap) t q
        (unfold alloc in get_elem?-append_last s.heap t) (fresh-absent s t h) free)
]

-- enqueueing a new task keeps the queues sound
pub enqueue_new-IsSound :
    (s : Synchronizer) (t : Task) (q : QueueName) → IsSound s → IsSound (enqueue_new t q s)
unfolding enqueue_new
enqueue_new-IsSound s t q h = rw (get_elem?-append_last s.heap t) (enqueue_at-IsSound s false t q h)

pub enqueue_new_at_front-IsSound :
    (s : Synchronizer) (t : Task) (q : QueueName) → IsSound s → IsSound (enqueue_new_at_front t q s)
unfolding enqueue_new_at_front
enqueue_new_at_front-IsSound s t q h =
    rw (get_elem?-append_last s.heap t) (enqueue_at-IsSound s true t q h)
