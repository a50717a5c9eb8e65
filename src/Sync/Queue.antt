-- ===== src/Sync/Queue.antt =====
-- core/textile/sync/queue.go: the two queues of tasks and the map of tasks by ID. Tasks are shared
-- by pointer between the queues, the map and the loops, so they live in a heap.
use space_daemon.Prelude.{
  ℕ, ◌+◌, String, Bool, true, false, Option, none, some, List, [], ◌∷◌, ◌++◌, length, get_elem?,
  set, ◌==◌, if◌then◌else◌,
}
use space_daemon.Prelude.Map.{Map, lookup, insert, delete}
use space_daemon.Sync.Task.{Task, is_active}

-- an element of a `container/list` list: `key` tells elements apart, `task` is a pointer
pub record Node : Type 0 where
  pub key : ℕ
  pub task : ℕ

pub data QueueName : Type 0 where
  buckets file_pinning : QueueName

-- The fields of `synchronizer` that change. `heap` holds every task that was allocated, the pointer
-- `p` being its position; `fresh_key` is the next list element; `sync_offers` counts the
-- non-blocking sends on `syncNeeded`, which a loop that waits there receives.
pub record Synchronizer : Type 0 where
  pub heap : List Task
  pub fresh_key : ℕ
  pub task_queue : List Node
  pub file_pinning_queue : List Node
  pub queue_hash_map : Map ℕ
  pub is_running : Bool
  pub sync_offers : ℕ
  -- eventNotifier != nil
  pub has_notifier : Bool

-- `New`
abbrev pub new_synchronizer : Synchronizer
new_synchronizer = record {
  heap = [];
  fresh_key = 0;
  task_queue = [];
  file_pinning_queue = [];
  queue_hash_map = [];
  is_running = false;
  sync_offers = 0;
  has_notifier = false;
}

abbrev pub nodes : QueueName → Synchronizer → List Node
nodes buckets s = s.task_queue
nodes file_pinning s = s.file_pinning_queue

abbrev pub set_nodes : QueueName → List Node → Synchronizer → Synchronizer
set_nodes buckets l s = record s { task_queue = l }
set_nodes file_pinning l s = record s { file_pinning_queue = l }

-- *p
abbrev pub load : Synchronizer → ℕ → Option Task
load s p = get_elem? s.heap p

-- *p = t
unfoldable pub store : ℕ → Task → Synchronizer → Synchronizer
store p t s = record s { heap = set s.heap p t }

-- &Task{…}
unfoldable pub alloc : Task → Synchronizer → Synchronizer
alloc t s = record s { heap = s.heap ++ (t ∷ []) }

abbrev pub active_at : Option Task → Bool
active_at none = false
active_at (some t) = is_active t.state

abbrev pub enqueued_at : Synchronizer → Option ℕ → Bool
enqueued_at s none = false
enqueued_at s (some p) = active_at (load s p)

unfoldable pub is_task_enqueued : Synchronizer → String → Bool
is_task_enqueued s id = enqueued_at s (lookup id s.queue_hash_map)

-- queue.PushBack, queue.PushFront
abbrev pub push : Bool → Node → List Node → List Node
push false n l = l ++ (n ∷ [])
push true n l = n ∷ l

abbrev pub pushed : Bool → ℕ → String → QueueName → Synchronizer → Synchronizer
pushed front p id q s =
    let s' = set_nodes q (push front (record { key = s.fresh_key; task = p }) (nodes q s)) s in
    record s' { fresh_key = s.fresh_key + 1; queue_hash_map = insert id p s.queue_hash_map }

-- `enqueueTask` and, where `front` is true, `enqueueTaskAtFront`, in one step: they take no lock, so
-- that in the program two callers may both see that the ID is free.
unfoldable pub enqueue_at : Bool → ℕ → String → QueueName → Synchronizer → Synchronizer
enqueue_at front p id q s = if is_task_enqueued s id then s else pushed front p id q s

-- the task that `p` points to
abbrev pub id_of : Option Task → String
id_of none = ""
id_of (some t) = t.id

unfoldable pub enqueue_task : ℕ → QueueName → Synchronizer → Synchronizer
unfolding enqueue_at is_task_enqueued
enqueue_task p q s = enqueue_at false p (id_of (load s p)) q s

unfoldable pub enqueue_task_at_front : ℕ → QueueName → Synchronizer → Synchronizer
unfolding enqueue_at is_task_enqueued
enqueue_task_at_front p q s = enqueue_at true p (id_of (load s p)) q s

-- t := newTask(…); s.enqueueTask(t, queue)
unfoldable pub enqueue_new : Task → QueueName → Synchronizer → Synchronizer
unfolding alloc enqueue_task
enqueue_new t q s = enqueue_task (length s.heap) q (alloc t s)

unfoldable pub enqueue_new_at_front : Task → QueueName → Synchronizer → Synchronizer
unfolding alloc enqueue_task_at_front
enqueue_new_at_front t q s = enqueue_task_at_front (length s.heap) q (alloc t s)

-- queue.Remove: nothing is removed where the element belongs to another list
unfoldable pub remove_node : ℕ → List Node → List Node
remove_node k [] = []
remove_node k (n ∷ l) = if n.key == k then l else n ∷ remove_node k l

-- What `dequeueTask(queue)` does at a queue with a first element: that element is removed from the
-- task queue, whichever queue it was read from. With an empty queue the code dereferences nil.
dequeue_first : List Node → Synchronizer → Option (ℕ × Synchronizer)
unfolding remove_node
dequeue_first [] s = none
dequeue_first (n ∷ l) s = some (
  n.task,
  record s {
    task_queue = remove_node n.key s.task_queue;
    queue_hash_map = delete (id_of (load s n.task)) s.queue_hash_map;
  },
)

unfoldable pub dequeue_task : QueueName → Synchronizer → Option (ℕ × Synchronizer)
unfolding dequeue_first
dequeue_task q s = dequeue_first (nodes q s) s
