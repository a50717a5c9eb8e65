-- ===== src/Sync/Loop/Cleanup.antt =====
-- The end of a pass of `sync` in core/textile/sync: what is taken out of the queue.
use space_daemon.Prelude.{
  ℕ, ◌≤◌, ◌≡◌, refl, List, [], ◌∷◌, arith, ◌==◌, ==_iff, if◌then◌else◌, Bool-cases, inl, inr, ap,
}
use space_daemon.Sync.Loop.{unfinished, clean_up, finished_at}
use space_daemon.Sync.Queue.{Node, QueueName, buckets, file_pinning, Synchronizer, nodes, load}
use space_daemon.Sync.Sound.{IsSound, count_task, occurrences}

pub count_task-unfinished :
    (s : Synchronizer) (p : ℕ) (l : List Node)
    → count_task p (unfinished s l) ≡ (if finished_at (load s p) then 0 else count_task p l)
unfolding count_task unfinished
count_task-unfinished s p [] = ground arith
count_task-unfinished s p (n ∷ l) = elim (Bool-cases (n.task == p)) [
  | inl e ↦
      let q = (==_iff n.task p).0 e in
      ground (arith, count_task-unfinished s p l, ap (λ (x : ℕ). finished_at (load s x)) q)
  | inr ne ↦ ground (arith, count_task-unfinished s p l, ne)
]

-- A finished task leaves its queue; every other task stands in it as often as before.
count_task-clean_up :
    (q : QueueName) (s : Synchronizer) (p : ℕ)
    → count_task p (nodes q (clean_up q s))
      ≡ (if finished_at (load s p) then 0 else count_task p (nodes q s))
unfolding clean_up
count_task-clean_up buckets s p = count_task-unfinished s p s.task_queue
count_task-clean_up file_pinning s p = count_task-unfinished s p s.file_pinning_queue

occurrences-clean_up :
    (q : QueueName) (s : Synchronizer) (p : ℕ) → occurrences p (clean_up q s) ≤ occurrences p s
unfolding clean_up occurrences
occurrences-clean_up buckets s p = ground (arith, count_task-unfinished s p s.task_queue)
occurrences-clean_up file_pinning s p =
    ground (arith, count_task-unfinished s p s.file_pinning_queue)

pub load-clean_up : (q : QueueName) (s : Synchronizer) (p : ℕ) → load (clean_up q s) p ≡ load s p
unfolding clean_up
load-clean_up buckets s p = refl
load-clean_up file_pinning s p = refl

fewer-IsSound :
    (s u : Synchronizer)
    → ((p : ℕ) → occurrences p u ≤ occurrences p s)
    → u.heap ≡ s.heap
    → u.queue_hash_map ≡ s.queue_hash_map
    → IsSound s
    → IsSound u
fewer-IsSound s u fewer heap hash h = record {
  in_heap = λ p pos. rw heap (h.in_heap p (omega (arith, fewer p)));
  once = λ p. omega (arith, fewer p, h.once p);
  mapped =
      λ p t pos l active. rw hash (h.mapped p t (omega (arith, fewer p)) (rw heap at l) active);
}

pub clean_up-IsSound : (q : QueueName) (s : Synchronizer) → IsSound s → IsSound (clean_up q s)
clean_up-IsSound q s =
    fewer-IsSound s (clean_up q s) (occurrences-clean_up q s) (unfold clean_up in same_heap q)
      (unfold clean_up in same_map q)
  where
    same_heap : (q : QueueName) → (clean_up q s).heap ≡ s.heap
    same_heap buckets = unfold clean_up in refl
    same_heap file_pinning = unfold clean_up in refl

    same_map : (q : QueueName) → (clean_up q s).queue_hash_map ≡ s.queue_hash_map
    same_map buckets = unfold clean_up in refl
    same_map file_pinning = unfold clean_up in refl
