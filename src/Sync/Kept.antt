-- ===== src/Sync/Kept.antt =====
-- What the tasks of core/textile/sync may do to the queues while they run: they allocate and enqueue
-- new tasks, and touch no task that is there.
pub mod Rules
pub mod Calls
pub mod Tasks
use space_daemon.Exec.Follows.{IsPreorder}
use space_daemon.Prelude.{
  ℕ, ◌+◌, ◌≡◌, refl, ◌∙◌, Bool, true, false, some, List, String, length, get_elem?-append_last,
  if◌then◌else◌, Bool-cases, Option-cases, inl, inr, arith, eq_iff,
}
use space_daemon.Prelude.Map.{lookup, lookup-insert}
use space_daemon.Sync.Deps.{System}
use space_daemon.Sync.Notify.{
  notify_sync_needed, notify_item_added, notify_item_removed, notify_bucket_created,
  notify_bucket_backup_on, notify_bucket_backup_off, notify_bucket_restore, notify_file_restore,
  notify_bucket_startup, notify_index_item_added,
}
use space_daemon.Sync.Queue.{
  QueueName, Synchronizer, load, alloc, enqueue_at, enqueue_new, enqueue_new_at_front,
  is_task_enqueued, pushed,
}
use space_daemon.Sync.Sound.{
  IsSound, occurrences, heap-pushed, queue_hash_map-pushed, load-alloc, enqueue_new-IsSound,
  enqueue_new_at_front-IsSound,
}
use space_daemon.Sync.Task.{Task}

pub record Kept (s u : Synchronizer) : Type 0 where
  pub sound : IsSound s → IsSound u
  pub loads : (p : ℕ) (t : Task) → load s p ≡ some t → load u p ≡ some t
  pub enqueued : (id : String) → is_task_enqueued s id ≡ true → is_task_enqueued u id ≡ true

pub Kept-refl : (s : Synchronizer) → Kept s s
Kept-refl s = record { sound = λ h. h; loads = λ p t l. l; enqueued = λ id e. e }

pub Kept-trans : {s t u : Synchronizer} → Kept s t → Kept t u → Kept s u
Kept-trans h k = record {
  sound = λ i. k.sound (h.sound i);
  loads = λ p t l. k.loads p t (h.loads p t l);
  enqueued = λ id e. k.enqueued id (h.enqueued id e);
}

load-enqueue_at :
    (s : Synchronizer) (front : Bool) (x : ℕ) (t u : Task) (q : QueueName) (p : ℕ)
    → load s p ≡ some u
    → load (enqueue_at front x t.id q s) p ≡ some u
unfolding enqueue_at
load-enqueue_at s front x t u q p l = elim (Bool-cases (is_task_enqueued s t.id)) [
  | inl e ↦ rw e l
  | inr e ↦ rw e (rw (heap-pushed s front x t.id q) l)
]

-- what is enqueued stays so while the map and the tasks do
pub enqueued-alloc :
    (s : Synchronizer) (t : Task) (id : String)
    → is_task_enqueued s id ≡ true
    → is_task_enqueued (alloc t s) id ≡ true
unfolding is_task_enqueued alloc
enqueued-alloc s t id e = elim (Option-cases (lookup id s.queue_hash_map)) [
  | inl l ↦ ground (arith, l, e)
  | inr (p, l) ↦ elim (Option-cases (load s p)) [
    | inl m ↦ ground (arith, l, m, e)
    | inr (u, m) ↦ ground (arith, l, m, e, load-alloc s t u p m)
  ]
]

enqueued-enqueue_at :
    (s : Synchronizer) (front : Bool) (x : ℕ) (t : Task) (q : QueueName) (id : String)
    → is_task_enqueued s id ≡ true
    → is_task_enqueued (enqueue_at front x t.id q s) id ≡ true
unfolding enqueue_at
enqueued-enqueue_at s front x t q id e = elim (Bool-cases (is_task_enqueued s t.id)) [
  | inl old ↦ rw old e
  | inr free ↦ rw free (
      unfold is_task_enqueued in
      rw (queue_hash_map-pushed s front x t.id q, heap-pushed s front x t.id q)
        (ground (arith, lookup-insert t.id id x s.queue_hash_map, eq_iff t.id id, free, e)))
]

pub enqueue_new-Kept : (t : Task) (q : QueueName) (s : Synchronizer) → Kept s (enqueue_new t q s)
enqueue_new-Kept t q s = record {
  sound = enqueue_new-IsSound s t q;
  loads = λ p u l.
      unfold enqueue_new in
      rw (get_elem?-append_last s.heap t)
        (load-enqueue_at (alloc t s) false (length s.heap) t u q p (load-alloc s t u p l));
  enqueued = λ id e.
      unfold enqueue_new in
      rw (get_elem?-append_last s.heap t)
        (enqueued-enqueue_at (alloc t s) false (length s.heap) t q id (enqueued-alloc s t id e));
}

pub enqueue_new_at_front-Kept :
    (t : Task) (q : QueueName) (s : Synchronizer) → Kept s (enqueue_new_at_front t q s)
enqueue_new_at_front-Kept t q s = record {
  sound = enqueue_new_at_front-IsSound s t q;
  loads = λ p u l.
      unfold enqueue_new_at_front in
      rw (get_elem?-append_last s.heap t)
        (load-enqueue_at (alloc t s) true (length s.heap) t u q p (load-alloc s t u p l));
  enqueued = λ id e.
      unfold enqueue_new_at_front in
      rw (get_elem?-append_last s.heap t)
        (enqueued-enqueue_at (alloc t s) true (length s.heap) t q id (enqueued-alloc s t id e));
}

-- an offer changes neither queue nor task
offered-IsSound : (s : Synchronizer) (n : ℕ) → IsSound s → IsSound (record s { sync_offers = n })
unfolding occurrences
offered-IsSound s n h = record { in_heap = h.in_heap; once = h.once; mapped = h.mapped }

Kept-if : (b : Bool) (s t u : Synchronizer) → Kept s t → Kept s u → Kept s (if b then t else u)
Kept-if true s t u h k = h
Kept-if false s t u h k = k

pub notify_sync_needed-Kept : (s : Synchronizer) → Kept s (notify_sync_needed s)
unfolding notify_sync_needed
notify_sync_needed-Kept s =
    Kept-if s.is_running s _ s
      (record {
        sound = offered-IsSound s (s.sync_offers + 1);
        loads = λ p t l. l;
        enqueued = unfold is_task_enqueued in λ id e. e;
      })
      (Kept-refl s)

-- one task, and an offer
announced-Kept :
    (t : Task) (q : QueueName) (s : Synchronizer) → Kept s (notify_sync_needed (enqueue_new t q s))
announced-Kept t q s = Kept-trans (enqueue_new-Kept t q s) (notify_sync_needed-Kept _)

pub notify_item_added-Kept :
    (bucket path : String) (s : Synchronizer) → Kept s (notify_item_added bucket path s)
unfolding notify_item_added
notify_item_added-Kept bucket path s = announced-Kept _ _ s

pub notify_item_removed-Kept :
    (bucket path : String) (s : Synchronizer) → Kept s (notify_item_removed bucket path s)
unfolding notify_item_removed
notify_item_removed-Kept bucket path s = announced-Kept _ _ s

pub notify_bucket_created-Kept :
    (bucket : String) (enckey : List ℕ) (s : Synchronizer)
    → Kept s (notify_bucket_created bucket enckey s)
unfolding notify_bucket_created
notify_bucket_created-Kept bucket enckey s = announced-Kept _ _ s

pub notify_bucket_backup_on-Kept :
    (bucket : String) (s : Synchronizer) → Kept s (notify_bucket_backup_on bucket s)
unfolding notify_bucket_backup_on
notify_bucket_backup_on-Kept bucket s = announced-Kept _ _ s

pub notify_bucket_backup_off-Kept :
    (bucket : String) (s : Synchronizer) → Kept s (notify_bucket_backup_off bucket s)
unfolding notify_bucket_backup_off
notify_bucket_backup_off-Kept bucket s = announced-Kept _ _ s

pub notify_bucket_restore-Kept :
    (bucket : String) (s : Synchronizer) → Kept s (notify_bucket_restore bucket s)
unfolding notify_bucket_restore
notify_bucket_restore-Kept bucket s = announced-Kept _ _ s

pub notify_file_restore-Kept :
    (bucket path : String) (s : Synchronizer) → Kept s (notify_file_restore bucket path s)
unfolding notify_file_restore
notify_file_restore-Kept bucket path s = announced-Kept _ _ s

pub notify_bucket_startup-Kept :
    (bucket : String) (s : Synchronizer) → Kept s (notify_bucket_startup bucket s)
unfolding notify_bucket_startup
notify_bucket_startup-Kept bucket s =
    Kept-trans (notify_bucket_restore-Kept bucket s)
      (Kept-trans (notify_bucket_backup_on-Kept bucket _) (notify_sync_needed-Kept _))

pub notify_index_item_added-Kept :
    (bucket path db_id : String) (s : Synchronizer)
    → Kept s (notify_index_item_added bucket path db_id s)
unfolding notify_index_item_added
notify_index_item_added-Kept bucket path db_id s = announced-Kept _ _ s

module _ {W : Type 0} where
  -- the relation between the systems before and after an action
  abbrev pub KeptIn : System W → System W → Type 0
  KeptIn a b = Kept a.sync b.sync

  pub KeptIn-preorder : IsPreorder KeptIn
  KeptIn-preorder = record { same = λ s. Kept-refl s.sync; trans = λ h k. Kept-trans h k }
