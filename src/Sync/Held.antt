-- ===== src/Sync/Held.antt =====
-- core/textile/sync/queue.go: that a task of a type and with its arguments stands in a queue, where the
-- map finds it by its ID.
use space_daemon.Prelude.{
  ℕ, ◌+◌, ◌<◌, String, ◌≡◌, ◌∙◌, sym, refl, Bool, true, false, some, List, length, arith, eq_iff,
  get_elem?-append_last, get_elem?-append_left, eq_refl, ap, length-append, [], ◌∷◌, Bool-cases,
  Option-cases, inl, inr, if◌then◌else◌, str_eq,
}
use space_daemon.Prelude.Map.{lookup, lookup-insert}
use space_daemon.Sync.Notify.{notify_sync_needed}
use space_daemon.Sync.Queue.{
  QueueName, Synchronizer, load, alloc, enqueue_at, enqueue_new, is_task_enqueued, pushed,
}
use space_daemon.Sync.Sound.{
  occurrences, occurrences-pushed, heap-pushed, queue_hash_map-pushed, load-alloc,
}
use space_daemon.Sync.Task.{Task, TaskType, task_id, is_active}

-- A task of this type and with these arguments is queued or pending, stands in a queue and is found
-- by its ID.
pub record Holds (c : TaskType) (args : List String) (s : Synchronizer) : Type 0 where
  pub pointer : ℕ
  pub task : Task
  pub mapped : lookup (task_id c args) s.queue_hash_map ≡ some pointer
  pub loaded : load s pointer ≡ some task
  pub active : is_active task.state ≡ true
  pub stands : 0 < occurrences pointer s
  pub typed : task.type ≡ c
  pub given : task.args ≡ args

-- The ID of the type and the arguments is theirs: what is queued or pending under it is such a task.
pub record IsOwn (c : TaskType) (args : List String) (s : Synchronizer) : Type 0 where
  pub holds : is_task_enqueued s (task_id c args) ≡ true → Holds c args s
  pub known : (p : ℕ) → lookup (task_id c args) s.queue_hash_map ≡ some p → p < length s.heap

module _ (c : TaskType) (args : List String) (s : Synchronizer) where
  Holds-enqueued : Holds c args s → is_task_enqueued s (task_id c args) ≡ true
  unfolding is_task_enqueued
  Holds-enqueued h = rw (h.mapped, h.loaded) h.active

  Holds-alloc : (t : Task) → Holds c args s → Holds c args (alloc t s)
  unfolding alloc occurrences
  Holds-alloc t h = record {
    pointer = h.pointer;
    task = h.task;
    mapped = h.mapped;
    loaded = load-alloc s t h.task h.pointer h.loaded;
    active = h.active;
    stands = h.stands;
    typed = h.typed;
    given = h.given;
  }

  enqueued-unallocated :
      (t : Task) (id : String)
      → ((p : ℕ) → lookup id s.queue_hash_map ≡ some p → p < length s.heap)
      → is_task_enqueued (alloc t s) id ≡ is_task_enqueued s id
  unfolding is_task_enqueued alloc
  enqueued-unallocated t id known = elim (Option-cases (lookup id s.queue_hash_map)) [
    | inl l ↦ rw l refl
    | inr (p, l) ↦ rw (l, get_elem?-append_left s.heap (t ∷ []) p (known p l)) refl
  ]

  Holds-pushed :
      (t : Task) (p : ℕ) (q : QueueName)
      → str_eq t.id (task_id c args) ≡ false
      → Holds c args s
      → Holds c args (pushed false p t.id q s)
  Holds-pushed t p q other h = record {
    pointer = h.pointer;
    task = h.task;
    mapped =
        rw (queue_hash_map-pushed s false p t.id q)
          (rw (lookup-insert t.id (task_id c args) p s.queue_hash_map, other) h.mapped);
    loaded = rw (heap-pushed s false p t.id q) h.loaded;
    active = h.active;
    stands = omega (arith, occurrences-pushed s false p t.id q h.pointer, h.stands);
    typed = h.typed;
    given = h.given;
  }

module _ (c : TaskType) (args : List String) (s : Synchronizer) (t : Task) (q : QueueName) where
  enqueue_new-elim :
      (P : Synchronizer → Type 0)
      → (is_task_enqueued (alloc t s) t.id ≡ true → P (alloc t s))
      → (is_task_enqueued (alloc t s) t.id ≡ false
          → P (pushed false (length s.heap) t.id q (alloc t s)))
      → P (enqueue_new t q s)
  unfolding enqueue_new enqueue_at
  enqueue_new-elim P old free =
      rw (get_elem?-append_last s.heap t) (elim (Bool-cases (is_task_enqueued (alloc t s) t.id)) [
        | inl e ↦ rw e (old e)
        | inr e ↦ rw e (free e)
      ])

  -- what is held stays so, whatever is enqueued
  pub Holds-later : Holds c args s → Holds c args (enqueue_new t q s)
  Holds-later h =
      let still = Holds-alloc c args s t h in
      enqueue_new-elim (Holds c args) (λ old. still)
        (λ free. elim (Bool-cases (str_eq t.id (task_id c args))) [
          | inr other ↦ Holds-pushed c args (alloc t s) t _ q other still
          | inl same ↦
              let e = (eq_iff t.id (task_id c args)).0 same in
              let busy = Holds-enqueued c args (alloc t s) still in absurd (cc (e, busy, free))
        ])

  pushed-Holds :
      t.id ≡ task_id c args
      → t.type ≡ c
      → t.args ≡ args
      → is_active t.state ≡ true
      → Holds c args (pushed false (length s.heap) t.id q (alloc t s))
  pushed-Holds same typed given active = record {
    pointer = length s.heap;
    task = t;
    mapped =
        rw
          (
            queue_hash_map-pushed (alloc t s) false (length s.heap) t.id q,
            lookup-insert t.id (task_id c args) (length s.heap) (alloc t s).queue_hash_map,
            same,
            eq_refl (task_id c args),
          )
          refl;
    loaded =
        rw (heap-pushed (alloc t s) false (length s.heap) t.id q)
          (unfold alloc in get_elem?-append_last s.heap t);
    active = active;
    stands =
        ground (arith, occurrences-pushed (alloc t s) false (length s.heap) t.id q (length s.heap));
    typed = typed;
    given = given;
  }

  -- enqueueing such a task makes the queues hold one
  pub Holds-enqueue_new :
      t.id ≡ task_id c args
      → t.type ≡ c
      → t.args ≡ args
      → is_active t.state ≡ true
      → IsOwn c args s
      → Holds c args (enqueue_new t q s)
  Holds-enqueue_new same typed given active own =
      enqueue_new-elim (Holds c args)
        (λ old.
          let moved = ap (is_task_enqueued (alloc t s)) (sym same) ∙ old in
          Holds-alloc c args s t
            (own.holds (sym (enqueued-unallocated c args s t (task_id c args) own.known) ∙ moved)))
        (λ free. pushed-Holds same typed given active)

  IsOwn-alloc : IsOwn c args s → IsOwn c args (alloc t s)
  IsOwn-alloc own = record {
    holds = λ e.
        Holds-alloc c args s t
          (own.holds (sym (enqueued-unallocated c args s t (task_id c args) own.known) ∙ e));
    known = unfold alloc in λ p l. omega (arith, own.known p l, length-append s.heap (t ∷ []));
  }

  enqueued-pushed :
      (u : Synchronizer) (p : ℕ)
      → str_eq t.id (task_id c args) ≡ false
      → is_task_enqueued (pushed false p t.id q u) (task_id c args)
        ≡ is_task_enqueued u (task_id c args)
  unfolding is_task_enqueued
  enqueued-pushed u p other =
      rw
        (
          queue_hash_map-pushed u false p t.id q,
          heap-pushed u false p t.id q,
          lookup-insert t.id (task_id c args) p u.queue_hash_map,
          other,
        )
        refl

  -- enqueueing a task of another ID changes nothing of that
  pub IsOwn-later :
      str_eq t.id (task_id c args) ≡ false → IsOwn c args s → IsOwn c args (enqueue_new t q s)
  IsOwn-later other own =
      let still = IsOwn-alloc own in
      enqueue_new-elim (IsOwn c args) (λ old. still)
        (λ free. record {
          holds = λ e.
              Holds-pushed c args (alloc t s) t _ q other
                (still.holds (sym (enqueued-pushed (alloc t s) _ other) ∙ e));
          known = λ p l. rw (heap-pushed (alloc t s) false (length s.heap) t.id q) (
              still.known p (
                rw
                  (
                    queue_hash_map-pushed (alloc t s) false (length s.heap) t.id q,
                    lookup-insert t.id (task_id c args) (length s.heap) (alloc t s).queue_hash_map,
                    other,
                  )
                  at l));
        })

in_both :
    (P : Synchronizer → Type 0) (b : Bool) (s t : Synchronizer) → P s → P t → P (if b then s else t)
in_both P true s t h k = h
in_both P false s t h k = k

module _ (c : TaskType) (args : List String) where
  Holds-offered :
      (s : Synchronizer) (n : ℕ) → Holds c args s → Holds c args (record s { sync_offers = n })
  unfolding occurrences
  Holds-offered s n h = record {
    pointer = h.pointer;
    task = h.task;
    mapped = h.mapped;
    loaded = h.loaded;
    active = h.active;
    stands = h.stands;
    typed = h.typed;
    given = h.given;
  }

  -- an offer to the loops changes neither
  pub Holds-notify : (s : Synchronizer) → Holds c args s → Holds c args (notify_sync_needed s)
  unfolding notify_sync_needed
  Holds-notify s h = in_both (Holds c args) s.is_running _ s (Holds-offered s _ h) h

  IsOwn-offered :
      (s : Synchronizer) (n : ℕ) → IsOwn c args s → IsOwn c args (record s { sync_offers = n })
  unfolding is_task_enqueued
  IsOwn-offered s n own = record { holds = λ e. Holds-offered s n (own.holds e); known = own.known }

  pub IsOwn-notify : (s : Synchronizer) → IsOwn c args s → IsOwn c args (notify_sync_needed s)
  unfolding notify_sync_needed
  IsOwn-notify s own =
      in_both (IsOwn c args) s.is_running _ s (IsOwn-offered s (s.sync_offers + 1) own) own
