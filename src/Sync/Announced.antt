-- ===== src/Sync/Announced.antt =====
-- Which tasks the executor of an added file, in core/textile/sync/task-executors.go, leaves enqueued.
pub mod Created
pub mod Restored
use space_daemon.Bucket.{DirEntries}
use space_daemon.Exec.{Exec, pure, when, attempt, ◌>>=◌, ◌>>◌}
use space_daemon.Outcome.{Result, ok, err}
use Prim.Native.String.append
use space_daemon.Prelude.Text.{strip, strip-append, join}
use space_daemon.Prelude.{
  ℕ, String, Bool, true, false, Option, none, some, List, [], ◌∷◌, ◌≡◌, refl, str_eq, Bool-cases,
  inl, inr, eq_iff, ap, sym, ◌∙◌, ◌<>◌,
}
use space_daemon.Sync.Deps.{
  Deps, System, FileInfo, FileEventType, MirrorFileSchema, outside, inside,
}
use space_daemon.Sync.Executors.{
  process, process_type, process_add_item, check_task_type, arg, item_was_added,
}
use space_daemon.Sync.Held.{
  Holds, IsOwn, Holds-later, Holds-enqueue_new, IsOwn-later, Holds-notify, IsOwn-notify,
}
use space_daemon.Sync.Mirror.{save_backup, set_mirror_file_backup}
use space_daemon.Sync.Notify.{notify_sync_needed, notify_index_item_added}
use space_daemon.Sync.Queue.{Synchronizer, buckets, file_pinning, enqueue_new}
use space_daemon.Sync.Restore.{send_event}
use space_daemon.Sync.Steady.{
  Steady, Leaves, Leaves-Steady, Leaves-inside, Leaves-bind, steady_rules,
}
use space_daemon.Sync.Task.{new_task, type_text, task_id, pin_file, add_item, add_index_item}

pin_index-strip : (x : String) → strip "PIN_FILE" ("ADD_INDEX_ITEM" <> x) ≡ none
unfolding strip
pin_index-strip x = ap (strip "PIN_FILE") (append.cons "A" "DD_INDEX_ITEM" x)

-- a task that pins a file has another ID than one for the index
pin_index-ne :
    (xs ys : List String) → str_eq (task_id pin_file xs) (task_id add_index_item ys) ≡ false
unfolding task_id type_text
pin_index-ne xs ys = elim (Bool-cases (str_eq (task_id pin_file xs) (task_id add_index_item ys))) [
  | inr e ↦ e
  | inl e ↦
      let stripped =
        sym (strip-append "PIN_FILE" ("_" <> join "_" xs))
        ∙ ap (strip "PIN_FILE") ((eq_iff _ _).0 e)
        ∙ pin_index-strip ("_" <> join "_" ys) in
      absurd (cc stripped)
]

module _ {W H C : Type 0} (D : Deps W H C) where
  save_backup-Steady :
      (path slug : String) (b : Bool) (o : Option MirrorFileSchema)
      → Steady (save_backup D path slug b o)
  save_backup-Steady path slug b none = search steady_rules
  save_backup-Steady path slug b (some mf) = search steady_rules

  set_mirror_file_backup-Steady :
      (path slug : String) (b : Bool) → Steady (set_mirror_file_backup D path slug b)
  unfolding set_mirror_file_backup
  set_mirror_file_backup-Steady path slug b = search (steady_rules, save_backup-Steady)

  pub send_event-Steady :
      (r : Result DirEntries) (f : FileInfo → FileInfo) (path : String) (type : FileEventType)
      (bucket id : String)
      → Steady (send_event D r f path type bucket id)
  unfolding send_event
  send_event-Steady (err e) f path type bucket id = record { at = λ s. refl }
  send_event-Steady (ok e) f path type bucket id = record {
    at = λ s. elim (Bool-cases s.sync.has_notifier) [ inl b ↦ rw b refl | inr b ↦ rw b refl ];
  }

  module _ (bucket path : String) where
    abbrev pinned : List String
    pinned = bucket ∷ path ∷ []

    abbrev indexed : List String
    indexed = bucket ∷ path ∷ "" ∷ []

    abbrev Before : Synchronizer → Type 0
    Before s = IsOwn pin_file pinned s × IsOwn add_index_item indexed s

    abbrev Between : Synchronizer → Type 0
    Between s = Holds pin_file pinned s × IsOwn add_index_item indexed s

    abbrev After : Synchronizer → Type 0
    After s = Holds pin_file pinned s × Holds add_index_item indexed s

    pinning :
        (s : Synchronizer)
        → Before s
        → Between (enqueue_new (new_task pin_file pinned) file_pinning s)
    unfolding new_task
    pinning s (pin, index) = (
      Holds-enqueue_new pin_file pinned s _ file_pinning refl refl refl refl pin,
      IsOwn-later add_index_item indexed s _ file_pinning (pin_index-ne pinned indexed) index,
    )

    indexing : (s : Synchronizer) → Between s → After (notify_index_item_added bucket path "" s)
    unfolding notify_index_item_added new_task
    indexing s (pin, index) = (
      Holds-notify pin_file pinned _ (Holds-later pin_file pinned s _ buckets pin),
      Holds-notify add_index_item indexed _
          (Holds-enqueue_new add_index_item indexed s _ buckets refl refl refl refl index),
    )

    item_was_added-Leaves : Leaves Before After (item_was_added D bucket path)
    item_was_added-Leaves = Leaves-bind _ _ (Leaves-Steady Before _ (search steady_rules)) (λ model.
        Leaves-bind _ _ (Leaves-Steady Before _ (search steady_rules)) (λ mirror_file.
          Leaves-bind _ _
            (Leaves-Steady Before _ (search (steady_rules, set_mirror_file_backup-Steady)))
            (λ u. Leaves-bind _ _ (Leaves-Steady Before _ (search steady_rules)) (λ local.
              Leaves-bind _ _ (Leaves-Steady Before _ (search steady_rules)) (λ item.
                Leaves-bind _ _ (Leaves-Steady Before _ (send_event-Steady _ _ _ _ _ _)) (λ u.
                  Leaves-bind _ _ (Leaves-inside Before Between _ pinning) (λ u.
                    Leaves-bind _ _
                      (Leaves-inside Between Between _ (λ s b. (
                        Holds-notify pin_file pinned s b.0,
                        IsOwn-notify add_index_item indexed s b.1,
                      )))
                      (λ u. Leaves-inside Between After _ indexing))))))))

module _ {W H C : Type 0} (D : Deps W H C) (fuel : ℕ) (bucket path : String) (s : System W) where
  abbrev added : Result (Unit {0}) × System W
  added = process D fuel (new_task add_item (bucket ∷ path ∷ [])) s

  -- Where the IDs of the two tasks belong to them, so that a task that is queued or pending under one
  -- of them is of its type, has its arguments and stands in a queue, and where executing the task that
  -- announces an added file succeeds: a task that pins this file and one that adds it to the index,
  -- each of its type and with its arguments, are queued or pending, stand in a queue and are found by
  -- their IDs.
  pub process_add_item-enqueues :
      IsOwn pin_file (bucket ∷ path ∷ []) s.sync
      → IsOwn add_index_item (bucket ∷ path ∷ "" ∷ []) s.sync
      → added.0 ≡ ok tt
      → Holds pin_file (bucket ∷ path ∷ []) added.1.sync
        × Holds add_index_item (bucket ∷ path ∷ "" ∷ []) added.1.sync
  unfolding process process_type process_add_item check_task_type arg new_task type_text pure ◌>>=◌
  process_add_item-enqueues pin index e =
      (item_was_added-Leaves D bucket path).at s tt (pin, index) e
