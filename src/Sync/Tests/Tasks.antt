-- ===== src/Sync/Tests/Tasks.antt =====
-- The theorems on executing and announcing tasks at concrete inputs.
use space_daemon.Outcome.{ok, err, external}
use space_daemon.Prelude.{ℕ, ◌≡◌, refl, true, false, some, [], ◌∷◌, if◌then◌else◌, ltb, pos}
use space_daemon.Sync.Announced.{process_add_item-enqueues}
use space_daemon.Sync.Deps.{Deps, System, outside, inside}
use space_daemon.Sync.Mirror.{set_mirror_file_backup}
use space_daemon.Sync.Restore.{send_event, restore_item, newer_bucket_path}
use space_daemon.Sync.Announced.Restored.{restore_item-older}
use space_daemon.Exec.{◌>>=◌}
use space_daemon.Prelude.Text.{join}
use space_daemon.Sync.Executors.{process, process_type, process_add_item, check_task_type, arg}
use space_daemon.Sync.Loop.{execute_task, settle}
use space_daemon.Sync.Queue.{
  buckets, Synchronizer, load, new_synchronizer, is_task_enqueued, enqueue_new, enqueue_task,
  enqueue_at, alloc,
}
use space_daemon.Sync.Held.{Holds, IsOwn}
use space_daemon.Sync.Retries.{executed, outcomes, all_failed, executed-retries}
use space_daemon.Sync.Stored.{restored, PointTo, restored-last_task}
use space_daemon.Prelude.{arith, List, ◌<>◌, ◌-◌, negsuc, String}
use space_daemon.Sync.Task.{
  Task, TaskType, new_task, task_id, type_text, add_item, pin_file, add_index_item, restore_file,
  dequeued, queued,
}
use space_daemon.Prelude.Map.{lookup, insert}
use space_daemon.Sync.Tests.{willing, willing_in}

abbrev added_file : Task
added_file = new_task add_item ("personal" ∷ "a.txt" ∷ [])

added_succeeds :
    (process willing 3 added_file (record { sync = new_synchronizer; world = tt })).0 ≡ ok tt
unfolding process process_type new_task process_add_item ◌>>=◌ check_task_type type_text arg outside
    set_mirror_file_backup send_event inside
added_succeeds = refl

-- no task is there yet
nothing-IsOwn : (c : TaskType) (args : List String) → IsOwn c args new_synchronizer
unfolding is_task_enqueued lookup
nothing-IsOwn c args = record { holds = λ e. absurd (cc e); known = λ p l. absurd (cc l) }

process_add_item-enqueues_example :
    let u =
      (process willing 3 added_file (record { sync = new_synchronizer; world = tt })).1.sync in
    Holds pin_file ("personal" ∷ "a.txt" ∷ []) u
    × Holds add_index_item ("personal" ∷ "a.txt" ∷ "" ∷ []) u
process_add_item-enqueues_example =
    process_add_item-enqueues willing 3 "personal" "a.txt"
      (record { sync = new_synchronizer; world = tt }) (nothing-IsOwn _ _) (nothing-IsOwn _ _)
      added_succeeds

abbrev announced : Synchronizer
announced = enqueue_new added_file buckets new_synchronizer

is_announced : is_task_enqueued announced added_file.id ≡ true
unfolding is_task_enqueued enqueue_new enqueue_task enqueue_at alloc new_task task_id type_text
    lookup insert join
is_announced = refl

-- no bucket is found
abbrev offline : Deps (Unit {0}) (Unit {0}) (Unit {0})
offline = record willing { find_bucket = λ b w. (err (external "offline"), w) }

abbrev indexed_file : Task
indexed_file = record {
  id = "ADD_ITEM_personal_a.txt";
  state = queued;
  type = add_item;
  args = "personal" ∷ "a.txt" ∷ [];
  parallelizable = false;
  max_retries = pos 1;
  retries = 0;
}

abbrev one_task : System (Unit {0})
one_task = record { sync = alloc indexed_file new_synchronizer; world = tt }

first_loaded : load one_task.sync 0 ≡ some indexed_file
unfolding alloc
first_loaded = refl

one_task_fails : all_failed (outcomes offline 3 0 2 indexed_file one_task) ≡ true
unfolding all_failed outcomes process process_type execute_task settle process_add_item ◌>>=◌
    check_task_type type_text arg outside
one_task_fails = refl

executed-retries_example :
    (u : Task) × (load (executed offline 3 0 2 one_task).sync 0 ≡ some u)
    × (u.retries ≡ 2)
    × (u.state ≡ (if ltb 1 2 then dequeued else queued))
executed-retries_example =
    executed-retries offline 3 0 1 2 indexed_file one_task first_loaded refl refl refl
      one_task_fails

abbrev stored_task : String → Task
stored_task path = record {
  id = "ADD_ITEM_personal_" <> path;
  state = queued;
  type = add_item;
  args = "personal" ∷ path ∷ [];
  parallelizable = false;
  max_retries = negsuc 0;
  retries = 0;
}

-- of two stored tasks the second is left
restored-last_task_example :
    let u =
      restored
        (record {
          queue_as_slice = stored_task "a.txt" ∷ stored_task "b.txt" ∷ [];
          file_queue_as_slice = stored_task "c.txt" ∷ [];
        })
        new_synchronizer in
    PointTo 0 u.task_queue × (load u 0 ≡ some (stored_task "b.txt"))
restored-last_task_example =
    restored-last_task (stored_task "a.txt") (stored_task "b.txt" ∷ []) (stored_task "c.txt" ∷ [])
      new_synchronizer refl

-- each time that is asked for is one earlier than the last
abbrev mirror_ahead : Deps ℕ (Unit {0}) (Unit {0})
mirror_ahead = record (willing_in ℕ) { updated_at = λ h p w. (ok w, w - 1) }

abbrev at_seven : System ℕ
at_seven = record { sync = new_synchronizer; world = 7 }

older_succeeds : (restore_item mirror_ahead tt tt "personal" "a.txt" at_seven).0 ≡ ok tt
unfolding restore_item ◌>>=◌ outside newer_bucket_path send_event inside
older_succeeds = refl

restore_item-older_example :
    Holds restore_file
      ("personal" ∷ "a.txt" ∷ [])
      (restore_item mirror_ahead tt tt "personal" "a.txt" at_seven).1.sync
restore_item-older_example =
    restore_item-older mirror_ahead tt tt "personal" "a.txt" at_seven 7 6 5 7 6 refl refl refl
      (omega arith) (nothing-IsOwn _ _) older_succeeds
