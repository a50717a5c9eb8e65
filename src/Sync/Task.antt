-- ===== src/Sync/Task.antt =====
-- core/textile/sync/task.go: the tasks of the Textile synchronizer.
use space_daemon.Prelude.{ℕ, zero, suc, ℤ, pos, negsuc, String, ◌<>◌, Bool, true, false, List, ltb}
use space_daemon.Prelude.Text.{join}

-- `taskType` is a string: `other` is any text that is none of the constants
pub data TaskType : Type 0 where
  add_item remove_item create_bucket pin_file unpin_file bucket_backup_on bucket_backup_off :
      TaskType
  bucket_restore restore_file add_index_item remove_index_item : TaskType
  other : String → TaskType

unfoldable pub type_text : TaskType → String
type_text add_item = "ADD_ITEM"
type_text remove_item = "REMOVE_ITEM"
type_text create_bucket = "CREATE_BUCKET"
type_text pin_file = "PIN_FILE"
type_text unpin_file = "UNPIN_FILE"
type_text bucket_backup_on = "TOGGLE_BACKUP_ON"
type_text bucket_backup_off = "TOGGLE_BACKUP_OFF"
type_text bucket_restore = "BUCKET_RESTORE"
type_text restore_file = "RESTORE_FILE"
type_text add_index_item = "ADD_INDEX_ITEM"
type_text remove_index_item = "REMOVE_INDEX_ITEM"
type_text (other t) = t

pub data TaskState : Type 0 where
  queued pending succeeded failed dequeued : TaskState

pub record Task : Type 0 where
  pub id : String
  pub state : TaskState
  pub type : TaskType
  pub args : List String
  pub parallelizable : Bool
  -- -1 for no limit
  pub max_retries : ℤ
  -- starts at 0 and is only incremented
  pub retries : ℕ

unfoldable pub task_id : TaskType → List String → String
task_id t args = type_text t <> ("_" <> join "_" args)

unfoldable pub new_task : TaskType → List String → Task
new_task t args = record {
  id = task_id t args;
  state = queued;
  type = t;
  args = args;
  parallelizable = false;
  max_retries = negsuc 0;
  retries = 0;
}

abbrev pub is_queued : TaskState → Bool
is_queued queued = true
is_queued _ = false

-- the test of `isTaskEnqueued`
abbrev pub is_active : TaskState → Bool
is_active queued = true
is_active pending = true
is_active _ = false

-- t.MaxRetries != -1 && t.Retries > t.MaxRetries
unfoldable pub surpassed : ℤ → ℕ → Bool
surpassed (negsuc zero) r = false
surpassed (negsuc (suc n)) r = true
surpassed (pos m) r = ltb m r
