-- ===== src/Sync/Executors/Args.antt =====
-- core/textile/sync/task-executors.go: the type and the arguments of a task.
use space_daemon.Exec.{Exec, pure, raise}
use space_daemon.Outcome.{new, panic}
use space_daemon.Prelude.{ℕ, String, Option, none, some, str_eq, get_elem?, if◌then◌else◌}
use space_daemon.Sync.Task.{Task, TaskType, type_text}

-- the text of the task's type against that of the constant
unfoldable pub check_task_type : {S : Type 0} → Task → TaskType → Exec S (Unit {0})
check_task_type t tp =
    if str_eq (type_text tp) (type_text t.type)
    then pure tt
    else raise (new "expected different task type at Textile synchronizer")

abbrev pub or_panic : {S : Type 0} → Option String → Exec S String
or_panic none = raise panic
or_panic (some a) = pure a

-- task.Args[i]
unfoldable pub arg : {S : Type 0} → Task → ℕ → Exec S String
arg t i = or_panic (get_elem? t.args i)
