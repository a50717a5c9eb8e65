-- ===== src/Sync/Tests.antt =====
-- The theorems on core/textile/sync at concrete inputs, over calls that all succeed.
mod Tasks
use space_daemon.Bucket.{DirEntries, Item}
use space_daemon.Exec.{Exec, pure}
use space_daemon.Outcome.{Result, ok}
use space_daemon.Prelude.{
  ℕ, ◌+◌, ◌≤◌, ◌<◌, ◌≡◌, refl, String, Bool, true, false, Option, none, some, List, [], ◌∷◌,
}
use space_daemon.Sync.Bounded.{run-bounded_goroutines}
use space_daemon.Sync.Deps.{
  Deps, System, BucketSchema, MirrorBucketSchema, MirrorFile, MirrorFileSchema, ReceivedFile,
}
use space_daemon.Sync.Exclusive.{busy}
use space_daemon.Sync.Exclusive.Runs.{reached, reached-single_worker}
use space_daemon.Sync.Loop.{running}
use space_daemon.Sync.Machine.{
  Machine, Choice, turn, goroutine, notified, item_added, bucket_startup, run, start,
}
use space_daemon.Sync.Queue.{buckets, file_pinning, Synchronizer, load, new_synchronizer}
use space_daemon.Sync.Sound.{occurrences}
use space_daemon.Sync.Task.{Task, pending, is_active}

abbrev no_mirror : MirrorBucketSchema
no_mirror = record {
  remote_db_id = "r";
  remote_bucket_key = "k";
  hub_addr = "h";
  remote_bucket_slug = "personal_mirror";
}

abbrev personal : BucketSchema
personal = record {
  id = "1";
  slug = "personal";
  backup = true;
  encryption_key = [];
  db_id = "d";
  mirror = no_mirror;
}

abbrev a_file : Item
a_file = record {
  name = "a.txt";
  path = "a.txt";
  is_dir = false;
  cid = "c";
  size = 3;
  updated_at = 7;
}

abbrev listing : DirEntries
listing = record { item = a_file; items = a_file ∷ [] }

abbrev stored : MirrorFile → MirrorFileSchema
stored f = record { id = "m"; file = f; db_id = "" }

-- the world keeps nothing, and every call succeeds
abbrev willing_in : (W : Type 0) → Deps W (Unit {0}) (Unit {0})
willing_in W = record {
  find_bucket = λ b w. (ok personal, w);
  model_create_mirror_bucket = λ b m w. (ok personal, w);
  find_mirror_file_by_path_and_bucket_slug = λ p b w. (ok none, w);
  create_mirror_file = λ f w. (ok (stored f), w);
  update_mirror_file = λ m w. (ok m, w);
  find_received_file = λ d b p w. (ok (record { file_name = p; path = p; bucket = b }), w);
  update_search_index_record = λ n p t b d w. (ok tt, w);
  delete_search_index_record = λ n p b d w. (ok tt, w);
  get_bucket = λ b w. (ok tt, w);
  get_mirror_bucket = λ b w. (ok tt, w);
  get_bucket_ctx = λ d b h k w. (ok tt, w);
  add_bucket_listener = λ b w. (ok tt, w);
  slug = λ h. "personal";
  key = λ h. "k";
  list_directory = λ h p w. (ok listing, w);
  file_exists = λ h p w. (ok true, w);
  updated_at = λ h p w. (ok 7, w);
  get_file = λ h p w. ((1 ∷ 2 ∷ 3 ∷ [], ok tt), w);
  upload_file = λ h p b w. (ok tt, w);
  download_file = λ h p b w. (ok tt, w);
  delete_dir_or_file = λ h p w. (ok tt, w);
  push_path_access_roles = λ h c k p u w. (ok tt, w);
  stored_public_key = λ w. (ok "pk", w);
  get_hub_context = λ w. (ok tt, w);
  new_deterministic_thread_id = λ v w. (ok "thread", w);
  get_managed_thread_key = λ n w. (ok [], w);
  get_db_info = λ c d w. (ok tt, w);
  new_db = λ c d k w. (ok tt, w);
  list_hub_buckets = λ c w. (ok [], w);
  create_hub_bucket = λ c b w. (ok "key", w);
  add_replicator = λ d a w. (ok tt, w);
  cast_db_id = λ d. d;
  parse_db_id = λ d. ok d;
  textile_hub_target = "hub";
  textile_hub_ma = "/dns4/hub";
  send_file_event = λ e w. w;
}

abbrev willing : Deps (Unit {0}) (Unit {0}) (Unit {0})
willing = willing_in (Unit {0})

-- a bucket that starts up, a file that is added, and five turns of the loop over the buckets' tasks
abbrev morning : List Choice
morning =
    notified (bucket_startup "personal")
    ∷ notified (item_added "personal" "a.txt")
    ∷ turn buckets
    ∷ turn buckets
    ∷ turn buckets
    ∷ turn buckets
    ∷ turn buckets
    ∷ []

abbrev evening : Machine (Unit {0})
evening = reached willing 3 tt morning

reached-single_worker_example :
    ((p : ℕ) → busy p evening.file_loop.workers + busy p evening.buckets_loop.workers ≤ 1)
    × ((p : ℕ)
        → 0 < busy p evening.file_loop.workers + busy p evening.buckets_loop.workers
        → (t : Task) × (load evening.system.sync p ≡ some t) × (t.state ≡ pending))
reached-single_worker_example = reached-single_worker willing 3 tt morning

run-bounded_goroutines_example :
    let l = evening.buckets_loop in
    (l.parallel_task_count ≡ running l.number l.workers) × (running l.number l.workers ≤ 16)
run-bounded_goroutines_example =
    run-bounded_goroutines willing 3 (record { sync = new_synchronizer; world = tt }) morning
      buckets
