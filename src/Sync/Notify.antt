-- ===== src/Sync/Notify.antt =====
-- core/textile/sync/synchronizer.go: the calls that announce a change to the synchronizer.
use space_daemon.Prelude.{ℕ, ◌+◌, pos, String, true, List, [], ◌∷◌, if◌then◌else◌}
use space_daemon.Prelude.Hex
use space_daemon.Sync.Queue.{Synchronizer, buckets, enqueue_new}
use space_daemon.Sync.Task.{
  new_task, add_item, remove_item, create_bucket, bucket_backup_on, bucket_backup_off,
  bucket_restore, restore_file, add_index_item,
}

unfoldable pub notify_sync_needed : Synchronizer → Synchronizer
notify_sync_needed s = if s.is_running then record s { sync_offers = s.sync_offers + 1 } else s

unfoldable pub notify_item_added : String → String → Synchronizer → Synchronizer
notify_item_added bucket path s =
    notify_sync_needed (enqueue_new (new_task add_item (bucket ∷ path ∷ [])) buckets s)

unfoldable pub notify_item_removed : String → String → Synchronizer → Synchronizer
notify_item_removed bucket path s =
    notify_sync_needed (enqueue_new (new_task remove_item (bucket ∷ path ∷ [])) buckets s)

unfoldable pub notify_bucket_created : String → List ℕ → Synchronizer → Synchronizer
notify_bucket_created bucket enckey s =
    notify_sync_needed
      (enqueue_new (new_task create_bucket (bucket ∷ Hex.encode enckey ∷ [])) buckets s)

unfoldable pub notify_bucket_backup_on : String → Synchronizer → Synchronizer
notify_bucket_backup_on bucket s =
    let t = new_task bucket_backup_on (bucket ∷ []) in
    notify_sync_needed (enqueue_new (record t { parallelizable = true }) buckets s)

unfoldable pub notify_bucket_backup_off : String → Synchronizer → Synchronizer
notify_bucket_backup_off bucket s =
    notify_sync_needed (enqueue_new (new_task bucket_backup_off (bucket ∷ [])) buckets s)

unfoldable pub notify_bucket_restore : String → Synchronizer → Synchronizer
notify_bucket_restore bucket s =
    notify_sync_needed (enqueue_new (new_task bucket_restore (bucket ∷ [])) buckets s)

unfoldable pub notify_file_restore : String → String → Synchronizer → Synchronizer
notify_file_restore bucket path s =
    notify_sync_needed (enqueue_new (new_task restore_file (bucket ∷ path ∷ [])) buckets s)

unfoldable pub notify_bucket_startup : String → Synchronizer → Synchronizer
notify_bucket_startup bucket s =
    notify_sync_needed (notify_bucket_backup_on bucket (notify_bucket_restore bucket s))

unfoldable pub notify_index_item_added : String → String → String → Synchronizer → Synchronizer
notify_index_item_added bucket path db_id s =
    let t = new_task add_index_item (bucket ∷ path ∷ db_id ∷ []) in
    notify_sync_needed
      (enqueue_new (record t { parallelizable = true; max_retries = pos 2 }) buckets s)
