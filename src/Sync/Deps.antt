-- ===== src/Sync/Deps.antt =====
-- What the synchronizer calls: the `model` package and the buckets behind their interfaces, the
-- functions that `New` is given, and the clients of the Textile hub. Each call reads and changes a
-- world that the synchronizer does not look into.
use space_daemon.Bucket.{DirEntries}
use space_daemon.Exec.{Exec}
use space_daemon.Outcome.{Result, Failure}
use space_daemon.Prelude.{ℕ, String, Bool, Option, List}
use space_daemon.Sync.Queue.{Synchronizer}

-- model.MirrorBucketSchema
pub record MirrorBucketSchema : Type 0 where
  pub remote_db_id : String
  pub remote_bucket_key : String
  pub hub_addr : String
  pub remote_bucket_slug : String

-- model.BucketSchema
pub record BucketSchema : Type 0 where
  pub id : String
  pub slug : String
  pub backup : Bool
  pub encryption_key : List ℕ
  pub db_id : String
  pub mirror : MirrorBucketSchema

-- domain.MirrorFile
pub record MirrorFile : Type 0 where
  pub path : String
  pub bucket_slug : String
  pub backup : Bool
  pub shared : Bool
  pub backup_in_progress : Bool
  pub restore_in_progress : Bool

-- model.MirrorFileSchema: a mirror file as it is stored
pub record MirrorFileSchema : Type 0 where
  pub id : String
  pub file : MirrorFile
  pub db_id : String

-- the part of model.ReceivedFileSchema that indexing reads
pub record ReceivedFile : Type 0 where
  pub file_name : String
  pub path : String
  pub bucket : String

-- model.SearchItemType
pub data SearchItemType : Type 0 where
  file_item directory_item : SearchItemType

-- domain.FileInfo, the size and the times as numbers in place of their texts
pub record FileInfo : Type 0 where
  pub path : String
  pub is_dir : Bool
  pub name : String
  pub size : ℕ
  pub file_extension : String
  pub created : ℕ
  pub updated : ℕ
  pub ipfs_hash : String
  pub backed_up : Bool
  pub locally_available : Bool
  pub backup_in_progress : Bool
  pub restore_in_progress : Bool

-- events.FileEventType
pub data FileEventType : Type 0 where
  file_added file_deleted file_updated file_backup_in_progress file_backup_ready : FileEventType
  file_restored file_restoring folder_added folder_deleted folder_updated : FileEventType

-- events.FileEvent
pub record FileEvent : Type 0 where
  pub info : FileInfo
  pub type : FileEventType
  pub bucket : String
  pub db_id : String

-- `W` is the world, `H` the values behind `bucket.BucketInterface`, `C` the contexts of bucket calls.
pub record Deps (W H C : Type 0) : Type 0 where
  -- model.Model
  pub find_bucket : String → Exec W BucketSchema
  pub model_create_mirror_bucket : String → MirrorBucketSchema → Exec W BucketSchema
  pub find_mirror_file_by_path_and_bucket_slug : String → String → Exec W (Option MirrorFileSchema)
  pub create_mirror_file : MirrorFile → Exec W MirrorFileSchema
  pub update_mirror_file : MirrorFileSchema → Exec W MirrorFileSchema
  -- the remote database's ID, the bucket and the path, in the order of the method's parameters
  pub find_received_file : String → String → String → Exec W ReceivedFile
  -- name, path, type, bucket and database ID
  pub update_search_index_record :
      String → String → SearchItemType → String → String → Exec W (Unit {0})
  -- name, path, bucket and database ID
  pub delete_search_index_record : String → String → String → String → Exec W (Unit {0})
  -- the functions that `New` is given
  pub get_bucket : String → Exec W H
  pub get_mirror_bucket : String → Exec W H
  -- database ID, slug, whether it is on the hub, and encryption key
  pub get_bucket_ctx : String → String → Bool → List ℕ → Exec W C
  pub add_bucket_listener : String → Exec W (Unit {0})
  -- bucket.BucketInterface
  pub slug : H → String
  pub key : H → String
  pub list_directory : H → String → Exec W DirEntries
  pub file_exists : H → String → Exec W Bool
  pub updated_at : H → String → Exec W ℕ
  -- the bytes that were written to the pipe, and whether the call then failed
  pub get_file : H → String → W → (List ℕ × Failure) × W
  pub upload_file : H → String → List ℕ → Exec W (Unit {0})
  pub download_file : H → String → List ℕ → Exec W (Unit {0})
  pub delete_dir_or_file : H → String → Exec W (Unit {0})
  pub push_path_access_roles : H → C → String → String → String → Exec W (Unit {0})
  -- the keychain, the hub's authorisation, its threads and its buckets
  pub stored_public_key : Exec W String
  pub get_hub_context : Exec W C
  pub new_deterministic_thread_id : String → Exec W String
  pub get_managed_thread_key : String → Exec W (List ℕ)
  pub get_db_info : C → String → Exec W (Unit {0})
  pub new_db : C → String → List ℕ → Exec W (Unit {0})
  -- the names of the buckets, with their keys
  pub list_hub_buckets : C → Exec W (List (String × String))
  pub create_hub_bucket : C → String → Exec W String
  pub add_replicator : String → String → Exec W (Unit {0})
  -- utils.CastDbIDToString, utils.ParseDbIDFromString
  pub cast_db_id : String → String
  pub parse_db_id : String → Result String
  -- configuration, "" where a value is not set
  pub textile_hub_target : String
  pub textile_hub_ma : String
  -- the attached EventNotifier
  pub send_file_event : FileEvent → W → W

-- the synchronizer with the world that its calls change
pub record System (W : Type 0) : Type 0 where
  pub sync : Synchronizer
  pub world : W

module _ {W : Type 0} where
  -- a call that leaves the synchronizer alone
  unfoldable pub outside : {A : Type 0} → Exec W A → Exec (System W) A
  outside m s = let (r, w) = m s.world in (r, record s { world = w })

  -- a change of the synchronizer alone
  unfoldable pub inside : (Synchronizer → Synchronizer) → Exec (System W) (Unit {0})
  inside f s = (Result.ok tt, record s { sync = f s.sync })
