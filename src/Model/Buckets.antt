-- ===== src/Model/Buckets.antt =====
-- core/textile/model/buckets.go, and CreateMirrorBucket of core/textile/model/mirror_file.go.
use space_daemon.Exec.{Exec, attempt, lift, pure, ◌>>=◌, ◌>>◌}
use space_daemon.Model.{Collection, first_row, init_model, or_empty, where_}
use space_daemon.Outcome.{Err, Result, ok, err, new}
use space_daemon.Prelude.{ℕ, String, Bool, true, List, [], Option, str_eq}
use space_daemon.Sync.Deps.{BucketSchema, MirrorBucketSchema}

abbrev pub bucket_encryption_key_length : ℕ
bucket_encryption_key_length = 80

abbrev pub err_bucket_not_found : Err
err_bucket_not_found = new "Bucket not found"

abbrev no_mirror : MirrorBucketSchema
no_mirror = record {
  remote_db_id = "";
  remote_bucket_key = "";
  hub_addr = "";
  remote_bucket_slug = "";
}

abbrev pub new_instance : String → String → List ℕ → BucketSchema
new_instance slug db_id key = record {
  id = "";
  slug = slug;
  backup = true;
  encryption_key = key;
  db_id = db_id;
  mirror = no_mirror;
}

-- The schema that is returned is built again, and the encryption key is not in it.
abbrev pub returned : String → BucketSchema → BucketSchema
returned id b = record b { id = id; encryption_key = [] }

module _ {W : Type 0} (meta_thread : Exec W (Unit {0})) (rand_bytes : ℕ → Exec W (List ℕ))
    (buckets : Collection W BucketSchema) where
  unfoldable pub find_bucket : String → Exec W BucketSchema
  unfolding init_model
  find_bucket slug = do
    init_model meta_thread buckets
    rows ← buckets.find (where_ (λ b. str_eq b.slug slug))
    lift (first_row err_bucket_not_found rows)

  unfoldable pub store_new : String → String → Exec W BucketSchema
  unfolding init_model
  store_new slug db_id = do
    init_model meta_thread buckets
    key ← rand_bytes bucket_encryption_key_length
    id ← buckets.create (new_instance slug db_id key)
    pure (returned id (new_instance slug db_id key))

  abbrev pub found_or : Exec W BucketSchema → Result BucketSchema → Exec W BucketSchema
  found_or otherwise (ok b) = pure b
  found_or otherwise (err e) = otherwise

  unfoldable pub create_bucket : String → String → Exec W BucketSchema
  unfolding find_bucket store_new
  create_bucket slug db_id = do
    existing ← attempt (find_bucket slug)
    found_or (store_new slug db_id) existing

  -- the error of Save is not looked at
  abbrev moved_or : String → Exec W BucketSchema → Result BucketSchema → Exec W BucketSchema
  moved_or db_id otherwise (ok b) =
      attempt (buckets.save (record b { db_id = db_id })) >>= λ _. pure (record b { db_id = db_id })
  moved_or db_id otherwise (err e) = otherwise

  unfoldable pub upsert_bucket : String → String → Exec W BucketSchema
  unfolding init_model find_bucket create_bucket
  upsert_bucket slug db_id = do
    init_model meta_thread buckets
    existing ← attempt (find_bucket slug)
    moved_or db_id (create_bucket slug db_id) existing

  unfoldable pub bucket_backup_toggle : String → Bool → Exec W BucketSchema
  unfolding init_model find_bucket
  bucket_backup_toggle slug backup = do
    init_model meta_thread buckets
    bucket ← find_bucket slug
    buckets.save (record bucket { backup = backup })
    pure (record bucket { backup = backup })

  unfoldable pub create_mirror_bucket : String → MirrorBucketSchema → Exec W BucketSchema
  unfolding init_model find_bucket
  create_mirror_bucket slug mirror = do
    init_model meta_thread buckets
    bucket ← find_bucket slug
    buckets.save (record bucket { mirror = mirror })
    pure (record bucket { mirror = mirror })

  -- on an error of Find there are no rows
  abbrev rows_of : Result (Option (List BucketSchema)) → List BucketSchema
  rows_of (ok rows) = or_empty rows
  rows_of (err e) = []

  unfoldable pub list_buckets : Exec W (List BucketSchema)
  unfolding init_model
  list_buckets = do
    init_model meta_thread buckets
    found ← attempt (buckets.find (where_ (λ b. true)))
    pure (rows_of found)
