-- ===== src/Bucket/Files.antt =====
-- core/textile/bucket: the operations on one bucket over a client of buckets.
use space_daemon.Bucket.{DirEntries}
use space_daemon.Exec.{Exec, attempt, modify, pure, raise, ◌>>=◌, ◌>>◌}
use space_daemon.Outcome.{Err, Result, ok, err}
use space_daemon.Prelude.{
  ℕ, String, ◌<>◌, Bool, true, false, if◌then◌else◌, Option, some, none, ◌≡◌, refl,
}

-- What an object of the type Bucket has, without its lock: the root's name and key, the context of its
-- thread, the client of buckets, and who is told of uploads. `is_no_link` is the test of an error's text
-- with the regular expression, `trim_slashes` is strings.TrimRight(path, "/"), and `empty` is an empty
-- buffer.
pub record BucketObject (S Ctx Reader Writer Resolved : Type 0) : Type 0 where
  pub name : String
  pub key : String
  pub get_bucket_context : String → Exec S Ctx
  pub list_path : Ctx → String → String → Exec S DirEntries
  pub list_ipfs_path : Ctx → String → Exec S (Unit {0})
  pub push_path : Ctx → String → String → Reader → Exec S (Resolved × Resolved)
  pub remove_path : Ctx → String → String → Exec S Resolved
  pub pull_path : Ctx → String → String → Writer → Exec S (Unit {0})
  pub with_deadline : Ctx → Ctx
  pub is_no_link : Err → Bool
  pub trim_slashes : String → String
  pub empty : Reader
  pub on_upload_file : Option (String → String → Resolved × Resolved → S → S)

abbrev pub keep_file_name : String
keep_file_name = ".keep"

module _ {S Ctx Reader Writer Resolved : Type 0}
    (b : BucketObject S Ctx Reader Writer Resolved) where
  unfoldable pub get_context : Exec S Ctx
  get_context = b.get_bucket_context b.name

  unfoldable pub list_directory : String → Exec S DirEntries
  unfolding get_context
  list_directory path = do ctx ← get_context; b.list_path ctx b.key path

  abbrev pub no_link : Err → Exec S Bool
  no_link e = if b.is_no_link e then pure false else raise e

  abbrev pub dir_listed : Result DirEntries → Exec S Bool
  dir_listed (ok dir) = pure true
  dir_listed (err e) = no_link e

  unfoldable pub dir_exists : String → Exec S Bool
  unfolding list_directory
  dir_exists path = attempt (list_directory path) >>= dir_listed

  unfoldable pub create_directory : String → Exec S (Resolved × Resolved)
  unfolding get_context
  create_directory path = do
    ctx ← get_context
    b.push_path ctx b.key (b.trim_slashes path <> ("/" <> keep_file_name)) b.empty

  unfoldable pub delete_dir_or_file : String → Exec S Resolved
  unfolding get_context
  delete_dir_or_file path = do ctx ← get_context; b.remove_path ctx b.key path

  abbrev pub ipfs_listed : Result (Unit {0}) → Exec S Bool
  ipfs_listed (ok u) = pure true
  ipfs_listed (err e) = no_link e

  -- The error of the first listing is not compared with the regular expression.
  unfoldable pub file_exists : String → Exec S Bool
  unfolding get_context
  file_exists path = do
    ctx ← get_context
    listed ← b.list_path ctx b.key path
    found ← attempt (b.list_ipfs_path (b.with_deadline ctx) listed.item.cid)
    ipfs_listed found

  unfoldable pub updated_at_of : String → Exec S ℕ
  unfolding get_context
  updated_at_of path = do
    ctx ← get_context
    response ← b.list_path ctx b.key path
    pure response.item.updated_at

  abbrev pub told :
      Option (String → String → Resolved × Resolved → S → S) → String → Resolved × Resolved → S → S
  told none path pushed s = s
  told (some on_upload_file) path pushed s = on_upload_file b.name path pushed s

  unfoldable pub upload_file : String → Reader → Exec S (Resolved × Resolved)
  unfolding get_context
  upload_file path reader = do
    ctx ← get_context
    pushed ← b.push_path ctx b.key path reader
    modify (told b.on_upload_file path pushed)
    pure pushed

  unfoldable pub download_file : String → Reader → Exec S (Resolved × Resolved)
  unfolding get_context
  download_file path reader = do ctx ← get_context; b.push_path ctx b.key path reader

  unfoldable pub get_file : String → Writer → Exec S (Unit {0})
  unfolding get_context
  get_file path w = do ctx ← get_context; b.pull_path ctx b.key path w

  -- Where the context of the bucket is there and listing the path fails with the error that says that
  -- the path is not there, DirExists answers that it is not, while FileExists fails with the error.
  file_exists-missing :
      (path : String) (s : S) (ctx : Ctx) (e : Err)
      → (b.get_bucket_context b.name s).0 ≡ ok ctx
      → (b.list_path ctx b.key path (b.get_bucket_context b.name s).1).0 ≡ err e
      → b.is_no_link e ≡ true
      → ((dir_exists path s).0 ≡ ok false) × ((file_exists path s).0 ≡ err e)
  unfolding dir_exists file_exists ◌>>=◌
  file_exists-missing path s ctx e there missing named = rw (there, missing, named) (refl, refl)
