-- ===== src/OpenFiles.antt =====
-- core/sync: the files that are opened outside of the app, and what their changes do to the buckets. The
-- store, the JSON coding, the watcher of the file system and the buckets are parameters.
pub mod Found
mod Tests
use space_daemon.Exec.{Exec, pure, raise, lift, attempt, ◌>>=◌, ◌>>◌}
use space_daemon.Outcome.{Err, Result, ok, err, new, panic, Failure}
use space_daemon.Prelude.{
  ℕ, String, Bool, true, false, ◌||◌, List, [], ◌∷◌, Option, some, none, ◌<>◌, if◌then◌else◌,
  str_eq,
}

pub record AddWatchFile : Type 0 where
  pub db_id : String
  pub local_path : String
  pub bucket_path : String
  pub bucket_key : String
  pub bucket_slug : String
  pub is_remote : Bool
  pub cid : String

pub record Watching (W B : Type 0) : Type 0 where
  pub st_get : String → Exec W String
  pub st_set : String → String → Exec W (Unit {0})
  pub st_remove : String → Exec W (Unit {0})
  pub keys_with_prefix : String → Exec W (List String)
  pub marshal : AddWatchFile → Result String
  pub unmarshal : String → Result AddWatchFile
  -- folderWatcher.AddFile
  pub add_file : String → Exec W (Unit {0})
  -- services.PathExists
  pub path_exists : String → W → Bool
  -- GetBucket, with the bucket, the database and the path of a remote file
  pub get_bucket : String → Option (String × String × String) → Exec W B
  pub dir_exists : B → String → Exec W Bool
  pub file_exists : B → String → Exec W Bool
  -- os.Open
  pub open_file : String → Exec W (List ℕ)
  -- what `result.IsValid()` is; beside an error the result is nil
  pub create_directory : B → String → Exec W Failure
  pub upload_file : B → String → List ℕ → Exec W Failure
  pub delete_dir_or_file : B → String → Exec W (Unit {0})

abbrev pub open_files_key_prefix : String
open_files_key_prefix = "openFiles#"

abbrev pub reverse_open_files_key_prefix : String
reverse_open_files_key_prefix = "reverseOpenFiles#"

abbrev pub err_add_file_watch : Err
err_add_file_watch = new "error adding file to watch"

abbrev pub get_open_file_key : String → String
get_open_file_key local_path = open_files_key_prefix <> local_path

abbrev pub get_open_file_reverse_key : String → String → String → String → String
get_open_file_reverse_key bucket_slug bucket_path db_id cid =
    reverse_open_files_key_prefix
    <> (bucket_slug <> (":" <> (bucket_path <> (":" <> (db_id <> (":" <> cid))))))

abbrev pub reverse_key_of : AddWatchFile → String
reverse_key_of fi = get_open_file_reverse_key fi.bucket_slug fi.bucket_path fi.db_id fi.cid

module _ {W B : Type 0} (D : Watching W B) where
  unfoldable pub add_file_info_to_store : AddWatchFile → Exec W (Unit {0})
  add_file_info_to_store fi = do
    out ← lift (D.marshal fi)
    D.st_set (get_open_file_key fi.local_path) out
    D.st_set (reverse_key_of fi) out

  unfoldable pub remove_file_info : AddWatchFile → Exec W (Unit {0})
  remove_file_info fi = do
    D.st_remove (get_open_file_key fi.local_path)
    D.st_remove (reverse_key_of fi)

  unfoldable pub get_open_file_info : String → Exec W AddWatchFile
  get_open_file_info key = do fi ← D.st_get key; lift (D.unmarshal fi)

  unfoldable pub add_file_watch : AddWatchFile → Exec W (Unit {0})
  add_file_watch fi =
      if str_eq fi.local_path "" || (str_eq fi.bucket_key "" || str_eq fi.bucket_path "")
      then raise err_add_file_watch
      else do add_file_info_to_store fi; D.add_file fi.local_path

  -- `none` is the second result `false`
  abbrev pub local_path_of : Result AddWatchFile → Option String
  local_path_of (err e) = none
  local_path_of (ok fi) = if str_eq fi.local_path "" then none else some fi.local_path

  unfoldable pub get_open_file_path : String → String → String → String → W → Option String
  get_open_file_path bucket_slug bucket_path db_id cid w =
      local_path_of
        (get_open_file_info (get_open_file_reverse_key bucket_slug bucket_path db_id cid) w).0

  abbrev pub with_slug : Result AddWatchFile → Option AddWatchFile
  with_slug (err e) = none
  with_slug (ok fi) = if str_eq fi.bucket_slug "" then none else some fi

  unfoldable pub get_open_file_bucket_slug_and_path : String → W → Option AddWatchFile
  get_open_file_bucket_slug_and_path local_path w =
      with_slug (get_open_file_info (get_open_file_key local_path) w).0

  -- the loop of `Start` over the stored keys
  abbrev pub watch_again : Result AddWatchFile → Exec W (Unit {0})
  watch_again (err e) w = (ok tt, w)
  watch_again (ok fi) w =
      if D.path_exists fi.local_path w
      then after (D.add_file fi.local_path w).0 (D.add_file fi.local_path w).1
      else (ok tt, w)
    where
      after : Result (Unit {0}) → Exec W (Unit {0})
      after (ok a) u = (ok tt, u)
      after (err e) u = (ok tt, (remove_file_info fi u).1)

  unfoldable pub watch_keys : List String → Exec W (Unit {0})
  watch_keys [] = pure tt
  watch_keys (k ∷ ks) = do found ← attempt (get_open_file_info k); watch_again found; watch_keys ks

  -- `Start` without the goroutine of the watcher
  unfoldable pub start_watching : Exec W (Unit {0})
  start_watching = do keys ← D.keys_with_prefix open_files_key_prefix; watch_keys keys

  -- Where the code logs an error and returns, the handler has no result.
  abbrev pub or_return : {A : Type 0} → Result A → (A → Exec W (Unit {0})) → Exec W (Unit {0})
  or_return (err e) f = pure tt
  or_return (ok a) f = f a

  abbrev pub with_info :
      Option AddWatchFile → (AddWatchFile → Exec W (Unit {0})) → Exec W (Unit {0})
  with_info none f = pure tt
  with_info (some fi) f = f fi

  -- The `err` that is tested after the upload is the outer one, which is nil there: after an error the
  -- method of the nil result is called.
  abbrev pub check_result : Result Failure → Exec W (Unit {0})
  check_result (ok valid) = pure tt
  check_result (err e) = raise panic

  abbrev pub create_in : B → String → String → Bool → Exec W (Unit {0})
  create_in b path bucket_path true = do
    exists ← attempt (D.dir_exists b path)
    or_return exists (λ on_textile.
        if on_textile then pure tt else attempt (D.create_directory b path) >>= check_result)
  create_in b path bucket_path false = do
    exists ← attempt (D.file_exists b path)
    or_return exists (λ on_textile.
        if on_textile
        then pure tt
        else attempt (D.open_file path) >>= λ reader.
            or_return reader
              (λ bytes. attempt (D.upload_file b bucket_path bytes) >>= check_result))

  unfoldable pub on_create : String → Bool → Exec W (Unit {0})
  on_create path is_dir w =
      with_info (get_open_file_bucket_slug_and_path path w)
        (λ fi. attempt (D.get_bucket fi.bucket_slug none) >>= λ bucket.
          or_return bucket (λ b. create_in b path fi.bucket_path is_dir))
        w

  unfoldable pub on_remove : String → Exec W (Unit {0})
  on_remove path w =
      with_info (get_open_file_bucket_slug_and_path path w)
        (λ fi. attempt (D.get_bucket fi.bucket_slug none) >>= λ bucket.
          or_return bucket (λ b. attempt (D.delete_dir_or_file b fi.bucket_path) >>= λ r. pure tt))
        w

  abbrev pub remote_file : AddWatchFile → Option (String × String × String)
  remote_file fi = if fi.is_remote then some (fi.bucket_slug, fi.db_id, fi.bucket_path) else none

  unfoldable pub on_write : String → Exec W (Unit {0})
  on_write path w =
      with_info (get_open_file_bucket_slug_and_path path w)
        (λ fi. attempt (D.get_bucket fi.bucket_slug (remote_file fi)) >>= λ bucket.
          or_return bucket (λ b. attempt (D.open_file path) >>= λ reader.
          or_return reader
            (λ bytes. attempt (D.upload_file b fi.bucket_path bytes) >>= λ r. pure tt)))
        w

  unfoldable pub on_rename : String → Bool → String → Exec W (Unit {0})
  on_rename path is_dir old_path = do on_remove old_path; on_create path is_dir

  unfoldable pub on_move : String → Bool → String → Exec W (Unit {0})
  on_move path is_dir old_path = do on_remove old_path; on_create path is_dir
