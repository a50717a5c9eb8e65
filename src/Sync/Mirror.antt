-- ===== src/Sync/Mirror.antt =====
-- core/textile/sync/mirror.go and threads.go: the records of mirrored files, and the bucket and the
-- thread on the hub that a local bucket is mirrored to.
use space_daemon.Exec.{Exec, pure, raise, attempt, ◌>>=◌, ◌>>◌}
use space_daemon.Outcome.{Result, ok, err, new}
use space_daemon.Prelude.{
  ℕ, String, ◌<>◌, Bool, true, false, not, Option, none, some, List, [], ◌∷◌, str_eq, if◌then◌else◌,
}
use space_daemon.Sync.Deps.{Deps, System, MirrorFileSchema, MirrorBucketSchema, outside}

module _ {W H C : Type 0} (D : Deps W H C) where
  abbrev pub save_backup :
      String → String → Bool → Option MirrorFileSchema → Exec (System W) MirrorFileSchema
  save_backup path slug in_progress (some mf) =
      let file = record (mf.file) { backup = not in_progress; backup_in_progress = in_progress } in
      outside (D.update_mirror_file (record mf { file = file }))
  save_backup path slug in_progress none = outside (
      D.create_mirror_file (record {
        path = path;
        bucket_slug = slug;
        backup = not in_progress;
        shared = false;
        backup_in_progress = in_progress;
        restore_in_progress = false;
      }))

  unfoldable pub set_mirror_file_backup : String → String → Bool → Exec (System W) (Unit {0})
  set_mirror_file_backup path slug in_progress = do
    mf ← outside (D.find_mirror_file_by_path_and_bucket_slug path slug)
    save_backup path slug in_progress mf
    pure tt

  abbrev pub clear_backup : Option MirrorFileSchema → Exec (System W) (Unit {0})
  clear_backup none = pure tt
  clear_backup (some mf) = do
    let file = record (mf.file) { backup = false; backup_in_progress = false }
    outside (D.update_mirror_file (record mf { file = file }))
    pure tt

  unfoldable pub unset_mirror_file_backup : String → String → Exec (System W) (Unit {0})
  unset_mirror_file_backup path slug = do
    mf ← outside (D.find_mirror_file_by_path_and_bucket_slug path slug)
    clear_backup mf

  -- the role that is pushed is always Admin
  unfoldable pub add_current_user_as_file_owner : String → String → Exec (System W) (Unit {0})
  add_current_user_as_file_owner bucket path = do
    model ← outside (D.find_bucket bucket)
    pk ← outside D.stored_public_key
    mirror ← outside (D.get_mirror_bucket bucket)
    ctx ← outside (
        D.get_bucket_ctx model.mirror.remote_db_id model.mirror.remote_bucket_slug true
          model.encryption_key)
    outside (D.push_path_access_roles mirror ctx (D.key mirror) path pk)

  abbrev pub thread_or_new : C → String → List ℕ → Result (Unit {0}) → Exec (System W) String
  thread_or_new ctx db_id key (ok info) = pure db_id
  thread_or_new ctx db_id key (err e) = do outside (D.new_db ctx db_id key); pure db_id

  unfoldable pub create_mirror_thread : String → Exec (System W) String
  create_mirror_thread slug = do
    ctx ← outside D.get_hub_context
    db_id ← outside (D.new_deterministic_thread_id ("mirror_bucket:" <> slug))
    key ← outside (D.get_managed_thread_key ("mirrorV1_" <> slug))
    info ← attempt (outside (D.get_db_info ctx db_id))
    thread_or_new ctx db_id key info

  -- the key of the first bucket of that name
  abbrev pub named : String → List (String × String) → Option String
  named slug [] = none
  named slug ((name, key) ∷ roots) = if str_eq name slug then some key else named slug roots

  abbrev pub root_or_new : C → String → Option String → Exec (System W) String
  root_or_new ctx slug (some key) = pure key
  root_or_new ctx slug none = outside (D.create_hub_bucket ctx slug)

  unfoldable pub create_mirror_bucket : String → List ℕ → Exec (System W) MirrorBucketSchema
  create_mirror_bucket slug enckey = do
    let new_slug = slug <> "_mirror"
    db_id ← create_mirror_thread new_slug
    ctx ← outside (D.get_bucket_ctx (D.cast_db_id db_id) new_slug true enckey)
    existing ← outside (D.list_hub_buckets ctx)
    key ← root_or_new ctx new_slug (named new_slug existing)
    pure (record {
      remote_db_id = D.cast_db_id db_id;
      remote_bucket_key = key;
      remote_bucket_slug = new_slug;
      hub_addr = D.textile_hub_target;
    })

  unfoldable pub replicate_thread_to_hub : String → Exec (System W) (Unit {0})
  replicate_thread_to_hub db_id =
      if str_eq D.textile_hub_ma ""
      then raise (new "no textile hub set")
      else outside (D.add_replicator db_id D.textile_hub_ma)

  -- TODO in the source
  unfoldable pub dereplicate_thread_from_hub : String → Exec (System W) (Unit {0})
  dereplicate_thread_from_hub db_id = pure tt
