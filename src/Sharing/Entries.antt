-- ===== src/Sharing/Entries.antt =====
-- What core/textile/sharing.go tells of received and sent files.
use space_daemon.Bucket.{DirEntries}
use space_daemon.Exec.{Exec, attempt, lift, pure, raise, ◌>>=◌}
use space_daemon.Model.Buckets.{find_bucket}
use space_daemon.Model.ReceivedFiles.{
  ReceivedFileSchema, create_received_file_via_public_link, is_public_link_received,
  list_received_files, list_received_public_files,
}
use space_daemon.Model.SentFiles.{list_sent_files, received_file_schema}
use space_daemon.Outcome.{Result, ok, err, new}
use space_daemon.Prelude.{
  ℕ, String, Bool, true, false, if◌then◌else◌, List, [], ◌∷◌, map, ltb, length,
}
use space_daemon.Prelude.Map.{Map, delete}
use space_daemon.Prelude.Paths.{extension}
use space_daemon.Sharing.{Role, Textile}
use space_daemon.Sharing.Members.{Member, members_of}

-- domain.SharedDirEntry with its file information
pub record SharedDirEntry : Type 0 where
  pub db_id : String
  pub bucket : String
  pub is_public_link : Bool
  pub path : String
  pub is_dir : Bool
  pub name : String
  pub size_in_bytes : String
  pub file_extension : String
  pub created : String
  pub updated : String
  pub ipfs_hash : String
  pub backed_up : Bool
  pub locally_available : Bool
  pub backup_in_progress : Bool
  pub restore_in_progress : Bool
  pub members : List Member
  pub shared_by : String

abbrev pub default_personal_bucket_slug : String
default_personal_bucket_slug = "personal"

-- the ID of the last file
abbrev pub offset_of : String → List ReceivedFileSchema → String
offset_of id [] = id
offset_of id (f ∷ fs) = offset_of f.id fs

module _ {W Ctx Pk : Type 0} (T : Textile W Ctx Pk) where
  unfoldable pub build_public_link_shared_dir_entry : ReceivedFileSchema → SharedDirEntry
  unfolding extension
  build_public_link_shared_dir_entry file = record {
    db_id = "";
    bucket = "";
    is_public_link = true;
    path = file.file_name;
    is_dir = false;
    name = file.file_name;
    size_in_bytes = file.file_size;
    file_extension = extension file.file_name;
    created = T.format_time file.created_at;
    updated = T.format_time file.created_at;
    ipfs_hash = file.public_ipfs_hash;
    backed_up = true;
    locally_available = false;
    backup_in_progress = false;
    restore_in_progress = false;
    members = [];
    shared_by = file.shared_by;
  }

  -- an error of the roles leaves no members
  abbrev pub roles_or_none : Result (Map Role) → Map Role
  roles_or_none (ok roles) = roles
  roles_or_none (err e) = []

  abbrev pub invitation_entry :
      ReceivedFileSchema → Bool → DirEntries → List Member → SharedDirEntry
  invitation_entry file is_sent f members = record {
    db_id = if is_sent then "" else file.db_id;
    bucket = if is_sent then default_personal_bucket_slug else file.bucket;
    is_public_link = false;
    path = file.path;
    is_dir = false;
    name = f.item.name;
    size_in_bytes = T.format_int f.item.size;
    file_extension = extension f.item.name;
    created = T.format_time file.created_at;
    updated = T.format_time f.item.updated_at;
    ipfs_hash = f.item.cid;
    backed_up = true;
    locally_available = is_sent;
    backup_in_progress = false;
    restore_in_progress = false;
    members = members;
    shared_by = file.shared_by;
  }

  unfoldable pub build_invitation_shared_dir_entry :
      Ctx → ReceivedFileSchema → Bool → Exec W SharedDirEntry
  unfolding members_of extension
  build_invitation_shared_dir_entry ctx file is_sent = do
    bucket_ctx ← T.get_bucket_context ctx file.db_id file.bucket file.encryption_key
    f ← T.list_path bucket_ctx file.bucket_key file.path
    roles ← attempt (T.pull_path_access_roles bucket_ctx file.bucket_key file.path)
    members ← lift (members_of T (roles_or_none roles))
    pure (invitation_entry file is_sent f members)

  unfoldable pub received_entry : Ctx → ReceivedFileSchema → Exec W SharedDirEntry
  unfolding build_public_link_shared_dir_entry build_invitation_shared_dir_entry
      is_public_link_received
  received_entry ctx file =
      if is_public_link_received file
      then pure (build_public_link_shared_dir_entry file)
      else build_invitation_shared_dir_entry ctx file false

  -- the loops of GetReceivedFiles and GetSentFiles
  unfoldable pub entries_of :
      (ReceivedFileSchema → Exec W SharedDirEntry)
      → List ReceivedFileSchema
      → Exec W (List SharedDirEntry)
  entries_of build [] = pure []
  entries_of build (file ∷ files) = do
    res ← build file
    others ← entries_of build files
    pure (res ∷ others)

  unfoldable pub get_received_files :
      Ctx → Bool → String → ℕ → Exec W (List SharedDirEntry × String)
  unfolding received_entry entries_of list_received_files
  get_received_files ctx accepted seek limit = do
    files ← list_received_files T.meta_thread T.now T.received accepted seek limit
    items ← entries_of (received_entry ctx) files
    pure (items, offset_of "" files)

  unfoldable pub get_sent_files : Ctx → String → ℕ → Exec W (List SharedDirEntry × String)
  unfolding build_invitation_shared_dir_entry entries_of list_sent_files received_file_schema
  get_sent_files ctx seek limit = do
    sent ← list_sent_files T.meta_thread T.now T.sent_files seek limit
    files ← pure (map received_file_schema sent)
    items ← entries_of (λ file. build_invitation_shared_dir_entry ctx file true) files
    pure (items, offset_of "" files)

  unfoldable pub accept_shared_file_link : String → String → String → String → Exec W SharedDirEntry
  unfolding build_public_link_shared_dir_entry create_received_file_via_public_link
  accept_shared_file_link hash password filename size = do
    file ←
        create_received_file_via_public_link T.meta_thread T.now T.received hash password filename
          size true
    pure (build_public_link_shared_dir_entry file)

  abbrev pub first_public : List ReceivedFileSchema → Exec W (SharedDirEntry × String)
  first_public [] = raise (new "not found")
  first_public (file ∷ files) = pure (build_public_link_shared_dir_entry file, file.file_password)

  unfoldable pub get_public_received_file : String → Bool → Exec W (SharedDirEntry × String)
  unfolding build_public_link_shared_dir_entry list_received_public_files
  get_public_received_file hash accepted =
      list_received_public_files T.meta_thread T.now T.received hash accepted >>= first_public

  unfoldable pub get_path_access_roles : Ctx → String → String → Exec W (List Member)
  unfolding find_bucket members_of
  get_path_access_roles ctx slug path = do
    bucket ← find_bucket T.meta_thread T.rand_bytes T.buckets slug
    hub_ctx ← T.get_bucket_context ctx bucket.mirror.remote_db_id slug bucket.encryption_key
    roles ← attempt (T.pull_path_access_roles hub_ctx bucket.mirror.remote_bucket_key path)
    lift (members_of T (roles_or_none roles))

  -- other roles than that of the user
  abbrev pub other_roles : Pk → Map Role → Bool
  other_roles pk roles = ltb 0 (length (delete (T.key_text pk) roles))

  abbrev pub or_false : Result Bool → Exec W Bool
  or_false (ok b) = pure b
  or_false (err e) = pure false

  unfoldable pub is_shared_file : Ctx → String → String → Exec W Bool
  unfolding delete
  is_shared_file ctx bucket_key path = do
    shared ← attempt (
        T.pull_path_access_roles ctx bucket_key path >>= λ roles.
        T.get_stored_public_key >>= λ pk. pure (other_roles pk roles))
    or_false shared
