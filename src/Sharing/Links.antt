-- ===== src/Sharing/Links.antt =====
-- core/space/services/services_sharing.go: files shared by a public link. Temporary files, the buckets
-- behind their interface, the gateway of the hub, zip and the encryption by a password are parameters.
use space_daemon.Exec.{Exec, lift, pure, raise, ◌>>=◌, ◌>>◌}
use space_daemon.Outcome.{Err, Result, ok, err, new}
use space_daemon.Prelude.{
  ℕ, String, ◌<>◌, true, if◌then◌else◌, str_eq, List, [], ◌∷◌, length, Option, some, none,
}
use space_daemon.Prelude.Paths.{file_part}
use space_daemon.Sharing.Entries.{accept_shared_file_link, get_public_received_file}
use space_daemon.Sharing.Invites.{Space, wait_for_textile_hub}

-- `B` are buckets and `F` open temporary files.
pub record Disk (W B F : Type 0) : Type 0 where
  -- ioutil.TempFile in the default folder, Name, and Close with os.Remove
  pub temp_file : String → Exec W F
  pub file_name : F → String
  pub remove_file : F → W → W
  pub close_file : F → W → W
  -- Seek to the start
  pub rewind : F → Exec W (Unit {0})
  pub write_file : F → List ℕ → Exec W (Unit {0})
  -- what is read from where the file stands to its end
  pub read_file : F → Exec W (List ℕ)
  -- GetBucket, with a remote file or without, and GetDefaultBucket; `none` is nil
  pub get_bucket : String → Option (String × String) → Exec W (Option B)
  pub get_default : Exec W (Option B)
  -- GetFile of a bucket: what it writes
  pub get_file : B → String → Exec W (List ℕ)
  pub get_public_share_bucket : Exec W B
  -- UploadFile, with the text of the CID that it returns
  pub upload_file : B → String → List ℕ → Exec W String
  pub download_public_item : String → Exec W (List ℕ)
  -- the archive of files with their names
  pub zip : List (String × List ℕ) → Result (List ℕ)
  -- dcrypto.NewEncrypterWithPassword with a reader, and io.Copy
  pub encrypt : List ℕ → String → Exec W (List ℕ)
  -- dcrypto.NewDecrypterWithPassword, which may refuse the password, and io.Copy
  pub new_decrypter : List ℕ → String → Result (Unit {0})
  pub decrypted : List ℕ → String → Result (List ℕ)
  pub parse_cid : String → Result String
  pub unix_nano : Exec W ℕ
  -- url.Values with Encode, and the configured site
  pub encode_query : List (String × String) → String
  pub site_url : String

-- domain.FileSharingInfo
pub record FileSharingInfo : Type 0 where
  pub bucket : String
  pub shared_file_cid : String
  pub shared_file_key : String
  pub space_download_link : String

abbrev pub bucket_not_found_err : Err
bucket_not_found_err = new "Could not find bucket"

abbrev pub generate_files_sharing_zip : String
generate_files_sharing_zip = "space_shared_files.zip"

module _ {W B : Type 0} where
  abbrev pub found_bucket : Option B → Exec W B
  found_bucket none = raise bucket_not_found_err
  found_bucket (some b) = pure b

module _ {W : Type 0} where
  -- `defer`: what is done in the end, whether the call returns or fails
  unfoldable pub deferred : {A : Type 0} → (W → W) → Exec W A → Exec W A
  deferred last action w = let (r, w') = action w in (r, last w')

module _ {W Ctx Pk Key B F : Type 0} (S : Space W Ctx Pk Key) (D : Disk W B F) where
  unfoldable pub create_temp_file_for_path : String → Exec W F
  unfolding file_part
  create_temp_file_for_path path = D.temp_file ("*-" <> file_part path)

  unfoldable pub get_bucket_for_remote_file : String → String → String → Exec W B
  get_bucket_for_remote_file name db_id path =
      D.get_bucket name (some (db_id, path)) >>= found_bucket

  unfoldable pub get_bucket_with_fallback : String → Exec W B
  get_bucket_with_fallback name =
      (if str_eq name "" then D.get_default else D.get_bucket name none) >>= found_bucket

  unfoldable pub shared_bucket : String → String → String → Exec W B
  unfolding get_bucket_for_remote_file get_bucket_with_fallback
  shared_bucket name db_id path =
      if str_eq db_id ""
      then get_bucket_with_fallback name
      else get_bucket_for_remote_file name db_id path

  -- what is read from the first file is encrypted into the second
  abbrev pub encrypt_into : F → F → String → Exec W (Unit {0})
  encrypt_into temp encrypted password = do
    D.rewind temp
    bytes ← D.read_file temp
    sealed ← D.encrypt bytes password
    D.write_file encrypted sealed

  abbrev pub encrypt_from : F → String → String → B → Exec W F
  encrypt_from temp password path bucket = do
    encrypted ← create_temp_file_for_path path
    bytes ← D.get_file bucket path
    D.write_file temp bytes
    encrypt_into temp encrypted password
    pure encrypted

  unfoldable pub encrypt_bucket_file : String → String → B → Exec W F
  unfolding create_temp_file_for_path deferred
  encrypt_bucket_file password path bucket = do
    temp ← create_temp_file_for_path path
    deferred (D.remove_file temp) (encrypt_from temp password path bucket)

  unfoldable pub upload_shared_file_to_ipfs : String → F → String → String → Exec W FileSharingInfo
  upload_shared_file_to_ipfs password shared file_name bucket_name = do
    b ← D.get_public_share_bucket
    timestamp ← D.unix_nano
    content ← D.read_file shared
    cid ← D.upload_file b (file_name <> ("-" <> S.tc.format_int timestamp)) content
    pure (record {
      bucket = bucket_name;
      shared_file_cid = cid;
      shared_file_key = password;
      space_download_link =
          D.site_url
          <> ("/files/share?" <> D.encode_query (("fname", file_name) ∷ ("hash", cid) ∷ []));
    })

  unfoldable pub generate_file_sharing_link :
      String → String → String → String → Exec W FileSharingInfo
  unfolding shared_bucket encrypt_bucket_file upload_shared_file_to_ipfs file_part
  generate_file_sharing_link password path bucket_name db_id = do
    bucket ← shared_bucket bucket_name db_id path
    encrypted ← encrypt_bucket_file password path bucket
    D.rewind encrypted
    upload_shared_file_to_ipfs password encrypted (file_part path) bucket_name

  -- the files of the archive
  unfoldable pub zip_items : B → List String → Exec W (List (String × List ℕ))
  unfolding file_part
  zip_items bucket [] = pure []
  zip_items bucket (path ∷ paths) = do
    bytes ← D.get_file bucket path
    items ← zip_items bucket paths
    pure ((file_part path, bytes) ∷ items)

  abbrev pub archive_into : F → F → String → B → List String → Exec W (Unit {0})
  archive_into temp encrypted password bucket paths = do
    items ← zip_items bucket paths
    archive ← lift (D.zip items)
    D.write_file temp archive
    encrypt_into temp encrypted password
    D.rewind encrypted

  abbrev pub share_archive : F → String → B → List String → String → Exec W FileSharingInfo
  share_archive temp password bucket paths bucket_name = do
    encrypted ← create_temp_file_for_path generate_files_sharing_zip
    deferred (D.close_file encrypted) (
        archive_into temp encrypted password bucket paths
        >> upload_shared_file_to_ipfs password encrypted generate_files_sharing_zip bucket_name)

  abbrev pub generate_archive_link :
      String → String → List String → String → String → Exec W FileSharingInfo
  generate_archive_link password first paths bucket_name db_id = do
    bucket ← shared_bucket bucket_name db_id first
    temp ← create_temp_file_for_path generate_files_sharing_zip
    deferred (D.remove_file temp) (share_archive temp password bucket paths bucket_name)

  unfoldable pub generate_files_sharing_link :
      String → List String → String → String → Exec W FileSharingInfo
  unfolding generate_file_sharing_link zip_items
  generate_files_sharing_link password [] bucket_name db_id =
      raise (new "no file passed to share link")
  generate_files_sharing_link password (path ∷ []) bucket_name db_id =
      generate_file_sharing_link password path bucket_name db_id
  generate_files_sharing_link password (path ∷ (second ∷ paths)) bucket_name db_id =
      generate_archive_link password path (path ∷ (second ∷ paths)) bucket_name db_id

  abbrev pub refused : Result (Unit {0}) → Result (Unit {0})
  refused (ok u) = ok u
  refused (err e) = err (new "incorrect password")

  unfoldable pub password_for : String → String → Exec W String
  unfolding get_public_received_file
  password_for hash password =
      if str_eq password ""
      then (get_public_received_file S.tc hash true >>= λ entry. pure entry.1)
      else pure password

  abbrev pub keep_plain : F → String → String → String → List ℕ → Exec W String
  keep_plain file hash password filename bytes = do
    D.write_file file bytes
    accept_shared_file_link S.tc hash password filename (S.tc.format_int (length bytes))
    pure (D.file_name file)

  abbrev pub decrypt_into : F → String → String → String → List ℕ → Exec W String
  decrypt_into file hash password filename sealed = do
    lift (refused (D.new_decrypter sealed password))
    bytes ← lift (D.decrypted sealed password)
    keep_plain file hash password filename bytes

  -- the location of the decrypted file
  unfoldable pub open_shared_file : String → String → String → Exec W String
  open_shared_file hash password filename = do
    cid ← lift (D.parse_cid hash)
    wait_for_textile_hub S
    key ← password_for hash password
    sealed ← D.download_public_item cid
    file ← create_temp_file_for_path filename
    deferred (D.close_file file) (decrypt_into file hash key filename sealed)
