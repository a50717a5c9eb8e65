-- ===== src/Model/ReceivedFiles.antt =====
-- core/textile/model/received_file.go.
use space_daemon.Exec.{Exec, attempt, lift, pure, ◌>>=◌, ◌>>◌}
use space_daemon.Model.{Collection, FullPath, Query, first_row, init_model, or_empty, where_}
use space_daemon.Outcome.{Err, Result, ok, err, new, panic}
use space_daemon.Prelude.{
  ℕ, String, Bool, true, false, not, ◌&&◌, ◌||◌, ◌==◌, List, [], ◌∷◌, map, Option, some, none,
  str_eq,
}

-- ReceivedFileSchema with its two embedded schemas
pub record ReceivedFileSchema : Type 0 where
  pub id : String
  pub accepted : Bool
  pub created_at : ℕ
  pub db_id : String
  pub bucket : String
  pub path : String
  pub invitation_id : String
  pub bucket_key : String
  pub encryption_key : List ℕ
  pub shared_by : String
  pub public_ipfs_hash : String
  pub file_password : String
  pub file_name : String
  pub file_size : String

unfoldable pub is_public_link_received : ReceivedFileSchema → Bool
is_public_link_received r = str_eq r.invitation_id ""

abbrev pub err_received_file_not_found : Err
err_received_file_not_found = new "Received file not found"

abbrev pub at_path : String → String → String → ReceivedFileSchema → Bool
at_path db_id bucket path row =
    str_eq row.db_id db_id && (str_eq row.bucket bucket && str_eq row.path path)

abbrev same_bool : Bool → Bool → Bool
same_bool true b = b
same_bool false b = not b

same_bytes : List ℕ → List ℕ → Bool
same_bytes [] [] = true
same_bytes [] (y ∷ ys) = false
same_bytes (x ∷ xs) [] = false
same_bytes (x ∷ xs) (y ∷ ys) = x == y && same_bytes xs ys

unfoldable pub any_invitation : List String → ReceivedFileSchema → Bool
any_invitation [] row = false
any_invitation (id ∷ ids) row =
    let rest = any_invitation ids row in str_eq row.invitation_id id || rest

abbrev pub ids_query : List String → Option (Query ReceivedFileSchema)
ids_query [] = none
ids_query (id ∷ ids) = where_ (any_invitation (id ∷ ids))

-- a type assertion, which panics on nil
abbrev pub asserted : Option (List ReceivedFileSchema) → Result (List ReceivedFileSchema)
asserted none = err panic
asserted (some rows) = ok rows

-- The bucket of a row is compared with the key of the bucket.
pub to_delete : FullPath → List ℕ → ReceivedFileSchema → Bool
to_delete path key row =
    at_path path.db_id path.bucket_key path.path row && same_bytes row.encryption_key key

-- The query for the paths, each with the key at its index.
unfoldable pub any_to_delete : List FullPath → List (List ℕ) → Result (ReceivedFileSchema → Bool)
unfolding to_delete same_bytes
any_to_delete [] keys = ok (λ row. false)
any_to_delete (p ∷ ps) [] = err panic
any_to_delete (p ∷ ps) (k ∷ ks) = elim (any_to_delete ps ks) [
  | ok rest ↦ ok (λ row. to_delete p k row || rest row)
  | err e ↦ err e
]

module _ {W : Type 0} (meta_thread : Exec W (Unit {0})) (now : Exec W ℕ)
    (files : Collection W ReceivedFileSchema) where
  unfoldable pub find_received_file : String → String → String → Exec W ReceivedFileSchema
  unfolding init_model
  find_received_file db_id bucket path = do
    init_model meta_thread files
    rows ← files.find (where_ (at_path db_id bucket path))
    lift (first_row err_received_file_not_found rows)

  unfoldable pub find_public_link_received_file : String → Exec W ReceivedFileSchema
  unfolding init_model
  find_public_link_received_file hash = do
    init_model meta_thread files
    rows ← files.find (where_ (λ row. str_eq row.public_ipfs_hash hash))
    lift (first_row err_received_file_not_found rows)

  unfoldable pub create_received_file : ReceivedFileSchema → Exec W ReceivedFileSchema
  unfolding init_model
  create_received_file instance_ = do
    init_model meta_thread files
    id ← files.create instance_
    pure (record instance_ { id = id })

  -- `if existing, err := …; err == nil { return existing, nil }`
  abbrev pub existing_or :
      Exec W ReceivedFileSchema → Result ReceivedFileSchema → Exec W ReceivedFileSchema
  existing_or otherwise (ok existing) = pure existing
  existing_or otherwise (err e) = otherwise

  abbrev pub invited : FullPath → String → Bool → List ℕ → String → ℕ → ReceivedFileSchema
  invited file invitation accepted key inviter time = record {
    id = "";
    accepted = accepted;
    created_at = time;
    db_id = file.db_id;
    bucket = file.bucket;
    path = file.path;
    invitation_id = invitation;
    bucket_key = file.bucket_key;
    encryption_key = key;
    shared_by = inviter;
    public_ipfs_hash = "";
    file_password = "";
    file_name = "";
    file_size = "";
  }

  unfoldable pub create_received_file_via_invitation :
      FullPath → String → Bool → List ℕ → String → Exec W ReceivedFileSchema
  unfolding find_received_file create_received_file
  create_received_file_via_invitation file invitation accepted key inviter = do
    existing ← attempt (find_received_file file.db_id file.bucket file.path)
    existing_or
        (now >>= λ time. create_received_file (invited file invitation accepted key inviter time))
        existing

  abbrev linked : String → String → String → String → Bool → ℕ → ReceivedFileSchema
  linked hash password name size accepted time = record {
    id = "";
    accepted = accepted;
    created_at = time;
    db_id = "";
    bucket = "";
    path = "";
    invitation_id = "";
    bucket_key = "";
    encryption_key = [];
    shared_by = "";
    public_ipfs_hash = hash;
    file_password = password;
    file_name = name;
    file_size = size;
  }

  unfoldable pub create_received_file_via_public_link :
      String → String → String → String → Bool → Exec W ReceivedFileSchema
  unfolding find_public_link_received_file create_received_file
  create_received_file_via_public_link hash password name size accepted = do
    existing ← attempt (find_public_link_received_file hash)
    existing_or
        (now >>= λ time. create_received_file (linked hash password name size accepted time))
        existing

  unfoldable pub find_received_files_by_ids : List String → Exec W (List ReceivedFileSchema)
  unfolding init_model any_invitation
  find_received_files_by_ids ids = do
    init_model meta_thread files
    rows ← files.find (ids_query ids)
    lift (asserted rows)

  unfoldable pub list_received_files : Bool → String → ℕ → Exec W (List ReceivedFileSchema)
  unfolding init_model
  list_received_files accepted seek limit = do
    init_model meta_thread files
    rows ← files.find (
        some (record {
          matches = λ row. same_bool row.accepted accepted;
          seek = seek;
          limit = some limit;
          sort = "";
        }))
    pure (or_empty rows)

  unfoldable pub list_received_public_files : String → Bool → Exec W (List ReceivedFileSchema)
  unfolding init_model
  list_received_public_files hash accepted = do
    init_model meta_thread files
    rows ←
        files.find
          (where_ (λ row. same_bool row.accepted accepted && str_eq row.public_ipfs_hash hash))
    pure (or_empty rows)

  abbrev delete_found : Option (List ReceivedFileSchema) → Exec W (Unit {0})
  delete_found none = pure tt
  delete_found (some rows) = files.delete_all (map (λ (row : ReceivedFileSchema). row.id) rows)

  unfoldable pub delete_received_files : List FullPath → List (List ℕ) → Exec W (Unit {0})
  unfolding init_model any_to_delete
  delete_received_files [] keys = pure tt
  delete_received_files (p ∷ ps) keys = do
    init_model meta_thread files
    test ← lift (any_to_delete (p ∷ ps) keys)
    rows ← files.find (where_ test)
    delete_found rows
