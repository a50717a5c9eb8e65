-- ===== src/Model/SentFiles.antt =====
-- core/textile/model/sent_file.go.
use space_daemon.Exec.{Exec, attempt, lift, pure, ◌>>=◌, ◌>>◌}
use space_daemon.Model.{Collection, FullPath, first_row, init_model, or_empty, where_}
use space_daemon.Model.ReceivedFiles.{ReceivedFileSchema}
use space_daemon.Outcome.{Err, Result, ok, err, new}
use space_daemon.Prelude.{ℕ, String, true, false, ◌&&◌, List, some, str_eq}

-- SentFileSchema with its embedded schema
pub record SentFileSchema : Type 0 where
  pub id : String
  pub created_at : ℕ
  pub db_id : String
  pub bucket : String
  pub path : String
  pub invitation_id : String
  pub bucket_key : String
  pub encryption_key : List ℕ

abbrev pub err_sent_file_not_found : Err
err_sent_file_not_found = new "Sent file not found"

-- SentFileSchema.ReceivedFileSchema
unfoldable pub received_file_schema : SentFileSchema → ReceivedFileSchema
received_file_schema sf = record {
  id = sf.id;
  accepted = false;
  created_at = sf.created_at;
  db_id = sf.db_id;
  bucket = sf.bucket;
  path = sf.path;
  invitation_id = sf.invitation_id;
  bucket_key = sf.bucket_key;
  encryption_key = sf.encryption_key;
  shared_by = "";
  public_ipfs_hash = "";
  file_password = "";
  file_name = "";
  file_size = "";
}

module _ {W : Type 0} (meta_thread : Exec W (Unit {0})) (now : Exec W ℕ)
    (files : Collection W SentFileSchema) where
  unfoldable pub find_sent_file : String → String → String → Exec W SentFileSchema
  unfolding init_model
  find_sent_file db_id bucket path = do
    init_model meta_thread files
    rows ← files.find (
        where_
          (λ row. str_eq row.db_id db_id && (str_eq row.bucket bucket && str_eq row.path path)))
    lift (first_row err_sent_file_not_found rows)

  unfoldable pub create_sent_file : SentFileSchema → Exec W SentFileSchema
  unfolding init_model
  create_sent_file instance_ = do
    init_model meta_thread files
    id ← files.create instance_
    pure (record instance_ { id = id })

  abbrev sent : FullPath → String → List ℕ → ℕ → SentFileSchema
  sent file invitation key time = record {
    id = "";
    created_at = time;
    db_id = file.db_id;
    bucket = file.bucket;
    path = file.path;
    invitation_id = invitation;
    bucket_key = file.bucket_key;
    encryption_key = key;
  }

  abbrev pub sent_or : Exec W SentFileSchema → Result SentFileSchema → Exec W SentFileSchema
  sent_or otherwise (ok existing) = pure existing
  sent_or otherwise (err e) = otherwise

  unfoldable pub create_sent_file_via_invitation :
      FullPath → String → List ℕ → Exec W SentFileSchema
  unfolding find_sent_file create_sent_file
  create_sent_file_via_invitation file invitation key = do
    existing ← attempt (find_sent_file file.db_id file.bucket file.path)
    sent_or (now >>= λ time. create_sent_file (sent file invitation key time)) existing

  unfoldable pub list_sent_files : String → ℕ → Exec W (List SentFileSchema)
  unfolding init_model
  list_sent_files seek limit = do
    init_model meta_thread files
    rows ←
        files.find
          (some (record { matches = λ row. true; seek = seek; limit = some limit; sort = "" }))
    pure (or_empty rows)
