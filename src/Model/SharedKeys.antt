-- ===== src/Model/SharedKeys.antt =====
-- core/textile/model/shared_public_key.go.
use space_daemon.Exec.{Exec, attempt, lift, pure, ◌>>=◌, ◌>>◌}
use space_daemon.Model.{Collection, first_row, init_model, or_empty, where_}
use space_daemon.Model.ReceivedFiles.{ReceivedFileSchema, err_received_file_not_found}
use space_daemon.Outcome.{Result, ok, err}
use space_daemon.Prelude.{ℕ, String, true, List, [], Option, some, str_eq}

pub record SharedPublicKeySchema : Type 0 where
  pub id : String
  pub db_id : String
  pub public_key : String
  pub updated_at : ℕ
  pub created_at : ℕ

abbrev pub list_shared_public_keys_limit : ℕ
list_shared_public_keys_limit = 128

-- `managed_key` is GetManagedThreadKey for the thread's name, and `new_db` the call of NewDB with it.
module _ {W Key : Type 0} (meta_thread : Exec W (Unit {0})) (now : Exec W ℕ)
    (managed_key : Exec W Key) (new_db : Key → Exec W (Unit {0}))
    (received : Collection W ReceivedFileSchema) (keys : Collection W SharedPublicKeySchema) where
  unfoldable pub init_shared_public_key : Exec W (Unit {0})
  init_shared_public_key = do
    meta_thread
    key ← managed_key
    attempt (new_db key)
    attempt keys.new_collection
    pure tt

  -- It is the collection of the received files that is made here.
  unfoldable pub find_shared_public_key : String → Exec W SharedPublicKeySchema
  unfolding init_model
  find_shared_public_key pub_key = do
    init_model meta_thread received
    rows ← keys.find (where_ (λ row. str_eq row.public_key pub_key))
    lift (first_row err_received_file_not_found rows)

  unfoldable pub store_public_key : String → Exec W SharedPublicKeySchema
  unfolding init_shared_public_key
  store_public_key pub_key = do
    init_shared_public_key
    time ← now
    new_instance ←
        pure (record {
          id = "";
          db_id = "";
          public_key = pub_key;
          updated_at = time;
          created_at = time;
        })
    id ← keys.create new_instance
    pure (record new_instance { id = id })

  abbrev key_or :
      Exec W SharedPublicKeySchema → Result SharedPublicKeySchema → Exec W SharedPublicKeySchema
  key_or otherwise (ok existing) = pure existing
  key_or otherwise (err e) = otherwise

  unfoldable pub create_shared_public_key : String → Exec W SharedPublicKeySchema
  unfolding find_shared_public_key store_public_key
  create_shared_public_key pub_key = do
    existing ← attempt (find_shared_public_key pub_key)
    key_or (store_public_key pub_key) existing

  -- on an error of Find there are no rows
  abbrev keys_of : Result (Option (List SharedPublicKeySchema)) → List SharedPublicKeySchema
  keys_of (ok rows) = or_empty rows
  keys_of (err e) = []

  unfoldable pub list_shared_public_keys : Exec W (List SharedPublicKeySchema)
  unfolding init_shared_public_key
  list_shared_public_keys = do
    init_shared_public_key
    found ← attempt (
        keys.find (
          some (record {
            matches = λ row. true;
            seek = "";
            limit = some list_shared_public_keys_limit;
            sort = "CreatedAt";
          })))
    pure (keys_of found)
