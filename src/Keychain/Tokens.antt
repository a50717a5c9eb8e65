-- ===== src/Keychain/Tokens.antt =====
-- core/keychain/app_token.go.
use space_daemon.Exec.{Exec, raise, lift, attempt, ◌>>=◌, ◌>>◌, when}
use space_daemon.Keychain.{Devices, get_key_ring}
use space_daemon.Outcome.{Result, ok, err, master_token_already_exists}
use space_daemon.Permissions.{AppToken}
use space_daemon.Prelude.{
  ℕ, String, Bool, true, false, ◌&&◌, List, Option, some, none, ◌<>◌, if◌then◌else◌,
}

abbrev pub app_token_store_key : String
app_token_store_key = "appToken"

abbrev pub master_app_token_store_key : String
master_app_token_store_key = "masterAppToken"

abbrev pub get_master_token_st_key : String
get_master_token_st_key = app_token_store_key <> ("_" <> master_app_token_store_key)

abbrev pub token_st_key : String → String
token_st_key key = app_token_store_key <> ("_" <> key)

-- the encoding/json form of a token, and the bytes of a text
pub record TokenCodec : Type 0 where
  pub marshal_token : AppToken → Result String
  pub unmarshal_token : String → Result AppToken
  pub bytes : String → List ℕ

-- key != nil, where `key, _ := kc.st.Get(…)`
abbrev pub is_stored : Result (Option (List ℕ)) → Bool
is_stored (ok (some v)) = true
is_stored (ok none) = false
is_stored (err e) = false

-- err == nil
abbrev pub is_ok : {A : Type 0} → Result A → Bool
is_ok (ok a) = true
is_ok (err e) = false

module _ {W : Type 0} (D : Devices W) (T : TokenCodec) where
  abbrev pub store_master : AppToken → String → Exec W (Unit {0})
  store_master tok marshalled = do
    D.st_set get_master_token_st_key (T.bytes tok.key)
    D.ring_set get_master_token_st_key marshalled

  abbrev pub store_new : AppToken → Exec W (Unit {0})
  store_new tok = do
    marshalled ← lift (T.marshal_token tok)
    D.ring_set (token_st_key tok.key) marshalled
    when tok.is_master (store_master tok marshalled)

  unfoldable pub store_app_token : AppToken → Exec W (Unit {0})
  store_app_token tok = do
    get_key_ring D
    key ← attempt (D.st_get get_master_token_st_key)
    if is_stored key && tok.is_master then raise master_token_already_exists else do
      found ← attempt (D.ring_get get_master_token_st_key)
      if is_ok found && tok.is_master then raise master_token_already_exists else store_new tok

  unfoldable pub get_app_token : String → Exec W AppToken
  get_app_token key = do
    get_key_ring D
    token ← D.ring_get (token_st_key key)
    lift (T.unmarshal_token token)
