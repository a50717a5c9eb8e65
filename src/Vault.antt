-- ===== src/Vault.antt =====
-- core/vault/vault.go: keys kept, encrypted under a passphrase, by the vault service. The service,
-- the JSON forms, Base64 and the cryptography are parameters.
pub mod RoundTrip
pub mod Seal
use space_daemon.Exec.{Exec, raise, lift, pure, ◌>>=◌, ◌>>◌}
use space_daemon.Outcome.{Result, Failure, ok, err, new, panic, ◌>>=◌ as ◌then◌}
use space_daemon.Prelude.{
  ℕ, String, ◌<>◌, Bool, List, ◌++◌, ◌||◌, ltb, leb, not, str_eq, if◌then◌else◌,
}
use space_daemon.Vault.Seal.{Gcm, seal, unseal}

pub data VaultItemType : Type 0 where
  private_key_with_mnemonic : VaultItemType

pub record VaultItem : Type 0 where
  pub item_type : VaultItemType
  pub value : String

-- domain.KeyBackupType; the last is any other number
pub data KeyBackupType : Type 0 where
  password google twitter email : KeyBackupType
  other : String → KeyBackupType

pub backup_type_string : KeyBackupType → String
backup_type_string password = "password"
backup_type_string google = "google"
backup_type_string twitter = "twitter"
backup_type_string email = "email"
backup_type_string (other number) = number

pub record StoreVaultRequest : Type 0 where
  pub vault : String
  pub vsk : String
  pub type_ : String

pub record RetrieveVaultRequest : Type 0 where
  pub vsk : String
  pub type_ : String

pub record StoredVault : Type 0 where
  pub vault : String
  pub vsk : String

-- http.Response, with what reading its body returns
pub record Response (Byte : Type 0) : Type 0 where
  pub status_code : ℕ
  pub body : Result (List Byte)

-- encoding/json, encoding/base64, pbkdf2 with SHA-512, and net/http
pub record Web (W Byte : Type 0) : Type 0 where
  pub marshal_items : List VaultItem → Result (List Byte)
  pub unmarshal_items : List Byte → Result (List VaultItem)
  pub marshal_store : StoreVaultRequest → Result (List Byte)
  pub marshal_retrieve : RetrieveVaultRequest → Result (List Byte)
  -- the field encryptedVault
  pub unmarshal_response : List Byte → Result String
  -- the field Message of an APIError
  pub unmarshal_error : List Byte → Result String
  pub encode_to_string : List Byte → String
  pub decode_string : String → Result (List Byte)
  pub bytes : String → List Byte
  -- the password, the salt, the iterations and the length
  pub pbkdf2 : List Byte → List Byte → ℕ → ℕ → List Byte
  -- http.NewRequest, for its error
  pub new_request : String → Failure
  -- Client.Do of a POST request with the Authorization header
  pub do_post : String → String → List Byte → Exec W (Response Byte)
  -- http.Post
  pub post : String → List Byte → Exec W (Response Byte)

-- the fields of `vault`, with what it calls
pub record Vault (W Byte : Type 0) : Type 0 where
  pub vault_api_url : String
  pub vault_salt_secret : String
  pub web : Web W Byte
  pub gcm : Gcm W Byte

abbrev pub vault_key_length : ℕ
vault_key_length = 32

-- VkVersion1
abbrev pub vk_version1 : String
vk_version1 = "V1"

module _ {W Byte : Type 0} (v : Vault W Byte) where
  unfoldable pub compute_vk : String → String → String → List Byte
  compute_vk uuid pass version =
      v.web.pbkdf2 (v.web.bytes pass) (v.web.bytes (version <> (v.vault_salt_secret <> uuid)))
        100000 vault_key_length

  unfoldable pub compute_vsk : List Byte → String → String → List Byte
  compute_vsk vk pass version =
      v.web.pbkdf2 vk (v.web.bytes (version <> (v.vault_salt_secret <> pass))) 100000
        vault_key_length

  unfoldable pub encrypt : List Byte → List Byte → Exec W (List Byte)
  unfolding seal
  encrypt content key = seal v.gcm content key

  unfoldable pub decrypt : List Byte → List Byte → Result (List Byte)
  unfolding unseal
  decrypt ciphertext key = unseal v.gcm ciphertext key

  abbrev api_error : Result String → Result (List Byte)
  api_error (ok message) =
      if str_eq message "" then err (new "Unexpected API error") else err (new message)
  api_error (err e) = err e

  abbrev checked_body : ℕ → Result (List Byte) → Result (List Byte)
  checked_body status (err e) = err e
  checked_body status (ok body) =
      if ltb status 200 || leb 400 status then api_error (v.web.unmarshal_error body) else ok body

  unfoldable pub parse_api_response : Response Byte → Result (List Byte)
  parse_api_response resp = checked_body resp.status_code resp.body

  -- The error of http.NewRequest is not looked at, and the request is nil then.
  abbrev request_made : Failure → Failure
  request_made (ok u) = ok u
  request_made (err e) = err panic

  abbrev pub vsk_text : String → String → String
  vsk_text uuid passphrase =
      v.web.encode_to_string
        (compute_vsk (compute_vk uuid passphrase vk_version1) passphrase vk_version1)

  abbrev pub stored_as : StoreVaultRequest → StoredVault
  stored_as request = record { vault = request.vault; vsk = request.vsk }

  -- the request of `store` to the service
  unfoldable pub submit : String → StoreVaultRequest → Exec W StoredVault
  submit api_token store_request = do
    req_json ← lift (v.web.marshal_store store_request)
    lift (request_made (v.web.new_request (v.vault_api_url <> "/vaults")))
    resp ← v.web.do_post (v.vault_api_url <> "/vaults") api_token req_json
    lift (parse_api_response resp)
    pure (stored_as store_request)

  unfoldable pub store :
      String → String → KeyBackupType → String → List VaultItem → Exec W StoredVault
  unfolding encrypt
  store uuid passphrase backup_type api_token items = do
    vf ← lift (v.web.marshal_items items)
    enc_vf ← encrypt vf (compute_vk uuid passphrase vk_version1)
    submit api_token (record {
      vault = v.web.encode_to_string enc_vf;
      vsk = vsk_text uuid passphrase;
      type_ = backup_type_string backup_type;
    })

  -- the items in the body of the service's answer
  unfoldable pub opened_vault : List Byte → List Byte → Result (List VaultItem)
  unfolding decrypt
  opened_vault vk body = v.web.unmarshal_response body then λ enc_vf_base64.
      v.web.decode_string enc_vf_base64 then λ enc_vf.
      decrypt enc_vf vk then λ vf. v.web.unmarshal_items vf

  unfoldable pub retrieve : String → String → KeyBackupType → Exec W (List VaultItem)
  unfolding opened_vault parse_api_response
  retrieve uuid passphrase backup_type = do
    req_json ← lift (
        v.web.marshal_retrieve
          (record { vsk = vsk_text uuid passphrase; type_ = backup_type_string backup_type }))
    resp ← v.web.post (v.vault_api_url <> ("/vaults/" <> uuid)) req_json
    body ← lift (parse_api_response resp)
    lift (opened_vault (compute_vk uuid passphrase vk_version1) body)
