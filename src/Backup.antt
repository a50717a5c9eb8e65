-- ===== src/Backup.antt =====
-- core/backup/backup.go and core/space/services/services_vault.go: the key pair in a local file, and
-- in the vault.
pub mod Recovered
mod Tests
pub mod Vaulted
use space_daemon.Exec.{Exec, raise, lift, pure, attempt, ◌>>=◌, ◌>>◌}
use space_daemon.Keychain.{Devices}
use space_daemon.Keychain.Generate.{get_stored_key_pair, import_existing_key_pair, delete_keypair}
use space_daemon.Keychain.Pairs.{Bytes, Cryptography, Keychain, device, get_stored_mnemonic}
use space_daemon.Outcome.{Result, Failure, ok, err, new, panic, ◌>>=◌ as ◌then◌}
use space_daemon.Prelude.{String, ◌<>◌, List, [], ◌∷◌, Option, some, none}
use space_daemon.Prelude.Hex
use space_daemon.Prelude.Text.{cut}
use space_daemon.Vault.{
  Vault, VaultItem, KeyBackupType, password, private_key_with_mnemonic, store, retrieve,
}
use space_daemon.Vault.Seal.{Gcm, seal, unseal}

-- backup.Backup
pub record Backup : Type 0 where
  pub private_key : String

-- encoding/json and ioutil, with the static key of the backups
pub record Disk (W Byte : Type 0) : Type 0 where
  pub marshal_json : Backup → Result (List Byte)
  pub unmarshal_json : List Byte → Result Backup
  pub write_file : String → List Byte → Exec W (Unit {0})
  pub read_file : String → Exec W (List Byte)
  pub static_key : List Byte
  pub gcm : Gcm W Byte

module _ {W Byte : Type 0} (disk : Disk W Byte) where
  unfoldable pub obfuscate : List Byte → Exec W (List Byte)
  unfolding seal
  obfuscate content = seal disk.gcm content disk.static_key

  unfoldable pub deobfuscate : List Byte → Result (List Byte)
  unfolding unseal
  deobfuscate ciphertext = unseal disk.gcm ciphertext disk.static_key

  unfoldable pub marshal_backup : String → Backup → Exec W (Unit {0})
  unfolding obfuscate
  marshal_backup path b = do
    json_data ← lift (disk.marshal_json b)
    obfuscated_backup ← obfuscate json_data
    disk.write_file path obfuscated_backup

  unfoldable pub unmarshal_backup : String → Exec W Backup
  unfolding deobfuscate
  unmarshal_backup path = do
    obfuscated_backup ← disk.read_file path
    json_data ← lift (deobfuscate obfuscated_backup)
    lift (disk.unmarshal_json json_data)

abbrev pub separator : String
separator = "___"

abbrev decoded : Option Bytes → Result Bytes
decoded none = err (new "encoding/hex")
decoded (some bytes) = ok bytes

-- hex.DecodeString
pub decode_hex : String → Result Bytes
decode_hex text = decoded (Hex.decode text)

-- the piece of strings.Split at 1, for which there is no test
abbrev pub second : Option String → Result String
second none = err panic
second (some rest) = ok (cut separator rest).0

-- `Space`, with what the services call: libp2p's keys, the textile client and the hub
pub record Space (W Priv Pub Key Byte : Type 0) : Type 0 where
  pub devices : Devices W
  pub cryptography : Cryptography W Priv Pub Key
  pub disk : Disk W Byte
  pub vault : Vault W Byte
  -- crypto.UnmarshalEd25519PrivateKey
  pub unmarshal_ed25519 : Bytes → Result Priv
  pub restore_db : Exec W (Unit {0})
  -- GetAPISessionTokens, for the token of the services
  pub services_token : Exec W String

module _ {W Priv Pub Key Byte : Type 0} (s : Space W Priv Pub Key Byte) where
  abbrev pub outside : {A : Type 0} → Exec W A → Exec (Keychain W Priv) A
  outside call = device s.devices s.cryptography call

  unfoldable pub create_local_keys_backup : String → Exec (Keychain W Priv) (Unit {0})
  create_local_keys_backup path = do
    pair ← get_stored_key_pair s.devices s.cryptography
    priv_in_bytes ← lift (s.cryptography.raw pair.0)
    outside (marshal_backup s.disk path (record { private_key = Hex.encode priv_in_bytes }))

  -- the result of RestoreDB, on whose error the key pair is deleted again
  abbrev undo : Result (Unit {0}) → Exec (Keychain W Priv) (Unit {0})
  undo (ok done) = pure tt
  undo (err e) = attempt (delete_keypair s.devices s.cryptography) >>= λ _. raise e

  unfoldable pub import_and_restore : Priv → String → Exec (Keychain W Priv) (Unit {0})
  import_and_restore priv mnemonic = do
    import_existing_key_pair s.devices s.cryptography priv mnemonic
    outcome ← attempt (outside s.restore_db)
    undo outcome

  unfoldable pub recover_keys_by_local_backup : String → Exec (Keychain W Priv) (Unit {0})
  recover_keys_by_local_backup path = do
    b ← outside (unmarshal_backup s.disk path)
    priv_in_bytes ← lift (decode_hex b.private_key)
    priv ← lift (s.unmarshal_ed25519 priv_in_bytes)
    import_and_restore priv ""

  abbrev pub recover_pieces : String × Option String → Exec (Keychain W Priv) (Unit {0})
  recover_pieces (first, rest) = do
    priv_in_bytes ← lift (decode_hex first)
    priv ← lift (s.unmarshal_ed25519 priv_in_bytes)
    mnemonic ← lift (second rest)
    import_and_restore priv mnemonic

  abbrev pub recover_item : List VaultItem → Exec (Keychain W Priv) (Unit {0})
  recover_item [] = raise (new "Retrieved vault does not contain keys")
  recover_item (item ∷ items) = recover_pieces (cut separator item.value)

  unfoldable pub recover_keys_by_passphrase :
      String → String → KeyBackupType → Exec (Keychain W Priv) (Unit {0})
  recover_keys_by_passphrase uuid pass backup_type = do
    items ← outside (retrieve s.vault uuid pass backup_type)
    recover_item items

  unfoldable pub backup_keys_by_passphrase :
      String → String → KeyBackupType → Exec (Keychain W Priv) (Unit {0})
  backup_keys_by_passphrase uuid pass backup_type = do
    token ← outside s.services_token
    pair ← get_stored_key_pair s.devices s.cryptography
    priv_in_bytes ← lift (s.cryptography.raw pair.0)
    mnemonic ← outside (get_stored_mnemonic s.devices)
    outside (
        store s.vault uuid pass backup_type token (
          record {
            item_type = private_key_with_mnemonic;
            value = Hex.encode priv_in_bytes <> (separator <> mnemonic);
          }
          ∷ []))
    pure tt

  abbrev keys_found : List VaultItem → Failure
  keys_found [] = err (new "Retrieved vault does not contain keys")
  keys_found (item ∷ items) = ok tt

  unfoldable pub test_passphrase : String → String → Exec (Keychain W Priv) (Unit {0})
  test_passphrase uuid pass = do
    items ← outside (retrieve s.vault uuid pass password)
    lift (keys_found items)
