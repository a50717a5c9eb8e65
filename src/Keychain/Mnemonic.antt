-- ===== src/Keychain/Mnemonic.antt =====
-- core/keychain/mnemonic.go, and core/space/services/services_keypair.go, which calls it.
use space_daemon.Exec.{Exec, pure, raise, lift, attempt, ◌>>=◌, ◌>>◌}
use space_daemon.Keychain.{Devices}
use space_daemon.Keychain.Generate.{generate_and_store_key_pair, delete_keypair}
use space_daemon.Keychain.Pairs.{
  Cryptography, Keychain, device, get_stored_public_key, get_stored_mnemonic,
}
use space_daemon.Outcome.{Result, ok, err, new}
use space_daemon.Prelude.{String, Bool, true, false, not, ◌&&◌, some, ◌<>◌, if◌then◌else◌, str_eq}
use space_daemon.Prelude.Hex

pub record GenerateKeyFromMnemonicOpts : Type 0 where
  pub override : Bool
  pub mnemonic : String
  pub password : String

abbrev pub default_mnemonic_opts : GenerateKeyFromMnemonicOpts
default_mnemonic_opts = record { override = false; mnemonic = ""; password = "" }

abbrev pub with_mnemonic : String → GenerateKeyFromMnemonicOpts → GenerateKeyFromMnemonicOpts
with_mnemonic m o = if str_eq m "" then o else record o { mnemonic = m }

abbrev pub with_password : String → GenerateKeyFromMnemonicOpts → GenerateKeyFromMnemonicOpts
with_password p o = if str_eq p "" then o else record o { password = p }

abbrev pub with_override : GenerateKeyFromMnemonicOpts → GenerateKeyFromMnemonicOpts
with_override o = record o { override = true }

-- `val != nil` implies that there is no error
abbrev pub has_key : {A : Type 0} → Result A → Bool
has_key (ok val) = true
has_key (err e) = false

module _ {W Priv Pub Key : Type 0} (D : Devices W) (X : Cryptography W Priv Pub Key) where
  abbrev pub new_or_given : String → Exec W String
  new_or_given mnemonic =
      if not (str_eq mnemonic "")
      then pure mnemonic
      else do entropy ← X.new_entropy 128; lift (X.new_mnemonic entropy)

  unfoldable pub generate_key_from_mnemonic :
      GenerateKeyFromMnemonicOpts → Exec (Keychain W Priv) String
  generate_key_from_mnemonic o = do
    found ← attempt (device D X (get_stored_public_key D X))
    if has_key found && not o.override
        then raise (new "Error while executing GenerateKeyFromMnemonic. Key pair already exists.")
        else do
          mnemonic ← device D X (new_or_given o.mnemonic)
          seed ← lift (X.new_seed mnemonic o.password)
          generate_and_store_key_pair D X (some (X.pbkdf2 seed ("iter2" <> o.password) 512 32))
              mnemonic
          pure mnemonic

  -- `GenerateKeyPair` of the service
  unfoldable pub service_generate_key_pair : Bool → Exec (Keychain W Priv) String
  service_generate_key_pair use_force =
      generate_key_from_mnemonic
        (if use_force then with_override default_mnemonic_opts else default_mnemonic_opts)

  abbrev pub unless_restored : Result (Unit {0}) → Exec (Keychain W Priv) (Unit {0})
  unless_restored (ok a) = pure tt
  unless_restored (err e) = do attempt (delete_keypair D X); raise e

  -- The first parameter is `RestoreDB` of the textile client. The error of `DeleteKeypair` is dropped.
  unfoldable pub restore_key_pair_from_mnemonic :
      Exec W (Unit {0}) → String → Exec (Keychain W Priv) (Unit {0})
  restore_key_pair_from_mnemonic restore_db mnemonic = do
    generate_key_from_mnemonic (with_override (with_mnemonic mnemonic default_mnemonic_opts))
    restored ← attempt (device D X restore_db)
    unless_restored restored

  unfoldable pub service_get_public_key : Exec W String
  service_get_public_key = do
    pub_key ← get_stored_public_key D X
    bytes ← lift (X.raw_public pub_key)
    pure (Hex.encode bytes)

  unfoldable pub service_get_mnemonic : Exec W String
  service_get_mnemonic = do
    mnemonic ← get_stored_mnemonic D
    if str_eq mnemonic ""
        then raise (new "No mnemonic seed stored in the keychain")
        else pure mnemonic
