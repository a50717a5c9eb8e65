-- ===== src/Backup/Tests/Runs.antt =====
-- Runs of the backups on files and a vault in memory.
use space_daemon.Backup.{
  create_local_keys_backup, import_and_restore, recover_keys_by_local_backup,
  recover_keys_by_passphrase, backup_keys_by_passphrase, marshal_backup,
}
use space_daemon.Backup.Recovered.{recover_keys_by_local_backup-create_local_keys_backup}
use space_daemon.Backup.Vaulted.{granted, recover_keys_by_passphrase-backup_keys_by_passphrase}
use space_daemon.Exec.{attempt, lift, pure, ◌>>=◌}
use space_daemon.Keychain.Generate.{get_stored_key_pair}
use space_daemon.Keychain.Pairs.{
  Bytes, Keychain, cache, device, get_stored_mnemonic, get_stored_public_key, retrieve_key_pair,
  store_key_pair,
}
use space_daemon.Keychain.{get_key_ring}
use space_daemon.Keychain.Tests.{Disk as Machine, in_memory, after_pair}
use space_daemon.Outcome.{ok}
use space_daemon.Prelude.{String, List, [], ◌∷◌, ◌++◌, none, ◌≡◌, refl}
use space_daemon.Prelude.Hex
use space_daemon.Prelude.Map.{lookup, insert}
use space_daemon.Prelude.Text.{cut}
use space_daemon.Vault.{
  VaultItem, password, private_key_with_mnemonic, store, submit, compute_vk, compute_vsk, retrieve,
  parse_api_response,
}
use space_daemon.Vault.RoundTrip.{retrieve-store}
use space_daemon.Backup.Tests.{
  encode, fives, owner, vault, space, cryptography, vault-IsVaultService, open_box-IsGcm,
  disk-IsDisk, space-IsKeyCoding,
}

backed_up : (create_local_keys_backup space "/backup" after_pair).0 ≡ ok tt
unfolding create_local_keys_backup get_stored_key_pair device get_stored_public_key get_key_ring
    lookup store_key_pair insert retrieve_key_pair Hex.encode Hex.decode cut ◌>>=◌ pure lift attempt
    cache marshal_backup
backed_up = refl

abbrev later : Keychain Machine Bytes
later = record {
  priv_key = none;
  world = (create_local_keys_backup space "/backup" after_pair).1.world;
}

recover_keys_by_local_backup-create_local_keys_backup_example :
    (pair : Bytes × Bytes) × ((get_stored_key_pair in_memory cryptography after_pair).0 ≡ ok pair)
    × (recover_keys_by_local_backup space "/backup" later
        ≡ import_and_restore space pair.0 "" later)
recover_keys_by_local_backup-create_local_keys_backup_example =
    recover_keys_by_local_backup-create_local_keys_backup space space-IsKeyCoding open_box-IsGcm
      disk-IsDisk "/backup" after_pair later backed_up refl

backed_up_in_vault : (backup_keys_by_passphrase space "user" "secret" password after_pair).0 ≡ ok tt
unfolding backup_keys_by_passphrase get_stored_key_pair device get_stored_public_key get_key_ring
    lookup store_key_pair insert retrieve_key_pair get_stored_mnemonic Hex.encode Hex.decode cut
    ◌>>=◌ pure lift attempt store submit cache parse_api_response
backed_up_in_vault = refl

abbrev elsewhere : Keychain Machine Bytes
elsewhere = record {
  priv_key = none;
  world = (backup_keys_by_passphrase space "user" "secret" password after_pair).1.world;
}

recover_keys_by_passphrase-backup_keys_by_passphrase_example :
    (pair : Bytes × Bytes) × (mnemonic : String) × ((get_stored_key_pair in_memory cryptography
        (granted space space-IsKeyCoding after_pair)).0
      ≡ ok pair)
    × ((get_stored_mnemonic in_memory
          (get_stored_key_pair in_memory cryptography
            (granted space space-IsKeyCoding after_pair)).1.world).0
        ≡ ok mnemonic)
    × (recover_keys_by_passphrase space "user" "secret" password elsewhere
        ≡ import_and_restore space pair.0 mnemonic (record elsewhere {
          world = (retrieve vault "user" "secret" password elsewhere.world).1;
        }))
recover_keys_by_passphrase-backup_keys_by_passphrase_example =
    recover_keys_by_passphrase-backup_keys_by_passphrase space space-IsKeyCoding owner
      vault-IsVaultService open_box-IsGcm "user" "secret" password after_pair elsewhere
      (λ w token h. refl) backed_up_in_vault refl

abbrev one_item : List VaultItem
one_item = record { item_type = private_key_with_mnemonic; value = "07___words" } ∷ []

is_stored :
    (store vault "user" "secret" password "token" one_item after_pair.world).0
    ≡ ok (record { vault = encode (fives 12 ++ (1 ∷ [])); vsk = encode (fives 32) })
unfolding store submit ◌>>=◌ pure lift parse_api_response compute_vk compute_vsk
is_stored = refl

retrieve-store_example :
    (retrieve vault "user" "secret" password
      (store vault "user" "secret" password "token" one_item after_pair.world).1).0
    ≡ ok one_item
retrieve-store_example =
    retrieve-store vault owner vault-IsVaultService open_box-IsGcm "secret" "token" password
      one_item after_pair.world _ is_stored
