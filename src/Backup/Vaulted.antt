-- ===== src/Backup/Vaulted.antt =====
-- core/space/services/services_vault.go: recovering from the vault imports the key and the mnemonic
-- that were backed up.
use space_daemon.Backup.{
  Space, separator, outside, import_and_restore, recover_item, recover_keys_by_passphrase,
  backup_keys_by_passphrase,
}
use space_daemon.Exec.{lift, pure, ◌>>=◌}
use space_daemon.Exec.Returns.{bind-step, bind-through}
use space_daemon.Keychain.Generate.{get_stored_key_pair}
use space_daemon.Keychain.Pairs.{
  Bytes, Keychain, decoded_key, device, get_stored_mnemonic, private_key_store_key,
  retrieve_key_pair, second_piece,
}
use space_daemon.Keychain.{Devices, get_key_ring}
use space_daemon.Outcome.{ok, ok-injective}
use space_daemon.Prelude.{
  String, ◌<>◌, true, List, [], ◌∷◌, Option, some, none, ◌≡◌, refl, ap, ◌∙◌, subst,
}
use space_daemon.Prelude.Cuts.{cut-first}
use space_daemon.Prelude.Hex
use space_daemon.Prelude.Text.{cut, cut-append, cut-none, lacks}
use space_daemon.Vault.{
  VaultItem, KeyBackupType, StoredVault, private_key_with_mnemonic, store, retrieve,
}
use space_daemon.Vault.RoundTrip.{IsVaultService, retrieve-store}
use space_daemon.Vault.Seal.{IsGcm}
use space_daemon.Backup.Recovered.{IsKeyCoding, decode_hex-encode}

second_piece-whole :
    {W : Type 0} (D : Devices W) (rest : Option String) (mnemonic : String)
    → second_piece D rest ≡ ok mnemonic
    → (cut separator mnemonic).1 ≡ none
second_piece-whole D none mnemonic h = absurd (cc h)
second_piece-whole D (some rest) mnemonic h =
    subst (λ m. (cut separator m).1 ≡ none) (ok-injective h) (cut-first separator rest)

decoded_key-second :
    {W : Type 0} (D : Devices W) (bytes : Option Bytes) (mnemonic : String) (found : Bytes × String)
    → decoded_key D bytes mnemonic ≡ ok found
    → mnemonic ≡ found.1
decoded_key-second D none mnemonic found h = absurd (cc h)
decoded_key-second D (some bytes) mnemonic found h = ap (λ p. p.1) (ok-injective h)

-- A mnemonic that is read from the keyring does not have the separator.
get_stored_mnemonic-whole :
    {W : Type 0} (D : Devices W) (mnemonic : String) (w : W)
    → (get_stored_mnemonic D w).0 ≡ ok mnemonic
    → (cut separator mnemonic).1 ≡ none
unfolding get_stored_mnemonic retrieve_key_pair lift pure
get_stored_mnemonic-whole D mnemonic w h =
    let (found, read, same) = bind-step (retrieve_key_pair D) _ w mnemonic h in
    let (_, _, h1) = bind-step (get_key_ring D) _ w found read in
    let (text, _, h2) = bind-step (D.ring_get private_key_store_key) _ _ found h1 in
    let (words, second, h3) =
      bind-step (lift (second_piece D (cut separator text).1)) _ _ found h2 in
    second_piece-whole D _ mnemonic
      (second ∙ ap ok (decoded_key-second D _ words found h3 ∙ ok-injective same))

module _ {W Priv Pub Key Byte : Type 0} (s : Space W Priv Pub Key Byte)
    (coding : IsKeyCoding s) where
  -- the pieces of the value that is stored in the vault
  cut-value :
      (priv mnemonic : String)
      → lacks "_" priv ≡ true
      → cut separator (priv <> (separator <> mnemonic)) ≡ (priv, some mnemonic)
  cut-value priv mnemonic h = cut-append "_" "__" priv mnemonic h

  -- what is stored in the vault
  abbrev item_of : Bytes → String → List VaultItem
  item_of raw mnemonic =
      record {
        item_type = private_key_with_mnemonic;
        value = Hex.encode raw <> (separator <> mnemonic);
      }
      ∷ []

  recover_item-value :
      (priv : Priv) (raw : Bytes) (mnemonic : String) (k : Keychain W Priv)
      → s.cryptography.raw priv ≡ ok raw
      → (cut separator mnemonic).1 ≡ none
      → recover_item s (item_of raw mnemonic) k ≡ import_and_restore s priv mnemonic k
  unfolding lift ◌>>=◌
  recover_item-value priv raw mnemonic k known whole =
      let bytes = coding.raw_bytes priv raw known in
      rw
        (
          cut-value (Hex.encode raw) mnemonic (Hex.encode-lacks raw bytes),
          decode_hex-encode raw bytes,
          coding.unmarshal_raw priv raw known,
          cut-none separator mnemonic whole,
        )
        refl

  retrieve-found :
      (owner : String → String) (service : IsVaultService s.vault owner) (gcm : IsGcm s.vault.gcm)
      (uuid pass token : String) (backup_type : KeyBackupType) (items : List VaultItem) (w : W)
      (kept : StoredVault)
      → owner token ≡ uuid
      → (store s.vault uuid pass backup_type token items w).0 ≡ ok kept
      → (retrieve s.vault uuid pass backup_type
          (store s.vault uuid pass backup_type token items w).1).0
        ≡ ok items
  retrieve-found owner service gcm uuid pass token backup_type items w kept user =
      subst
        (λ u.
          (store s.vault u pass backup_type token items w).0 ≡ ok kept
          → (retrieve s.vault u pass backup_type
              (store s.vault u pass backup_type token items w).1).0
            ≡ ok items)
        user (retrieve-store s.vault owner service gcm pass token backup_type items w kept)

  -- the state after the token of the services was asked for
  abbrev pub granted : Keychain W Priv → Keychain W Priv
  granted k = (outside s s.services_token k).1

  -- Where the vault service keeps what the owner of a token stores, what is sealed can be opened
  -- and the token is that of the user's ID: a backup of the
  -- keys under a passphrase that was made is recovered with the passphrase, in any state in which
  -- the vault answers as it did after the backup, by importing the key and the mnemonic that were
  -- stored and restoring the databases.
  pub recover_keys_by_passphrase-backup_keys_by_passphrase :
      (owner : String → String) (service : IsVaultService s.vault owner) (gcm : IsGcm s.vault.gcm)
      (uuid pass : String) (backup_type : KeyBackupType) (k later : Keychain W Priv)
      → ((w : W) (token : String) → (s.services_token w).0 ≡ ok token → owner token ≡ uuid)
      → (backup_keys_by_passphrase s uuid pass backup_type k).0 ≡ ok tt
      → (retrieve s.vault uuid pass backup_type later.world).0
        ≡ (retrieve s.vault uuid pass backup_type
            (backup_keys_by_passphrase s uuid pass backup_type k).1.world).0
      → (pair : Priv × Pub) × (mnemonic : String) × ((get_stored_key_pair s.devices s.cryptography
            (granted k)).0
          ≡ ok pair)
        × ((get_stored_mnemonic s.devices
              (get_stored_key_pair s.devices s.cryptography (granted k)).1.world).0
            ≡ ok mnemonic)
        × (recover_keys_by_passphrase s uuid pass backup_type later
            ≡ import_and_restore s pair.0 mnemonic
                (record later { world = (retrieve s.vault uuid pass backup_type later.world).1 }))
  unfolding backup_keys_by_passphrase recover_keys_by_passphrase device lift pure ◌>>=◌
  recover_keys_by_passphrase-backup_keys_by_passphrase owner service gcm uuid pass backup_type k
        later owned h same =
      let (token, granted, h1, t1) = bind-through (outside s s.services_token) _ k tt h in
      let (pair, stored, h2, t2) =
        bind-through (get_stored_key_pair s.devices s.cryptography) _ _ tt h1 in
      let (raw, known, h3, t3) = bind-through (lift (s.cryptography.raw pair.0)) _ _ tt h2 in
      let (mnemonic, words, h4, t4) =
        bind-through (outside s (get_stored_mnemonic s.devices)) _ _ tt h3 in
      let (kept, put, _, t5) =
        bind-through (outside s (store s.vault uuid pass backup_type token (item_of raw mnemonic)))
          _ _ tt h4 in
      let user = owned k.world token granted in
      let back =
        retrieve-found owner service gcm uuid pass token backup_type (item_of raw mnemonic) _ kept
          user put in
      let found =
        same
        ∙ ap (λ (t : Keychain W Priv). (retrieve s.vault uuid pass backup_type t.world).0)
            (t1 ∙ t2 ∙ t3 ∙ t4 ∙ t5)
        ∙ back in
      (
        pair,
        mnemonic,
        stored,
        words,
        rw found (
            recover_item-value pair.0 raw mnemonic _ known
              (get_stored_mnemonic-whole s.devices mnemonic _ words)),
      )
