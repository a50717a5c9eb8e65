-- ===== src/Backup/Recovered.antt =====
-- core/space/services/services_vault.go: recovering from a backup imports the key pair that was
-- backed up.
use space_daemon.Backup.{
  Backup, Disk, Space, marshal_backup, unmarshal_backup, obfuscate, deobfuscate, decode_hex,
  create_local_keys_backup, import_and_restore, recover_keys_by_local_backup,
}
use space_daemon.Exec.{lift, ◌>>=◌}
use space_daemon.Exec.Returns.{bind-through}
use space_daemon.Keychain.Generate.{get_stored_key_pair}
use space_daemon.Keychain.Pairs.{Bytes, Keychain, device}
use space_daemon.Outcome.{ok}
use space_daemon.Prelude.{String, List, ◌≡◌, refl, ap, ◌∙◌}
use space_daemon.Prelude.Hex
use space_daemon.Vault.Seal.{IsGcm, unseal-seal}

-- What is relied on of the JSON form and of the files.
pub record IsDisk {W Byte : Type 0} (disk : Disk W Byte) : Type 0 where
  pub unmarshal-marshal :
      (b : Backup) (json : List Byte)
      → disk.marshal_json b ≡ ok json
      → disk.unmarshal_json json ≡ ok b
  pub read-write :
      (path : String) (content : List Byte) (w : W)
      → (disk.write_file path content w).0 ≡ ok tt
      → (disk.read_file path (disk.write_file path content w).1).0 ≡ ok content
  pub reading : (path : String) (w : W) → (disk.read_file path w).1 ≡ w

-- What is relied on of libp2p: the raw form of a key is bytes, from which the key is made again.
pub record IsKeyCoding {W Priv Pub Key Byte : Type 0} (s : Space W Priv Pub Key Byte) : Type 0 where
  pub raw_bytes : (priv : Priv) (raw : Bytes) → s.cryptography.raw priv ≡ ok raw → Hex.AreBytes raw
  pub unmarshal_raw :
      (priv : Priv) (raw : Bytes)
      → s.cryptography.raw priv ≡ ok raw
      → s.unmarshal_ed25519 raw ≡ ok priv

pub decode_hex-encode : (raw : Bytes) → Hex.AreBytes raw → decode_hex (Hex.encode raw) ≡ ok raw
unfolding decode_hex
decode_hex-encode raw h = rw (Hex.decode-encode raw h) refl

module _ {W Byte : Type 0} (disk : Disk W Byte) (gcm : IsGcm disk.gcm) (laws : IsDisk disk) where
  -- the file of a backup, as any later world has it
  unmarshal_backup-file :
      (path : String) (b : Backup) (json file : List Byte) (v w : W)
      → disk.marshal_json b ≡ ok json
      → (obfuscate disk json v).0 ≡ ok file
      → (disk.read_file path w).0 ≡ ok file
      → unmarshal_backup disk path w ≡ (ok b, w)
  unfolding unmarshal_backup deobfuscate obfuscate lift ◌>>=◌
  unmarshal_backup-file path b json file v w marshalled obfuscated found =
      rw
        (
          found,
          laws.reading path w,
          unseal-seal disk.gcm gcm disk.static_key json file v obfuscated,
          laws.unmarshal-marshal b json marshalled,
        )
        refl

  pub unmarshal_backup-marshal_backup :
      (path : String) (b : Backup) (v w : W)
      → (marshal_backup disk path b v).0 ≡ ok tt
      → (disk.read_file path w).0 ≡ (disk.read_file path (marshal_backup disk path b v).1).0
      → unmarshal_backup disk path w ≡ (ok b, w)
  unfolding marshal_backup lift
  unmarshal_backup-marshal_backup path b v w h same =
      let (json, marshalled, h1, t1) = bind-through (lift (disk.marshal_json b)) _ v tt h in
      let (file, obfuscated, h2, t2) = bind-through (obfuscate disk json) _ _ tt h1 in
      let found =
        same ∙ ap (λ t. (disk.read_file path t).0) (t1 ∙ t2) ∙ laws.read-write path file _ h2 in
      unmarshal_backup-file path b json file v w marshalled obfuscated found

module _ {W Priv Pub Key Byte : Type 0} (s : Space W Priv Pub Key Byte)
    (coding : IsKeyCoding s) where
  -- A local backup of the keys that was made is recovered, in any state in which the file has the
  -- content that the backup left, by importing the key that was stored, without a mnemonic, and
  -- restoring the databases.
  pub recover_keys_by_local_backup-create_local_keys_backup :
      (gcm : IsGcm s.disk.gcm) (laws : IsDisk s.disk) (path : String) (k later : Keychain W Priv)
      → (create_local_keys_backup s path k).0 ≡ ok tt
      → (s.disk.read_file path later.world).0
        ≡ (s.disk.read_file path (create_local_keys_backup s path k).1.world).0
      → (pair : Priv × Pub) × ((get_stored_key_pair s.devices s.cryptography k).0 ≡ ok pair)
        × (recover_keys_by_local_backup s path later ≡ import_and_restore s pair.0 "" later)
  unfolding create_local_keys_backup recover_keys_by_local_backup device lift ◌>>=◌
  recover_keys_by_local_backup-create_local_keys_backup gcm laws path k later h same =
      let (pair, stored, h1, t1) =
        bind-through (get_stored_key_pair s.devices s.cryptography) _ k tt h in
      let (raw, known, h2, t2) = bind-through (lift (s.cryptography.raw pair.0)) _ _ tt h1 in
      let b : Backup = record { private_key = Hex.encode raw } in
      let found =
        same ∙ ap (λ (t : Keychain W Priv). (s.disk.read_file path t.world).0) (t1 ∙ t2) in
      let read = unmarshal_backup-marshal_backup s.disk gcm laws path b _ later.world h2 found in
      (
        pair,
        stored,
        rw
            (
              read,
              decode_hex-encode raw (coding.raw_bytes pair.0 raw known),
              coding.unmarshal_raw pair.0 raw known,
            )
            refl,
      )
