-- ===== src/Keychain/Generate.antt =====
-- core/keychain/keychain.go: the operations that make, import, read and delete the key pair.
use space_daemon.Exec.{Exec, pure, raise, lift, attempt, gets, ◌>>=◌, ◌>>◌}
use space_daemon.Keychain.{Devices, get_key_ring}
use space_daemon.Keychain.Pairs.{
  Bytes, Cryptography, Keychain, device, cache, get_stored_public_key, store_key_pair,
  retrieve_key_pair, private_key_store_key, public_key_store_key,
}
use space_daemon.Outcome.{Err, Result, ok, err, new, panic, key_pair_not_found}
use space_daemon.Prelude.{String, Option, some, none, ◌<>◌}

module _ {W Priv Pub Key : Type 0} (D : Devices W) (X : Cryptography W Priv Pub Key) where
  -- a nil seed is `none`; the public key of a key made from a seed always has the type tested for
  unfoldable pub generate_key_from : Option Bytes → Exec W (Bytes × Bytes)
  generate_key_from (some seed) = pure (X.new_key_from_seed seed)
  generate_key_from none = X.generate_key

  -- the value that `UnmarshalEd25519PrivateKey` returns beside an error is nil
  abbrev pub or_nil : Result Priv → Option Priv
  or_nil (ok priv) = some priv
  or_nil (err e) = none

  unfoldable pub generate_and_store_key_pair :
      Option Bytes → String → Exec (Keychain W Priv) (Bytes × Bytes)
  generate_and_store_key_pair seed mnemonic = do
    pair ← device D X (generate_key_from seed)
    device D X (store_key_pair D pair.1 pair.0 mnemonic)
    cache D X (some (or_nil (X.unmarshal_private_key pair.1)))
    pure pair

  abbrev pub unless_stored :
      {A : Type 0} → Err → Result Pub → Exec (Keychain W Priv) A → Exec (Keychain W Priv) A
  unless_stored e (ok pub_key) m = raise e
  unless_stored e (err x) m = m

  abbrev pub already_exists : Err
  already_exists =
      new
        "Error while executing GenerateKeyPair. Key pair already exists. Use GenerateKeyPairWithForce if you want to override it."

  unfoldable pub generate_key_pair : Exec (Keychain W Priv) (Bytes × Bytes)
  generate_key_pair = do
    found ← attempt (device D X (get_stored_public_key D X))
    unless_stored already_exists found (generate_and_store_key_pair none "")

  unfoldable pub generate_key_pair_with_force : Exec (Keychain W Priv) (Bytes × Bytes)
  generate_key_pair_with_force = generate_and_store_key_pair none ""

  abbrev pub not_found : {A : Type 0} → Result A → Exec (Keychain W Priv) A
  not_found (ok a) = pure a
  not_found (err e) = raise key_pair_not_found

  -- (*kc.privKey).GetPublic() panics at a nil interface
  abbrev pub cached_or_read : Option (Option Priv) → Exec (Keychain W Priv) (Priv × Pub)
  cached_or_read (some (some priv)) = pure (priv, X.get_public priv)
  cached_or_read (some none) = raise panic
  cached_or_read none = do
    read ← attempt (device D X (retrieve_key_pair D))
    found ← not_found read
    priv ← lift (X.unmarshal_private_key found.0)
    cache D X (some (some priv))
    pure (priv, X.get_public priv)

  unfoldable pub get_stored_key_pair : Exec (Keychain W Priv) (Priv × Pub)
  get_stored_key_pair = do
    device D X (get_stored_public_key D X)
    cached ← gets (λ k. k.priv_key)
    cached_or_read cached

  unfoldable pub import_existing_key_pair : Priv → String → Exec (Keychain W Priv) (Unit {0})
  import_existing_key_pair priv mnemonic = do
    priv_bytes ← lift (X.raw priv)
    pub_bytes ← lift (X.raw_public (X.get_public priv))
    device D X (store_key_pair D priv_bytes pub_bytes mnemonic)
    cache D X (some (some priv))

  -- the error of `ring.Remove` is overwritten by that of `st.Remove`
  unfoldable pub delete_keypair : Exec (Keychain W Priv) (Unit {0})
  delete_keypair = do
    device D X (get_key_ring D)
    attempt (device D X (D.ring_remove private_key_store_key))
    device D X (D.st_remove public_key_store_key)
    cache D X none

  unfoldable pub get_managed_thread_key : String → Exec (Keychain W Priv) Key
  get_managed_thread_key name = do
    device D X (get_stored_public_key D X)
    pair ← get_stored_key_pair
    bytes ← lift (X.raw pair.0)
    lift (X.key_from_bytes (X.pbkdf2 bytes ("threadKey" <> name) 256 32))
