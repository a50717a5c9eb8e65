-- ===== src/Keychain/Pairs.antt =====
-- core/keychain/keychain.go and core/keychain/mnemonic.go: the key pair with its mnemonic.
use space_daemon.Exec.{Exec, pure, raise, lift, attempt, ◌>>=◌, ◌>>◌}
use space_daemon.Keychain.{Devices, get_key_ring}
use space_daemon.Outcome.{Result, ok, err, new, panic, key_pair_not_found, keyring_key_not_found}
use space_daemon.Prelude.{
  ℕ, String, Bool, true, false, List, Option, some, none, ◌<>◌, if◌then◌else◌,
}
use space_daemon.Prelude.Hex
use space_daemon.Prelude.Text.{cut}

abbrev pub private_key_store_key : String
private_key_store_key = "key"

abbrev pub public_key_store_key : String
public_key_store_key = "pub"

abbrev pub priv_key_mnemonic_separator : String
priv_key_mnemonic_separator = "___"

abbrev pub Bytes : Type 0
Bytes = List ℕ

-- The cryptography: libp2p's keys, crypto/ed25519, pbkdf2 with SHA-512, bip39 and go-threads' keys.
pub record Cryptography (W Priv Pub Key : Type 0) : Type 0 where
  pub unmarshal_private_key : Bytes → Result Priv
  pub unmarshal_public_key : Bytes → Result Pub
  pub raw : Priv → Result Bytes
  pub get_public : Priv → Pub
  pub raw_public : Pub → Result Bytes
  -- the public and the private key
  pub new_key_from_seed : Bytes → Bytes × Bytes
  pub generate_key : Exec W (Bytes × Bytes)
  pub sign : Bytes → Bytes → Bytes
  pub pbkdf2 : Bytes → String → ℕ → ℕ → Bytes
  pub new_entropy : ℕ → Exec W Bytes
  pub new_mnemonic : Bytes → Result String
  pub new_seed : String → String → Result Bytes
  pub key_from_bytes : Bytes → Result Key

-- The fields of `keychain` that change, with the world of its devices. `priv_key` is a pointer to an
-- interface, and both may be nil.
pub record Keychain (W Priv : Type 0) : Type 0 where
  pub priv_key : Option (Option Priv)
  pub world : W

module _ {W : Type 0} (D : Devices W) where
  unfoldable pub store_key_pair : Bytes → Bytes → String → Exec W (Unit {0})
  store_key_pair priv pub_key mnemonic = do
    get_key_ring D
    D.ring_set private_key_store_key (Hex.encode priv <> (priv_key_mnemonic_separator <> mnemonic))
    D.st_set public_key_store_key pub_key

  -- the pieces of strings.Split(…, privKeyMnemonicSeparator) at 1 and at 0
  abbrev pub second_piece : Option String → Result String
  second_piece none = err panic
  second_piece (some rest) = ok (cut priv_key_mnemonic_separator rest).0

  abbrev pub decoded_key : Option Bytes → String → Result (Bytes × String)
  decoded_key none mnemonic = err (new "encoding/hex")
  decoded_key (some priv) mnemonic = ok (priv, mnemonic)

  abbrev pub read_pair : String × Option String → Exec W (Bytes × String)
  read_pair (first, rest) = do
    mnemonic ← lift (second_piece rest)
    lift (decoded_key (Hex.decode first) mnemonic)

  unfoldable pub retrieve_key_pair : Exec W (Bytes × String)
  unfolding cut
  retrieve_key_pair = do
    get_key_ring D
    text ← D.ring_get private_key_store_key
    read_pair (cut priv_key_mnemonic_separator text)

  unfoldable pub get_stored_mnemonic : Exec W String
  get_stored_mnemonic = do found ← retrieve_key_pair; pure found.1

  -- err == keyring.ErrKeyNotFound
  abbrev pub is_key_not_found : Result (Unit {0}) → Bool
  is_key_not_found (err keyring_key_not_found) = true
  is_key_not_found (err e) = false
  is_key_not_found (ok a) = false

  module _ {Priv Pub Key : Type 0} (X : Cryptography W Priv Pub Key) where
    abbrev pub public_key : Option Bytes → Result Pub
    public_key none = err key_pair_not_found
    public_key (some bytes) = X.unmarshal_public_key bytes

    unfoldable pub get_stored_public_key : Exec W Pub
    get_stored_public_key = do
      get_key_ring D
      found ← attempt (D.ring_get_metadata private_key_store_key)
      if is_key_not_found found
          then raise key_pair_not_found
          else do bytes ← D.st_get public_key_store_key; lift (public_key bytes)

    unfoldable pub sign : Bytes → Exec W Bytes
    sign message = do found ← retrieve_key_pair; pure (X.sign found.0 message)

    -- a call that leaves the cached key alone
    unfoldable pub device : {A : Type 0} → Exec W A → Exec (Keychain W Priv) A
    device m k = let (r, w) = m k.world in (r, record k { world = w })

    -- kc.privKey = …
    unfoldable pub cache : Option (Option Priv) → Exec (Keychain W Priv) (Unit {0})
    cache p k = (ok tt, record k { priv_key = p })
