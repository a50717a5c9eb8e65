-- ===== src/Keychain.antt =====
-- core/keychain: where the key pair and the app tokens are kept. The keyring of the operating system,
-- the store and the cryptography are parameters.
pub mod Generate
pub mod Mnemonic
pub mod Pairs
pub mod RoundTrip
pub mod Tests
pub mod TokenLaws
pub mod Tokens
use space_daemon.Exec.{Exec, pure, ◌>>=◌, ◌>>◌}
use space_daemon.Outcome.{Result, ok}
use space_daemon.Prelude.{ℕ, String, Bool, List, Option, ◌≡◌, ◌≢◌, if◌then◌else◌}

-- An item's label is not kept: nothing reads it.
pub record Devices (W : Type 0) : Type 0 where
  -- kc.ring != nil
  pub has_ring : Bool
  -- os.UserConfigDir, keyring.Open
  pub user_config_dir : Exec W String
  pub open_keyring : String → Exec W (Unit {0})
  -- core/keychain/keyring, which the keyring library implements
  pub ring_get : String → Exec W String
  pub ring_set : String → String → Exec W (Unit {0})
  pub ring_remove : String → Exec W (Unit {0})
  pub ring_get_metadata : String → Exec W (Unit {0})
  -- core/store's interface: `none` is a nil slice
  pub st_get : String → Exec W (Option (List ℕ))
  pub st_set : String → List ℕ → Exec W (Unit {0})
  pub st_remove : String → Exec W (Unit {0})

module _ {W : Type 0} (D : Devices W) where
  unfoldable pub get_key_ring : Exec W (Unit {0})
  get_key_ring =
      if D.has_ring then pure tt else do directory ← D.user_config_dir; D.open_keyring directory

  -- What the code relies on. A read changes nothing, an item that was set is read, and neither another
  -- item nor the store changes what is read of an item of the ring.
  pub record IsKeptRing : Type 0 where
    pub opened : (w : W) → get_key_ring w ≡ (ok tt, w)
    pub get_same : (k : String) (w : W) → (D.ring_get k w).1 ≡ w
    pub st_get_same : (k : String) (w : W) → (D.st_get k w).1 ≡ w
    pub get_set :
        (k v : String) (w : W)
        → (D.ring_set k v w).0 ≡ ok tt
        → (D.ring_get k (D.ring_set k v w).1).0 ≡ ok v
    pub get_set_ne :
        (k j v : String) (w : W)
        → k ≢ j
        → (D.ring_get j (D.ring_set k v w).1).0 ≡ (D.ring_get j w).0
    pub get_st_set :
        (k j : String) (v : List ℕ) (w : W)
        → (D.ring_get j (D.st_set k v w).1).0 ≡ (D.ring_get j w).0
