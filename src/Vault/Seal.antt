-- ===== src/Vault/Seal.antt =====
-- How core/vault/vault.go and core/backup/backup.go use AES-GCM: a random nonce in front of the
-- sealed content. Both have the code.
use space_daemon.Exec.{Exec, lift, pure, ◌>>=◌, ◌>>◌}
use space_daemon.Exec.Returns.{bind-step}
use space_daemon.Outcome.{Result, Failure, ok, err, new, ok-injective, ◌>>=◌ as ◌then◌}
use space_daemon.Prelude.{
  ℕ, List, ◌++◌, ltb, length, if◌then◌else◌, ◌≡◌, refl, ap, sym, ◌∙◌, arith, length-append, false,
}
use space_daemon.Prelude.Slices.{take, drop, take-append, drop-append}

-- crypto/aes, crypto/cipher and crypto/rand
pub record Gcm (W Byte : Type 0) : Type 0 where
  -- aes.NewCipher with cipher.NewGCM, for their errors
  pub new_gcm : List Byte → Failure
  pub nonce_size : ℕ
  -- io.ReadFull(rand.Reader, …)
  pub read_random : ℕ → Exec W (List Byte)
  -- the key, the nonce and the content
  pub gcm_seal : List Byte → List Byte → List Byte → List Byte
  pub gcm_open : List Byte → List Byte → List Byte → Result (List Byte)

module _ {W Byte : Type 0} (g : Gcm W Byte) where
  -- gcm.Seal appends to the nonce
  unfoldable pub seal : List Byte → List Byte → Exec W (List Byte)
  seal content key = do
    lift (g.new_gcm key)
    nonce ← g.read_random g.nonce_size
    pure (nonce ++ g.gcm_seal key nonce content)

  unfoldable pub unseal : List Byte → List Byte → Result (List Byte)
  unseal ciphertext key = g.new_gcm key then λ _.
      if ltb (length ciphertext) g.nonce_size
      then err (new "malformed ciphertext")
      else g.gcm_open key (take g.nonce_size ciphertext) (drop g.nonce_size ciphertext)

-- What is relied on: a random number has the length that was asked for, and what is sealed can be
-- opened with the same key and nonce.
pub record IsGcm {W Byte : Type 0} (g : Gcm W Byte) : Type 0 where
  pub random_length :
      (n : ℕ) (s : W) (nonce : List Byte) → (g.read_random n s).0 ≡ ok nonce → length nonce ≡ n
  pub open_seal :
      (key nonce content : List Byte)
      → g.gcm_open key nonce (g.gcm_seal key nonce content) ≡ ok content

module _ {W Byte : Type 0} (g : Gcm W Byte) (laws : IsGcm g) where
  unseal-append :
      (key nonce content : List Byte)
      → g.new_gcm key ≡ ok tt
      → length nonce ≡ g.nonce_size
      → unseal g (nonce ++ g.gcm_seal key nonce content) key ≡ ok content
  unfolding unseal
  unseal-append key nonce content fits size =
      let rest = g.gcm_seal key nonce content in
      let total = length-append nonce rest in
      let long : ltb (length (nonce ++ rest)) g.nonce_size ≡ false = ground (arith, total, size) in
      rw
        (
          fits,
          long,
          sym size,
          take-append nonce rest,
          drop-append nonce rest,
          laws.open_seal key nonce content,
        )
        refl

  pub unseal-seal :
      (key content sealed : List Byte) (s : W)
      → (seal g content key s).0 ≡ ok sealed
      → unseal g sealed key ≡ ok content
  unfolding seal lift pure
  unseal-seal key content sealed s h =
      let (_, fits, h1) = bind-step (lift (g.new_gcm key)) _ s sealed h in
      let (nonce, random, h2) = bind-step (g.read_random g.nonce_size) _ _ sealed h1 in
      ap (λ c. unseal g c key) (sym (ok-injective h2))
      ∙ unseal-append key nonce content fits (laws.random_length g.nonce_size _ nonce random)
