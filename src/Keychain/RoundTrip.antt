-- ===== src/Keychain/RoundTrip.antt =====
-- core/keychain: what is stored is read back.
use space_daemon.Exec.{◌>>=◌, ◌>>◌}
use space_daemon.Exec.Returns.{bind-ok}
use space_daemon.Keychain.{Devices, IsKeptRing}
use space_daemon.Keychain.Pairs.{
  Bytes, store_key_pair, retrieve_key_pair, read_pair, priv_key_mnemonic_separator,
  private_key_store_key, public_key_store_key,
}
use space_daemon.Outcome.{ok}
use space_daemon.Prelude.{String, some, none, ◌<>◌, ◌≡◌, ◌∙◌, refl}
use space_daemon.Prelude.Hex.{AreBytes, encode, decode-encode, encode-lacks}
use space_daemon.Prelude.Text.{cut, cut-append, cut-none}

module _ {W : Type 0} (D : Devices W) (L : IsKeptRing D) where
  module _ (priv pub_key : Bytes) (mnemonic : String) (w : W) where
    stored_text : String
    stored_text = encode priv <> (priv_key_mnemonic_separator <> mnemonic)

    store_key_pair_lem : store_key_pair D priv pub_key mnemonic w ≡ (
        (D.ring_set private_key_store_key stored_text >> D.st_set public_key_store_key pub_key) w)
    unfolding store_key_pair ◌>>=◌ stored_text
    store_key_pair_lem = rw (L.opened w) refl

    cut-stored_text :
        AreBytes priv → cut priv_key_mnemonic_separator stored_text ≡ (encode priv, some mnemonic)
    unfolding stored_text
    cut-stored_text b = cut-append "_" "__" (encode priv) mnemonic (encode-lacks priv b)

    read_pair-stored :
        (u : W)
        → AreBytes priv
        → (cut priv_key_mnemonic_separator mnemonic).1 ≡ none
        → (read_pair D (cut priv_key_mnemonic_separator stored_text) u).0 ≡ ok (priv, mnemonic)
    unfolding ◌>>=◌
    read_pair-stored u b m =
        rw
          (cut-stored_text b, decode-encode priv b, cut-none priv_key_mnemonic_separator mnemonic m)
          refl

    -- A key pair that was stored with its mnemonic is retrieved, the private key and the mnemonic as
    -- they were, where the key consists of bytes and the mnemonic does not contain the separator.
    pub retrieve_key_pair-store_key_pair :
        AreBytes priv
        → (cut priv_key_mnemonic_separator mnemonic).1 ≡ none
        → (store_key_pair D priv pub_key mnemonic w).0 ≡ ok tt
        → (retrieve_key_pair D (store_key_pair D priv pub_key mnemonic w).1).0 ≡ ok (priv, mnemonic)
    unfolding retrieve_key_pair ◌>>=◌
    retrieve_key_pair-store_key_pair b m e =
        let (a, stored, same) =
          bind-ok (D.ring_set private_key_store_key stored_text) _ w tt
            (rw store_key_pair_lem at e) in
        let u =
          (D.st_set public_key_store_key pub_key
            (D.ring_set private_key_store_key stored_text w).1).1 in
        let read : (D.ring_get private_key_store_key u).0 ≡ ok stored_text =
          L.get_st_set public_key_store_key private_key_store_key pub_key _
          ∙ L.get_set private_key_store_key stored_text w stored in
        rw (store_key_pair_lem, same, L.opened u, read) (read_pair-stored _ b m)
