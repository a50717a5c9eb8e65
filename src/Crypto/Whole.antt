-- ===== src/Crypto/Whole.antt =====
-- core/textile/bucket/crypto: paths and files together, as the callers use them.
use space_daemon.Crypto.{
  Ciphers, Keys, Reader, buffer, path_items, verified, new_decrypt_reader, decrypt_item,
  encrypt_path_items, decrypt_path_items,
}
use space_daemon.Crypto.Paths.{joined, joined-split, path_items-split, split-ArePieces, squeeze}
use space_daemon.Crypto.RoundTrip.{
  AreCiphers, AreSized, parse_keys-AreSized, authenticated, new_decrypt_reader-authenticated,
  new_encrypt_reader-sealed, new_decrypt_reader-sealed, path_name, item_name, split_message,
  path_items-encrypt_item, path_items-decrypt_item,
}
use space_daemon.Outcome.{ok, ◌>>=◌, bind-ok, ok-injective}
use space_daemon.Prelude.{
  ◌-◌, String, true, List, ◌++◌, some, none, length, ltb, ◌≡◌, refl, ap, subst, sym, ◌∙◌, ◌↔◌,
  Bool-cases, inl, inr,
}
use space_daemon.Prelude.Slices.{take-drop}
use space_daemon.Prelude.Text.{split}

module _ {Byte : Type 0} (lib : Ciphers Byte) (laws : AreCiphers lib) where
  -- With a key of 80 bytes and temporary files that can be made, what `encrypt_path_items` makes of
  -- a path and a message is decrypted by `decrypt_path_items` to the message and the path, the
  -- latter without a slash at its start or behind another slash.
  pub decrypt_path_items-encrypt_path_items :
      (key : List Byte) (path : String) (message : List Byte)
      → length key ≡ 80
      → lib.temp_file ≡ ok tt
      → (encrypt_path_items lib key path (some (buffer message)) >>= λ sent.
          decrypt_path_items lib key sent.0 sent.1)
        ≡ ok (squeeze true path, some (buffer message))
  unfolding encrypt_path_items decrypt_path_items
  decrypt_path_items-encrypt_path_items key path message size temp =
      let (keys, parsed, sized) = parse_keys-AreSized key size in
      rw
        (
          parsed,
          path_items-encrypt_item lib laws keys sized path,
          new_encrypt_reader-sealed lib laws keys sized (buffer message),
          path_items-decrypt_item lib laws keys sized path temp,
          new_decrypt_reader-sealed lib laws keys sized message temp,
        )
        refl

  module _ (keys : Keys Byte) (sized : AreSized keys) where
    path_name-determined :
        (p : String)
        → path_items (λ name. ok (item_name lib laws keys sized name)) (split "/" (squeeze true p))
          ≡ ok (path_name lib laws keys sized p)
    unfolding path_name
    path_name-determined p =
        subst
          (λ s.
            path_items (λ name. ok (item_name lib laws keys sized name)) (split "/" s)
            ≡ ok (joined (item_name lib laws keys sized) (split "/" p)))
          (joined-split p)
          (path_items-split (λ name. ok (item_name lib laws keys sized name)) (λ name. name)
            (item_name lib laws keys sized) (split "/" p)
            (record { lacking = λ q h. h; filled = λ q h. h }) (λ q. refl) (split-ArePieces p))

    -- two paths have one encrypted path just where they differ in slashes that do not count
    path_name-squeeze :
        (p q : String)
        → lib.temp_file ≡ ok tt
        → (path_name lib laws keys sized p ≡ path_name lib laws keys sized q)
          ↔ (squeeze true p ≡ squeeze true q)
    path_name-squeeze p q temp = (
      λ same. ok-injective (
          sym (path_items-decrypt_item lib laws keys sized p temp)
          ∙ ap (λ s. path_items (decrypt_item lib keys) (split "/" s)) same
          ∙ path_items-decrypt_item lib laws keys sized q temp),
      λ same. ok-injective (
          sym (path_name-determined p)
          ∙ ap (λ s. path_items (λ name. ok (item_name lib laws keys sized name)) (split "/" s))
              same
          ∙ path_name-determined q),
    )

    verified-accepted :
        (written code : List Byte) (r : Reader Byte)
        → verified lib keys (written, code) ≡ ok r
        → (code ≡ lib.hmac keys.hmac_key written)
          × (r ≡ buffer (lib.ctr keys.aes_key keys.iv written))
    verified-accepted written code r h =
        elim (Bool-cases (lib.equal code (lib.hmac keys.hmac_key written))) [
          | inl e ↦ ((laws.equal_iff _ _).0 e, ok-injective (sym (rw e at h)))
          | inr e ↦ absurd (cc (rw e at h))
        ]

    split_message-parts :
        (m : List Byte) (parts : List Byte × List Byte)
        → split_message lib m ≡ ok parts
        → m ≡ parts.0 ++ parts.1
    split_message-parts m parts h = elim (Bool-cases (ltb (length m) 64)) [
      | inl e ↦ absurd (cc (rw e at h))
      | inr e ↦
          let same = ok-injective (rw e at h) in
          sym (take-drop (length m - 64) m) ∙ ap (λ (p : List Byte × List Byte). p.0 ++ p.1) same
    ]

    -- A message for which `new_decrypt_reader` returns a reader ends with the code of what precedes
    -- it under the key for the code, and the reader reads what precedes it, decrypted.
    pub new_decrypt_reader-accepted :
        (m : List Byte) (r : Reader Byte)
        → new_decrypt_reader lib (buffer m) keys ≡ ok r
        → (written : List Byte) × (m ≡ written ++ lib.hmac keys.hmac_key written)
          × (r ≡ buffer (lib.ctr keys.aes_key keys.iv written))
    unfolding authenticated
    new_decrypt_reader-accepted m r h =
        let (t, _, h1) =
          bind-ok lib.temp_file _ r (sym (new_decrypt_reader-authenticated lib keys m) ∙ h) in
        let (u, _, h2) = bind-ok (lib.new_cipher keys.aes_key) _ r h1 in
        let (parts, cut, h3) = bind-ok (split_message lib m) _ r h2 in
        let (same, read) = verified-accepted parts.0 parts.1 r h3 in
        (parts.0, split_message-parts m parts cut ∙ ap (λ c. parts.0 ++ c) same, read)

  -- With a key of 80 bytes and temporary files that can be made, any two paths are encrypted, and to
  -- the same path just where they differ at most in slashes at the start or behind another slash.
  pub encrypt_path_items-squeeze :
      (key : List Byte) (p q : String)
      → length key ≡ 80
      → lib.temp_file ≡ ok tt
      → (a b : String) × (encrypt_path_items lib key p none ≡ ok (a, none))
        × (encrypt_path_items lib key q none ≡ ok (b, none))
        × ((a ≡ b) ↔ (squeeze true p ≡ squeeze true q))
  unfolding encrypt_path_items
  encrypt_path_items-squeeze key p q size temp =
      let (keys, parsed, sized) = parse_keys-AreSized key size in
      (
        path_name lib laws keys sized p,
        path_name lib laws keys sized q,
        rw (parsed, path_items-encrypt_item lib laws keys sized p) refl,
        rw (parsed, path_items-encrypt_item lib laws keys sized q) refl,
        path_name-squeeze keys sized p q temp,
      )
