-- ===== src/Crypto/RoundTrip.antt =====
-- core/textile/bucket/crypto: what is encrypted is decrypted again, and what was tampered with is
-- refused.
use space_daemon.Crypto.{
  Ciphers, Keys, Reader, buffer, block_size, decrypt_err, path_items, parse_keys, verified,
  new_encrypt_reader, new_decrypt_reader, encrypt_item, decrypt_item, sealed,
}
use space_daemon.Crypto.Blocks.{scan_blocks-whole}
use space_daemon.Crypto.Paths.{
  IsPathName, joined, path_items-joined, path_items-split, joined-split, split-ArePieces, squeeze,
}
use space_daemon.Outcome.{Result, ok, err, ◌>>=◌}
use space_daemon.Prelude.{
  suc, ◌-◌, ◌<◌, String, true, false, List, ◌++◌, length, ltb, str_eq, if◌then◌else◌, ◌≡◌, refl, ap,
  ◌∙◌, ◌↔◌, arith, length-append,
}
use space_daemon.Prelude.Slices.{take, drop, take-append, drop-append, length-take, length-drop}
use space_daemon.Prelude.Text.{split, lacks}

-- What the program relies on of the libraries.
pub record AreCiphers {Byte : Type 0} (lib : Ciphers Byte) : Type 0 where
  -- A key of 32 bytes chooses AES-256.
  pub new_cipher_32 : (key : List Byte) → length key ≡ 32 → lib.new_cipher key ≡ ok tt
  -- The key stream is added once more.
  pub ctr_twice : (key iv message : List Byte) → lib.ctr key iv (lib.ctr key iv message) ≡ message
  -- SHA-512 has 64 bytes.
  pub hmac_64 : (key message : List Byte) → length (lib.hmac key message) ≡ 64
  pub equal_iff : (a b : List Byte) → (lib.equal a b ≡ true) ↔ (a ≡ b)
  pub decode_encode :
      (message : List Byte) → lib.decode_string (lib.encode_to_string message) ≡ ok message
  -- The alphabet of URL encoding has `_` in place of the slash.
  pub encode_lacks : (message : List Byte) → lacks "/" (lib.encode_to_string message) ≡ true
  pub encode_filled :
      (message : List Byte) → 0 < length message → str_eq (lib.encode_to_string message) "" ≡ false
  pub text_bytes : (s : String) → lib.text (lib.bytes s) ≡ s

-- the sizes that `parse_keys` gives the parts of a key
pub record AreSized {Byte : Type 0} (keys : Keys Byte) : Type 0 where
  pub aes_32 : length keys.aes_key ≡ 32
  pub iv_16 : length keys.iv ≡ 16
  pub hmac_32 : length keys.hmac_key ≡ 32

module _ {Byte : Type 0} where
  pub parse_keys-AreSized :
      (key : List Byte)
      → length key ≡ 80
      → (keys : Keys Byte) × (parse_keys key ≡ ok keys) × AreSized keys
  unfolding parse_keys
  parse_keys-AreSized key h =
      let a = length-drop 32 key in
      let b = length-drop 48 key in
      rw h (
        record { aes_key = take 32 key; iv = take 16 (drop 32 key); hmac_key = drop 48 key },
        refl,
        record {
          aes_32 = length-take 32 key (omega (arith, h));
          iv_16 = length-take 16 (drop 32 key) (omega (arith, h, a));
          hmac_32 = omega (arith, h, b);
        },
      )

module _ {Byte : Type 0} (lib : Ciphers Byte) where
  -- A message is its text and a code of 64 bytes behind it.
  abbrev pub split_message : List Byte → Result (List Byte × List Byte)
  split_message m =
      if ltb (length m) 64
      then err decrypt_err
      else ok (take (length m - 64) m, drop (length m - 64) m)

  -- Reading a message in one piece: the code is compared with that of all that precedes it.
  unfoldable pub authenticated : Keys Byte → List Byte → Result (Reader Byte)
  authenticated keys m = do
    _ ← lib.temp_file
    _ ← lib.new_cipher keys.aes_key
    parts ← split_message m
    verified lib keys parts

  -- A message that is read block by block, its last 64 bytes kept back, is verified and decrypted
  -- as the message in one piece is, whatever its length and its content.
  pub new_decrypt_reader-authenticated :
      (keys : Keys Byte) (m : List Byte)
      → new_decrypt_reader lib (buffer m) keys ≡ authenticated keys m
  unfolding new_decrypt_reader authenticated
  new_decrypt_reader-authenticated keys m =
      rw (scan_blocks-whole block_size (suc (length m)) List.[] m (omega arith) (omega arith)) refl

  module _ (laws : AreCiphers lib) (keys : Keys Byte) (sized : AreSized keys) where
    pub new_encrypt_reader-sealed :
        (r : Reader Byte) → new_encrypt_reader lib r keys ≡ ok (sealed lib keys r)
    unfolding new_encrypt_reader
    new_encrypt_reader-sealed r =
        rw (sized.aes_32, sized.iv_16, sized.hmac_32, laws.new_cipher_32 keys.aes_key sized.aes_32)
          refl

    verified-hmac :
        (c : List Byte)
        → verified lib keys (c, lib.hmac keys.hmac_key c)
          ≡ ok (buffer (lib.ctr keys.aes_key keys.iv c))
    verified-hmac c =
        let code = lib.hmac keys.hmac_key c in rw ((laws.equal_iff code code).1 refl) refl

    split_message-append :
        (c code : List Byte) → length code ≡ 64 → split_message (c ++ code) ≡ ok (c, code)
    split_message-append c code h =
        let total = length-append c code in
        let n : length (c ++ code) - 64 ≡ length c = omega (arith, total, h) in
        let long : ltb (length (c ++ code)) 64 ≡ false = ground (arith, total, h) in
        rw (long, n, take-append c code, drop-append c code) refl

    pub new_decrypt_reader-sealed :
        (message : List Byte)
        → lib.temp_file ≡ ok tt
        → new_decrypt_reader lib (sealed lib keys (buffer message)) keys ≡ ok (buffer message)
    unfolding authenticated
    new_decrypt_reader-sealed message temp =
        let c = lib.ctr keys.aes_key keys.iv message in
        let code = lib.hmac keys.hmac_key c in
        new_decrypt_reader-authenticated keys (c ++ code)
        ∙ rw
            (
              temp,
              laws.new_cipher_32 keys.aes_key sized.aes_32,
              split_message-append c code (laws.hmac_64 keys.hmac_key c),
              verified-hmac c,
              laws.ctr_twice keys.aes_key keys.iv message,
            )
            refl

    -- the encrypted name of a piece of a path
    abbrev pub item_name : String → String
    item_name p = lib.encode_to_string (sealed lib keys (buffer (lib.bytes p))).content

    pub encrypt_item-item_name : (p : String) → encrypt_item lib keys p ≡ ok (item_name p)
    unfolding encrypt_item
    encrypt_item-item_name p = rw (new_encrypt_reader-sealed (buffer (lib.bytes p))) refl

    pub decrypt_item-item_name :
        lib.temp_file ≡ ok tt → (p : String) → decrypt_item lib keys (item_name p) ≡ ok p
    unfolding decrypt_item
    decrypt_item-item_name temp p =
        let all = (sealed lib keys (buffer (lib.bytes p))).content in
        rw (laws.decode_encode all, new_decrypt_reader-sealed (lib.bytes p) temp, laws.text_bytes p)
          refl

    pub item_name-IsPathName : IsPathName item_name
    item_name-IsPathName = record {
      lacking = λ p h. laws.encode_lacks _;
      filled = λ p h.
          let c = lib.ctr keys.aes_key keys.iv (lib.bytes p) in
          let code = lib.hmac keys.hmac_key c in
          laws.encode_filled _ (omega (arith, length-append c code, laws.hmac_64 keys.hmac_key c));
    }

    -- the encrypted path
    unfoldable pub path_name : String → String
    path_name path = joined item_name (split "/" path)

    pub path_items-encrypt_item :
        (path : String) → path_items (encrypt_item lib keys) (split "/" path) ≡ ok (path_name path)
    unfolding path_name
    path_items-encrypt_item path =
        path_items-joined (encrypt_item lib keys) item_name (split "/" path) encrypt_item-item_name

    pub path_items-decrypt_item :
        (path : String)
        → lib.temp_file ≡ ok tt
        → path_items (decrypt_item lib keys) (split "/" (path_name path)) ≡ ok (squeeze true path)
    unfolding path_name
    path_items-decrypt_item path temp =
        path_items-split (decrypt_item lib keys) item_name (λ p. p) (split "/" path)
          item_name-IsPathName (decrypt_item-item_name temp) (split-ArePieces path)
        ∙ ap ok (joined-split path)
