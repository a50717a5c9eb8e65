-- ===== src/Crypto.antt =====
-- core/textile/bucket/crypto: how the paths and the files of a bucket are encrypted. The ciphers,
-- the hash, Base64 and the temporary files are the libraries'.
pub mod Blocks
pub mod Paths
pub mod RoundTrip
pub mod Tests
pub mod Whole
use space_daemon.Outcome.{Err, Result, Failure, ok, err, new, out_of_fuel, ◌>>=◌}
use space_daemon.Prelude.{
  ℕ, zero, suc, ◌+◌, ◌-◌, String, ◌<>◌, Bool, List, [], ◌∷◌, ◌++◌, Option, some, none, length, ltb,
  ◌==◌, str_eq, if◌then◌else◌,
}
use space_daemon.Prelude.Slices.{take, drop}
use space_daemon.Prelude.Text.{split}

-- crypto/aes, crypto/cipher, crypto/hmac, encoding/base64 and the temporary files, with Go's
-- conversions between texts and bytes
pub record Ciphers (Byte : Type 0) : Type 0 where
  -- aes.NewCipher, for its error
  pub new_cipher : List Byte → Failure
  -- cipher.NewCTR on a whole stream: the key, the initialization vector and the data
  pub ctr : List Byte → List Byte → List Byte → List Byte
  -- the key and the data
  pub hmac : List Byte → List Byte → List Byte
  -- hmac.Equal
  pub equal : List Byte → List Byte → Bool
  -- b64.URLEncoding
  pub encode_to_string : List Byte → String
  pub decode_string : String → Result (List Byte)
  -- tmpfile.New
  pub temp_file : Failure
  pub bytes : String → List Byte
  pub text : List Byte → String

-- An `io.Reader`: what is read from it, and the error it ends with in place of io.EOF.
pub record Reader (Byte : Type 0) : Type 0 where
  pub content : List Byte
  pub fails : Option Err

pub record Keys (Byte : Type 0) : Type 0 where
  pub aes_key : List Byte
  pub iv : List Byte
  pub hmac_key : List Byte

abbrev pub aes_key_size : ℕ
aes_key_size = 32

abbrev pub iv_key_size : ℕ
iv_key_size = 16

abbrev pub hmac_key_size : ℕ
hmac_key_size = 32

abbrev pub hmac_size : ℕ
hmac_size = 64

-- _16KB
abbrev pub block_size : ℕ
block_size = 16384

-- DecryptErr
abbrev pub decrypt_err : Err
decrypt_err = new "message corrupt or incorrect keys"

abbrev pub slash_before : List String → String
slash_before [] = ""
slash_before (p ∷ ps) = "/"

-- The loop over the pieces of a path: empty ones are left out, and a slash follows each but the
-- last.
unfoldable pub path_items : (String → Result String) → List String → Result String
path_items item [] = ok ""
path_items item (p ∷ ps) =
    let rest = path_items item ps in
    if str_eq p ""
    then rest
    else (item p >>= λ name. rest >>= λ others. ok (name <> (slash_before ps <> others)))

module _ {Byte : Type 0} where
  abbrev pub buffer : List Byte → Reader Byte
  buffer bs = record { content = bs; fails = none }

  -- ioutil.ReadAll, and io.Copy into a builder
  abbrev pub read_all : Reader Byte → Result (List Byte)
  read_all r = elim r.fails [ none ↦ ok r.content | some e ↦ err e ]

  unfoldable pub parse_keys : List Byte → Result (Keys Byte)
  parse_keys key =
      if length key == aes_key_size + iv_key_size + hmac_key_size
      then (ok (record {
        aes_key = take aes_key_size key;
        iv = take iv_key_size (drop aes_key_size key);
        hmac_key = drop (aes_key_size + iv_key_size) key;
      }))
      else err (new "unsupported encryption keys provided.")

  abbrev pub last_block : List Byte → List Byte → Option Err → Result (List Byte × List Byte)
  last_block written left (some e) = err e
  last_block written left none =
      if ltb (length left) hmac_size
      then err decrypt_err
      else (ok
          (written ++ take (length left - hmac_size) left, drop (length left - hmac_size) left))

  -- The loop of newDecryptReader over the blocks that are peeked: what it writes to the hash and the
  -- temporary file, and the message authentication code that it keeps back.
  unfoldable pub scan_blocks :
      ℕ → ℕ → List Byte → List Byte → Option Err → Result (List Byte × List Byte)
  scan_blocks block zero written left fails = err out_of_fuel
  scan_blocks block (suc fuel) written left fails =
      let advance = block - hmac_size in
      let rest = scan_blocks block fuel (written ++ take advance left) (drop advance left) fails in
      if ltb (length left) block then last_block written left fails else rest

module _ {Byte : Type 0} (lib : Ciphers Byte) where
  -- io.MultiReader of the encrypted stream and of its hash
  abbrev pub sealed : Keys Byte → Reader Byte → Reader Byte
  sealed keys r =
      let c = lib.ctr keys.aes_key keys.iv r.content in
      record {
        content = elim r.fails [ none ↦ c ++ lib.hmac keys.hmac_key c | some e ↦ c ];
        fails = r.fails;
      }

  unfoldable pub new_encrypt_reader : Reader Byte → Keys Byte → Result (Reader Byte)
  new_encrypt_reader r keys =
      if length keys.aes_key == aes_key_size
      then if length keys.iv == iv_key_size
        then if length keys.hmac_key == hmac_key_size
          then (lib.new_cipher keys.aes_key >>= λ _. ok (sealed keys r))
          else err (new "encryption hmac key has incorrect length")
        else err (new "encryption initialization vector size has incorrect length")
      else err (new "encryption key has incorrect length")

  abbrev pub verified : Keys Byte → List Byte × List Byte → Result (Reader Byte)
  verified keys (written, mac) =
      if lib.equal mac (lib.hmac keys.hmac_key written)
      then ok (buffer (lib.ctr keys.aes_key keys.iv written))
      else err decrypt_err

  unfoldable pub new_decrypt_reader : Reader Byte → Keys Byte → Result (Reader Byte)
  unfolding scan_blocks
  new_decrypt_reader r keys = do
    _ ← lib.temp_file
    _ ← lib.new_cipher keys.aes_key
    parts ← scan_blocks block_size (suc (length r.content)) [] r.content r.fails
    verified keys parts

  unfoldable pub encrypt_item : Keys Byte → String → Result String
  unfolding new_encrypt_reader
  encrypt_item keys name = do
    encrypted ← new_encrypt_reader (buffer (lib.bytes name)) keys
    all ← read_all encrypted
    ok (lib.encode_to_string all)

  unfoldable pub decrypt_item : Keys Byte → String → Result String
  unfolding new_decrypt_reader
  decrypt_item keys name = do
    encrypted ← lib.decode_string name
    decrypted ← new_decrypt_reader (buffer encrypted) keys
    all ← read_all decrypted
    ok (lib.text all)

  -- the data of a call, where a reader is given
  abbrev pub with_data :
      (Reader Byte → Result (Reader Byte))
      → String
      → Option (Reader Byte)
      → Result (String × Option (Reader Byte))
  with_data wrap path none = ok (path, none)
  with_data wrap path (some r) = wrap r >>= λ opened. ok (path, some opened)

  unfoldable pub encrypt_path_items :
      List Byte → String → Option (Reader Byte) → Result (String × Option (Reader Byte))
  unfolding parse_keys path_items encrypt_item split
  encrypt_path_items key path plain = do
    keys ← parse_keys key
    encrypted ← path_items (encrypt_item keys) (split "/" path)
    with_data (λ r. new_encrypt_reader r keys) encrypted plain

  unfoldable pub decrypt_path_items :
      List Byte → String → Option (Reader Byte) → Result (String × Option (Reader Byte))
  unfolding parse_keys path_items decrypt_item split
  decrypt_path_items key path encrypted = do
    keys ← parse_keys key
    plain ← path_items (decrypt_item keys) (split "/" path)
    with_data (λ r. new_decrypt_reader r keys) plain encrypted
