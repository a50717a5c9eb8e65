-- ===== src/SecureClient.antt =====
-- core/textile/secure_bucket_client.go: a client of buckets that encrypts paths and files before
-- they are stored, and decrypts what it reads. The client of the Textile SDK, the IPFS node and the
-- HTTP calls are parameters.
pub mod Available
pub mod Buckets
pub mod Cache
pub mod Caching
pub mod Listing
pub mod Names
pub mod Pulling
pub mod Pulls
pub mod Races
pub mod Reading
pub mod Refines
mod Tests
use Prim.Native.String.{[] as empty, ◌∷◌ as ◌::◌}
use space_daemon.Bucket.{Item, DirEntries, is_meta_file_name}
use space_daemon.Crypto.{Ciphers, Reader, buffer, read_all, encrypt_path_items, decrypt_path_items}
use space_daemon.Exec.{Exec, pure, raise, lift, attempt, ◌>>=◌, ◌>>◌}
use space_daemon.Outcome.{Err, Result, Failure, ok, err, new}
use space_daemon.Prelude.{
  ℕ, ◌-◌, String, ◌<>◌, Bool, true, false, List, [], ◌∷◌, map, Option, some, none, leb, str_eq,
  if◌then◌else◌,
}
use space_daemon.Prelude.Text.{strip, char_eq, from_char}

-- strings.TrimPrefix
abbrev pub trim_prefix : String → String → String
trim_prefix prefix s = elim (strip prefix s) [ some rest ↦ rest | none ↦ s ]

unfoldable pub clean_bucket_path : String → String
unfolding strip
clean_bucket_path path = trim_prefix "/" path

-- The client of the SDK for the bucket with a key, the IPFS node, the store and the gateway
pub record Network (S Byte Roles : Type 0) : Type 0 where
  pub push_path : String → String → Reader Byte → Exec S (String × String)
  pub pull_path : String → String → Exec S (List Byte)
  pub list_path : String → String → Exec S DirEntries
  pub remove_path : String → String → Exec S String
  pub push_path_access_roles : String → String → Roles → Exec S (Unit {0})
  pub pull_path_access_roles : String → String → Exec S Roles
  -- ioutil.TempFile, and os.Open of the file that was pulled
  pub temp_file : Failure
  pub reopen : Failure
  -- store.Get and store.Set
  pub st_get : String → Exec S (Option (List Byte))
  pub st_set : String → List Byte → Exec S (Unit {0})
  -- Unixfs().Add, for the bytes of the CID
  pub unixfs_add : List Byte → Exec S (List Byte)
  -- Unixfs().Get with ToFile: nothing for a directory
  pub unixfs_get : String → Exec S (Option (List Byte))
  -- cid.CidFromBytes and cid.Decode, for the text of the CID
  pub cid_from_bytes : List Byte → Result String
  pub cid_decode : String → Result String
  -- ma.NewMultiaddr of the configured address with manet.DialArgs
  pub ipfs_host : Result String
  -- ipfs.DownloadIpfsItem
  pub download_ipfs_item : String → String → Exec S (List Byte)

pub record SecureBucketClient (S Byte Roles : Type 0) : Type 0 where
  pub client : Network S Byte Roles
  pub lib : Ciphers Byte
  pub is_remote : Bool

-- What the request's context has as the key of the bucket.
abbrev pub Context : Type 0 → Type 0
Context Byte = Option (List Byte)

module _ {Byte : Type 0} where
  unfoldable pub get_bucket_encryption_key : Context Byte → Result (List Byte)
  get_bucket_encryption_key none = err (new "bucket encryption key missing")
  get_bucket_encryption_key (some key) = ok key

-- textileRelPathRegex: what follows the CID in a path, in a text without line breaks. The class
-- `[f|n]` has the bar too.
abbrev pub first_some : Option String → Option String → Option String
first_some (some x) later = some x
first_some none later = later

abbrev pub rel_path_at : String → Option String
rel_path_at s =
    first_some (elim (strip "/ipfs/" s) [ some rest ↦ from_char "/" rest | none ↦ none ])
      (first_some (elim (strip "/ip|s/" s) [ some rest ↦ from_char "/" rest | none ↦ none ])
        (elim (strip "/ipns/" s) [ some rest ↦ from_char "/" rest | none ↦ none ]))

unfoldable pub rel_path : String → Option String
unfolding strip from_char
rel_path empty = none
rel_path (c :: s) = let later = rel_path s in first_some (rel_path_at (c :: s)) later

module _ {S Byte Roles : Type 0} (c : SecureBucketClient S Byte Roles) where
  abbrev pub path_of : Result (String × Option (Reader Byte)) → Result String
  path_of (ok (path, reader)) = ok path
  path_of (err e) = err e

  -- encryptPathData and decryptPathData without data
  unfoldable pub encrypt_path : List Byte → String → Result String
  unfolding encrypt_path_items
  encrypt_path key path = path_of (encrypt_path_items c.lib key path none)

  unfoldable pub decrypt_path : List Byte → String → Result String
  unfolding decrypt_path_items
  decrypt_path key path = path_of (decrypt_path_items c.lib key path none)

  -- a reader is given, so that there is one here
  abbrev push_encrypted : String → String × Option (Reader Byte) → Exec S (String × String)
  push_encrypted bucket (path, some reader) = c.client.push_path bucket path reader
  push_encrypted bucket (path, none) = raise (new "no reader")

  unfoldable pub push_path : Context Byte → String → String → Reader Byte → Exec S (String × String)
  unfolding get_bucket_encryption_key encrypt_path_items clean_bucket_path
  push_path ctx bucket path reader = do
    key ← lift (get_bucket_encryption_key ctx)
    sent ← lift (encrypt_path_items c.lib key (clean_bucket_path path) (some reader))
    push_encrypted bucket sent

  unfoldable pub remove_path : Context Byte → String → String → Exec S String
  unfolding get_bucket_encryption_key encrypt_path clean_bucket_path
  remove_path ctx bucket path = do
    key ← lift (get_bucket_encryption_key ctx)
    encrypted ← lift (encrypt_path key (clean_bucket_path path))
    c.client.remove_path bucket encrypted

  unfoldable pub push_path_access_roles : Context Byte → String → String → Roles → Exec S (Unit {0})
  unfolding get_bucket_encryption_key encrypt_path
  push_path_access_roles ctx bucket path roles = do
    key ← lift (get_bucket_encryption_key ctx)
    encrypted ← lift (encrypt_path key path)
    c.client.push_path_access_roles bucket encrypted roles

  unfoldable pub pull_path_access_roles : Context Byte → String → String → Exec S Roles
  unfolding get_bucket_encryption_key encrypt_path
  pull_path_access_roles ctx bucket path = do
    key ← lift (get_bucket_encryption_key ctx)
    encrypted ← lift (encrypt_path key path)
    c.client.pull_path_access_roles bucket encrypted

  -- An item of a listing, for which an error is only logged: what was assigned stays assigned.
  abbrev pub sized : Item → Item
  sized item = if leb 64 item.size then record item { size = item.size - 64 } else item

  abbrev pub placed_at : Item → Result String → Item
  placed_at item (ok p) = sized (record item { path = p })
  placed_at item (err e) = record item { path = "" }

  abbrev pub with_path : Item → Option String → (String → Result String) → Item
  with_path item none decrypt = sized item
  with_path item (some rel) decrypt = placed_at item (decrypt rel)

  unfoldable pub overwrite_decrypted_item : List Byte → Item → Item
  unfolding decrypt_path is_meta_file_name rel_path
  overwrite_decrypted_item key item =
      if is_meta_file_name item.name then item else (elim (decrypt_path key item.name) [
        | ok n ↦ with_path (record item { name = n }) (rel_path item.path) (decrypt_path key)
        | err e ↦ record item { name = "" }
      ])

  unfoldable pub list_path : Context Byte → String → String → Exec S DirEntries
  unfolding get_bucket_encryption_key encrypt_path clean_bucket_path overwrite_decrypted_item
  list_path ctx bucket path = do
    key ← lift (get_bucket_encryption_key ctx)
    encrypted ← lift (encrypt_path key (clean_bucket_path path))
    result ← c.client.list_path bucket encrypted
    pure (record {
      item = overwrite_decrypted_item key result.item;
      items = map (overwrite_decrypted_item key) result.items;
    })
