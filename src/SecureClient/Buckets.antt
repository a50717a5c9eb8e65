-- ===== src/SecureClient/Buckets.antt =====
-- What a client of buckets promises: files under lists of names, read and written; and what
-- core/textile/secure_bucket_client.go relies on of the client of the Textile SDK, the store and
-- IPFS.
use space_daemon.Bucket.{DirEntries}
use space_daemon.Crypto.{buffer}
use space_daemon.Outcome.{ok, err}
use space_daemon.Prelude.{
  String, Bool, true, false, ◌&&◌, ◌||◌, List, [], ◌∷◌, Option, some, none, str_eq, if◌then◌else◌,
  ◌≡◌,
}
use space_daemon.Prelude.Text.{split}
use space_daemon.SecureClient.{Network}

unfoldable pub filled : List String → List String
filled [] = []
filled (p ∷ ps) = let rest = filled ps in if str_eq p "" then rest else p ∷ rest

-- The names on a path: empty pieces do not count.
unfoldable pub names : String → List String
unfolding filled split
names path = filled (split "/" path)

-- the second path is the first or lies below it
unfoldable pub below : List String → List String → Bool
below [] qs = true
below (p ∷ ps) [] = false
below (p ∷ ps) (q ∷ qs) = str_eq p q && below ps qs

-- What files there are: by the key of the bucket and the names on the path.
abbrev pub Files : Type 0 → Type 0
Files Byte = String → List String → Option (List Byte)

module _ {Byte : Type 0} (before after : Files Byte) (bucket : String) (path : List String) where
  -- A push puts a file in place, and leaves the files alone whose paths neither lie below it nor
  -- lead to it.
  pub record Pushed (content : List Byte) : Type 0 where
    pub here : after bucket path ≡ some content
    pub kept :
        (b : String) (other : List String)
        → (str_eq bucket b && (below path other || below other path)) ≡ false
        → after b other ≡ before b other

  -- A removal takes away what lies at the path and below it, and nothing else.
  pub record Removed : Type 0 where
    pub gone : (other : List String) → below path other ≡ true → after bucket other ≡ none
    pub kept :
        (b : String) (other : List String)
        → (str_eq bucket b && below path other) ≡ false
        → after b other ≡ before b other

-- The client of the SDK keeps files, as they are given to it.
pub record IsBucketClient {S Byte Roles : Type 0} (N : Network S Byte Roles)
    (stored : S → Files Byte) : Type 0 where
  pub pushed :
      (bucket path : String) (content : List Byte) (s : S) (r : String × String)
      → (N.push_path bucket path (buffer content) s).0 ≡ ok r
      → Pushed
          (stored s)
          (stored (N.push_path bucket path (buffer content) s).1)
          bucket
          (names path)
          content
  pub removed :
      (bucket path : String) (s : S) (r : String)
      → (N.remove_path bucket path s).0 ≡ ok r
      → Removed (stored s) (stored (N.remove_path bucket path s).1) bucket (names path)
  pub pulled :
      (bucket path : String) (s : S) (content : List Byte)
      → (N.pull_path bucket path s).0 ≡ ok content
      → stored s bucket (names path) ≡ some content
  pub pulling : (bucket path : String) (s : S) → (N.pull_path bucket path s).1 ≡ s
  pub listing : (bucket path : String) (s : S) → (N.list_path bucket path s).1 ≡ s

-- IPFS and the store of the daemon: `addressed` and `held` are the files that the CIDs of the
-- buckets, as texts, and those of the local node address.
pub record IsContentAddressed {S Byte Roles : Type 0} (N : Network S Byte Roles)
    (stored : S → Files Byte) (addressed held : String → Option (List Byte)) : Type 0 where
  pub listed :
      (bucket path : String) (s : S) (dir : DirEntries)
      → (N.list_path bucket path s).0 ≡ ok dir
      → addressed dir.item.cid ≡ stored s bucket (names path)
  pub downloaded :
      (host text cid : String) (s : S) (content : List Byte)
      → N.cid_decode text ≡ ok cid
      → (N.download_ipfs_item host cid s).0 ≡ ok content
      → addressed text ≡ some content
  pub downloading : (host cid : String) (s : S) → (N.download_ipfs_item host cid s).1 ≡ s
  pub got :
      (cid : String) (s : S) (content : List Byte)
      → (N.unixfs_get cid s).0 ≡ ok (some content)
      → held cid ≡ some content
  pub getting : (cid : String) (s : S) → (N.unixfs_get cid s).1 ≡ s
  pub added :
      (content binary : List Byte) (cid : String) (s : S)
      → (N.unixfs_add content s).0 ≡ ok binary
      → N.cid_from_bytes binary ≡ ok cid
      → held cid ≡ some content
  pub adding : (content : List Byte) (s : S) → stored (N.unixfs_add content s).1 ≡ stored s
  pub st_getting : (key : String) (s : S) → (N.st_get key s).1 ≡ s
  -- Adding a file to IPFS does not touch the store.
  pub st_get-unixfs_add :
      (key : String) (content : List Byte) (s : S)
      → (N.st_get key (N.unixfs_add content s).1).0 ≡ (N.st_get key s).0
  -- A written key is read again, or the write failed and changed nothing.
  pub st_get-st_set :
      (key other : String) (value : List Byte) (s : S)
      → (N.st_get other (N.st_set key value s).1).0 ≡ (
          if str_eq key other
          then elim (N.st_set key value s).0 [
            | ok u ↦ ok (some value)
            | err e ↦ (N.st_get other s).0
          ]
          else (N.st_get other s).0)
