-- ===== src/SecureClient/Pulling.antt =====
-- core/textile/secure_bucket_client.go: how a file is pulled, by three calls that race, cached and
-- decrypted.
use space_daemon.Crypto.{Reader, buffer, read_all, decrypt_path_items}
use space_daemon.Exec.{Exec, pure, raise, lift, attempt, ◌>>=◌, ◌>>◌}
use space_daemon.Outcome.{Result, ok, err, new, never_returns}
use space_daemon.Prelude.{
  String, ◌<>◌, Bool, true, false, List, [], ◌∷◌, Option, some, none, if◌then◌else◌,
}
use space_daemon.SecureClient.{SecureBucketClient, Context, get_bucket_encryption_key, encrypt_path}

-- the three calls that race to read a file
pub data Puller : Type 0 where
  pull_file_from_local pull_file_from_dht pull_file_from_client : Puller

unfoldable pub get_file_cache_key : String → String
get_file_cache_key cid = "file_cache:" <> cid

module _ {S Byte Roles : Type 0} (c : SecureBucketClient S Byte Roles) where
  -- The pulls, each with whether what it read should be cached.
  unfoldable pub pull_from_client : String → String → Exec S (List Byte × Bool)
  pull_from_client bucket path = do
    content ← c.client.pull_path bucket path
    pure (content, c.is_remote)

  abbrev pub cid_stored : Result (Option (List Byte)) → Result (List Byte)
  cid_stored (ok (some cid)) = ok cid
  cid_stored (ok none) = err (new "CID not stored in local cache")
  cid_stored (err e) = err (new "CID not stored in local cache")

  abbrev pub file_of : Option (List Byte) → Result (List Byte)
  file_of (some content) = ok content
  file_of none = err (new "File is a directory")

  unfoldable pub pull_from_local : String → String → Exec S (List Byte × Bool)
  pull_from_local bucket path = do
    listed ← c.client.list_path bucket path
    stored ← attempt (c.client.st_get (get_file_cache_key listed.item.cid))
    binary ← lift (cid_stored stored)
    cid ← lift (c.client.cid_from_bytes binary)
    node ← c.client.unixfs_get cid
    content ← lift (file_of node)
    pure (content, false)

  unfoldable pub pull_from_dht : String → String → Exec S (List Byte × Bool)
  pull_from_dht bucket path = do
    listed ← c.client.list_path bucket path
    cid ← lift (c.client.cid_decode listed.item.cid)
    host ← lift c.client.ipfs_host
    content ← c.client.download_ipfs_item host cid
    pure (content, false)

  abbrev pub pull : Puller → String → String → Exec S (List Byte × Bool)
  pull pull_file_from_local = pull_from_local
  pull pull_file_from_dht = pull_from_dht
  pull pull_file_from_client = pull_from_client

  -- The pulls in the order in which they come to their end, up to the first that succeeds, which wins;
  -- where all fail the error is that of the last. A pull changes its own file only.
  unfoldable pub first_pull : Puller → List Puller → String → String → Exec S (List Byte × Bool)
  unfolding pull_from_client pull_from_local pull_from_dht
  first_pull p [] bucket path = pull p bucket path
  first_pull p (q ∷ later) bucket path = attempt (pull p bucket path) >>= λ pulled. elim pulled [
    | ok response ↦ pure response
    | err e ↦ first_pull q later bucket path
  ]

  unfoldable pub cache_file : String → String → List Byte → Exec S (Unit {0})
  cache_file bucket path content = do
    lift c.client.reopen
    cid ← c.client.unixfs_add content
    listed ← c.client.list_path bucket path
    c.client.st_set (get_file_cache_key listed.item.cid) cid

  -- The copy to the writer and the copy to the cache run beside each other, and an error of the
  -- former comes first.
  unfoldable pub run_race : Puller × List Puller → String → String → Exec S (List Byte)
  unfolding first_pull cache_file
  run_race order bucket path = do
    lift c.client.temp_file
    response ← first_pull order.0 order.1 bucket path
    lift c.client.reopen
    if response.1 then cache_file bucket path response.0 else pure tt
    pure response.0

  -- whether one of these pulls succeeds
  unfoldable pub any_pull : List Puller → String → String → Exec S Bool
  unfolding pull_from_client pull_from_local pull_from_dht
  any_pull [] bucket path = pure false
  any_pull (p ∷ ps) bucket path = attempt (pull p bucket path) >>= λ pulled. elim pulled [
    | ok response ↦ pure true
    | err e ↦ any_pull ps bucket path
  ]

  -- The race, and how it is left. The pulls of `late` come to their end before `cancelPulls` too,
  -- beside the winner: one that succeeds sends to `pullSuccess` with the mutex locked, which nobody
  -- receives, and the deferred function waits for the mutex.
  unfoldable pub race_pull_file :
      Puller × List Puller → List Puller → String → String → Exec S (List Byte)
  unfolding run_race any_pull
  race_pull_file order late bucket path = do
    blocked ← any_pull late bucket path
    result ← attempt (run_race order bucket path)
    if blocked then raise never_returns else lift result

  -- a reader is given here too
  abbrev pub content_of : String × Option (Reader Byte) → Result (List Byte)
  content_of (path, some reader) = read_all reader
  content_of (path, none) = err (new "no reader")

  -- What is pulled goes through a pipe to the reader that decrypts it; an error of the race is
  -- reported.
  unfoldable pub pull_path :
      Puller × List Puller → List Puller → Context Byte → String → String → Exec S (List Byte)
  unfolding get_bucket_encryption_key encrypt_path race_pull_file decrypt_path_items
  pull_path order late ctx bucket path = do
    key ← lift (get_bucket_encryption_key ctx)
    encrypted ← lift (encrypt_path c key path)
    content ← race_pull_file order late bucket encrypted
    read ← lift (decrypt_path_items c.lib key "" (some (buffer content)))
    lift (content_of read)
