-- ===== src/SecureClient/Cache.antt =====
-- core/textile/secure_bucket_client.go, racePullFile: whichever of the three pulls wins, the file
-- read is the one that is stored, since the cache holds copies of the files that are stored.
use space_daemon.Exec.{pure, lift, attempt}
use space_daemon.Exec.Returns.{bind-step}
use space_daemon.Outcome.{Result, ok, err, ok-injective}
use space_daemon.Prelude.{String, Bool, List, Option, some, none, ◌≡◌, ap, sym, ◌∙◌}
use space_daemon.Prelude.Text.{strip, strip-append}
use space_daemon.SecureClient.{SecureBucketClient}
use space_daemon.SecureClient.Pulling.{
  Puller, pull_file_from_local, pull_file_from_dht, pull_file_from_client, get_file_cache_key, pull,
  pull_from_client, pull_from_local, pull_from_dht, cid_stored, file_of,
}
use space_daemon.SecureClient.Buckets.{Files, IsBucketClient, IsContentAddressed, names}

pub get_file_cache_key-injective :
    (a b : String) → get_file_cache_key a ≡ get_file_cache_key b → a ≡ b
unfolding get_file_cache_key
get_file_cache_key-injective a b e =
    cc (strip-append "file_cache:" a, strip-append "file_cache:" b, ap (strip "file_cache:") e)

module _ {S Byte Roles : Type 0} (c : SecureBucketClient S Byte Roles) (stored : S → Files Byte)
    (addressed held : String → Option (List Byte)) where
  -- What the cache has for a CID of a bucket is a CID of the same file.
  unfoldable pub IsCoherent : S → Type 0
  IsCoherent s =
      (text cid : String) (binary content : List Byte)
      → (c.client.st_get (get_file_cache_key text) s).0 ≡ ok (some binary)
      → c.client.cid_from_bytes binary ≡ ok cid
      → held cid ≡ some content
      → addressed text ≡ some content

  module _ (buckets : IsBucketClient c.client stored)
      (ipfs : IsContentAddressed c.client stored addressed held) where
    pull_from_client-right :
        (bucket path : String) (s : S) (response : List Byte × Bool)
        → (pull_from_client c bucket path s).0 ≡ ok response
        → stored s bucket (names path) ≡ some response.0
    unfolding pull_from_client pure
    pull_from_client-right bucket path s response h =
        let (content, read, e) = bind-step (c.client.pull_path bucket path) _ s response h in
        buckets.pulled bucket path s content read
        ∙ ap (λ (r : List Byte × Bool). some r.0) (ok-injective e)

    cid_stored-ok :
        (r : Result (Option (List Byte))) (binary : List Byte)
        → cid_stored c r ≡ ok binary
        → r ≡ ok (some binary)
    cid_stored-ok (ok (some x)) binary h = ap (λ y. ok (some y)) (ok-injective h)
    cid_stored-ok (ok none) binary h = absurd (cc h)
    cid_stored-ok (err e) binary h = absurd (cc h)

    file_of-ok :
        (r : Option (List Byte)) (content : List Byte) → file_of c r ≡ ok content → r ≡ some content
    file_of-ok (some x) content h = ap some (ok-injective h)
    file_of-ok none content h = absurd (cc h)

    pull_from_local-right :
        (bucket path : String) (s : S) (response : List Byte × Bool)
        → IsCoherent s
        → (pull_from_local c bucket path s).0 ≡ ok response
        → stored s bucket (names path) ≡ some response.0
    unfolding pull_from_local pure lift attempt IsCoherent
    pull_from_local-right bucket path s response coherent h =
        let client = c.client in
        let (dir, listed, h1) = bind-step (client.list_path bucket path) _ s response h in
        let key = get_file_cache_key dir.item.cid in
        let (stored?, get, h2) = bind-step (attempt (client.st_get key)) _ _ response h1 in
        let (binary, found, h3) = bind-step (lift (cid_stored c stored?)) _ _ response h2 in
        let (cid, parsed, h4) = bind-step (lift (client.cid_from_bytes binary)) _ _ response h3 in
        let (node, got, h5) = bind-step (client.unixfs_get cid) _ _ response h4 in
        let (content, file, h6) = bind-step (lift (file_of c node)) _ _ response h5 in
        let here = ap (λ t. (client.st_get key t).0) (sym (buckets.listing bucket path s)) in
        let known = here ∙ ok-injective get ∙ cid_stored-ok stored? binary found in
        let local = ipfs.got cid _ content (got ∙ ap ok (file_of-ok node content file)) in
        sym (ipfs.listed bucket path s dir listed)
        ∙ coherent dir.item.cid cid binary content known parsed local
        ∙ ap (λ (r : List Byte × Bool). some r.0) (ok-injective h6)

    pull_from_dht-right :
        (bucket path : String) (s : S) (response : List Byte × Bool)
        → (pull_from_dht c bucket path s).0 ≡ ok response
        → stored s bucket (names path) ≡ some response.0
    unfolding pull_from_dht pure lift
    pull_from_dht-right bucket path s response h =
        let client = c.client in
        let (dir, listed, h1) = bind-step (client.list_path bucket path) _ s response h in
        let (cid, parsed, h2) = bind-step (lift (client.cid_decode dir.item.cid)) _ _ response h1 in
        let (host, _, h3) = bind-step (lift client.ipfs_host) _ _ response h2 in
        let (content, got, h4) = bind-step (client.download_ipfs_item host cid) _ _ response h3 in
        sym (ipfs.listed bucket path s dir listed)
        ∙ ipfs.downloaded host dir.item.cid cid _ content parsed got
        ∙ ap (λ (r : List Byte × Bool). some r.0) (ok-injective h4)

    pub pull-right :
        (p : Puller) (bucket path : String) (s : S) (response : List Byte × Bool)
        → IsCoherent s
        → (pull c p bucket path s).0 ≡ ok response
        → stored s bucket (names path) ≡ some response.0
    pull-right pull_file_from_local bucket path s response coherent h =
        pull_from_local-right bucket path s response coherent h
    pull-right pull_file_from_dht bucket path s response coherent h =
        pull_from_dht-right bucket path s response h
    pull-right pull_file_from_client bucket path s response coherent h =
        pull_from_client-right bucket path s response h
