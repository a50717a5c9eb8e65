-- ===== src/SecureClient/Caching.antt =====
-- core/textile/secure_bucket_client.go, racePullFile: what the copy to the cache leaves there.
use space_daemon.Exec.{lift}
use space_daemon.Exec.Returns.{bind-leaves}
use space_daemon.Outcome.{Result, ok, err, ok-injective}
use space_daemon.Prelude.{
  String, List, Option, some, str_eq, eq_iff, if◌then◌else◌, ◌≡◌, ap, sym, ◌∙◌, subst, Bool-cases,
  inl, inr,
}
use space_daemon.SecureClient.{SecureBucketClient}
use space_daemon.SecureClient.Pulling.{get_file_cache_key, cache_file}
use space_daemon.SecureClient.Buckets.{Files, IsBucketClient, IsContentAddressed, names}
use space_daemon.SecureClient.Cache.{IsCoherent, get_file_cache_key-injective}

module _ {S Byte Roles : Type 0} (c : SecureBucketClient S Byte Roles) (stored : S → Files Byte)
    (addressed held : String → Option (List Byte)) (buckets : IsBucketClient c.client stored)
    (ipfs : IsContentAddressed c.client stored addressed held) where
  abbrev Coherent : S → Type 0
  Coherent = IsCoherent c stored addressed held

  adding-IsCoherent :
      (content : List Byte) (s : S) → Coherent s → Coherent (c.client.unixfs_add content s).1
  unfolding IsCoherent
  adding-IsCoherent content s coherent text cid binary found h =
      coherent text cid binary found (sym (ipfs.st_get-unixfs_add _ content s) ∙ h)

  same_key :
      (content binary new : List Byte) (text cid : String) (s : S) (r : Result (Unit {0}))
      → Coherent s
      → addressed text ≡ some content
      → ((k : String) → c.client.cid_from_bytes new ≡ ok k → held k ≡ some content)
      → elim r as (λ _. Result (Option (List Byte))) [
        | ok u ↦ ok (some new)
        | err e ↦ (c.client.st_get (get_file_cache_key text) s).0
      ]
        ≡ ok (some binary)
      → (found : List Byte) → c.client.cid_from_bytes binary ≡ ok cid
      → held cid ≡ some found
      → addressed text ≡ some found
  unfolding IsCoherent
  same_key content binary new text cid s (ok u) coherent right copied e found parsed local =
      let read : some new ≡ some binary = ok-injective e in
      let parsed_new : c.client.cid_from_bytes new ≡ ok cid = cc (read, parsed) in
      right ∙ (sym (copied cid parsed_new) ∙ local)
  same_key content binary new text cid s (err u) coherent right copied e found parsed local =
      coherent text cid binary found e parsed local

  written :
      (content binary new : List Byte) (text cid other : String) (s : S) (r : Result (Unit {0}))
      → Coherent s
      → addressed other ≡ some content
      → ((k : String) → c.client.cid_from_bytes new ≡ ok k → held k ≡ some content)
      → (if str_eq (get_file_cache_key other) (get_file_cache_key text)
          then elim r as (λ _. Result (Option (List Byte))) [
            | ok u ↦ ok (some new)
            | err e ↦ (c.client.st_get (get_file_cache_key text) s).0
          ]
          else (c.client.st_get (get_file_cache_key text) s).0)
        ≡ ok (some binary)
      → (found : List Byte) → c.client.cid_from_bytes binary ≡ ok cid
      → held cid ≡ some found
      → addressed text ≡ some found
  unfolding IsCoherent
  written content binary new text cid other s r coherent right copied e found parsed local =
      elim (Bool-cases (str_eq (get_file_cache_key other) (get_file_cache_key text))) [
        | inr differs ↦ coherent text cid binary found (rw differs at e) parsed local
        | inl same ↦
            let keys = get_file_cache_key-injective other text ((eq_iff _ _).0 same) in
            same_key content binary new text cid s r coherent (ap addressed (sym keys) ∙ right)
              copied (rw same at e) found parsed local
      ]

  set-IsCoherent :
      (content binary : List Byte) (text : String) (s : S)
      → Coherent s
      → addressed text ≡ some content
      → ((k : String) → c.client.cid_from_bytes binary ≡ ok k → held k ≡ some content)
      → Coherent (c.client.st_set (get_file_cache_key text) binary s).1
  unfolding IsCoherent
  set-IsCoherent content binary text s coherent right copied other cid found it h parsed local =
      written content found binary other cid text s _ coherent right copied
        (sym (ipfs.st_get-st_set (get_file_cache_key text) (get_file_cache_key other) binary s) ∙ h)
        it parsed local

  pub cache_file-IsCoherent :
      (bucket path : String) (content : List Byte) (s : S)
      → Coherent s
      → stored s bucket (names path) ≡ some content
      → Coherent (cache_file c bucket path content s).1
  unfolding cache_file lift
  cache_file-IsCoherent bucket path content s coherent right =
      bind-leaves Coherent _ _ s (λ e _. coherent)
        (λ u _.
          bind-leaves Coherent (c.client.unixfs_add content) _ s
            (λ e _. adding-IsCoherent content s coherent)
            (λ binary added.
              let t = (c.client.unixfs_add content s).1 in
              let still =
                subst Coherent (sym (buckets.listing bucket path t))
                  (adding-IsCoherent content s coherent) in
              bind-leaves Coherent (c.client.list_path bucket path) _ t (λ e _. still)
                (λ dir listed.
                  set-IsCoherent content binary dir.item.cid _ still
                    (ipfs.listed bucket path t dir listed
                      ∙ (ap (λ f. f bucket (names path)) (ipfs.adding content s) ∙ right))
                    (λ k parsed. ipfs.added content binary k s added parsed))))
