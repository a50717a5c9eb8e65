-- ===== src/SecureClient/Tests.antt =====
-- A bucket in memory, whose CIDs spell the files that they address.
mod Runs
use Prim.Native.String.{[] as empty, ◌∷◌ as ◌::◌}
use space_daemon.Bucket.{Item, DirEntries, is_meta_file_name}
use space_daemon.Crypto.{Keys, buffer, parse_keys, sealed}
use space_daemon.Crypto.Paths.{squeeze}
use space_daemon.Crypto.RoundTrip.{AreSized, path_name}
use space_daemon.Crypto.Tests.{
  Mark, marks, marks-AreCiphers, key80, keys, keys-AreSized, bytes, encode, decode, decode-encode,
}
use space_daemon.Exec.{Exec}
use space_daemon.Outcome.{Result, ok, err, external}
use space_daemon.Prelude.{
  ◌+◌, ◌-◌, String, ◌<>◌, Bool, true, false, ◌&&◌, ◌||◌, List, [], ◌∷◌, Option, some, none, length,
  str_eq, eq_refl, if◌then◌else◌, ◌≡◌, refl, ap, sym, ◌∙◌, arith, Bool-cases, inl, inr,
}
use space_daemon.Prelude.Map.{Map, lookup, insert, lookup-insert}
use space_daemon.SecureClient.{
  Network, SecureBucketClient, overwrite_decrypted_item, push_path, remove_path,
}
use space_daemon.SecureClient.Pulling.{
  Puller, pull_file_from_local, pull_file_from_dht, pull_file_from_client, pull_path,
  race_pull_file, get_file_cache_key,
}
use space_daemon.SecureClient.Buckets.{
  Files, IsBucketClient, IsContentAddressed, Pushed, Removed, names, below,
}
use space_daemon.SecureClient.Cache.{IsCoherent}
use space_daemon.SecureClient.Listing.{overwrite_decrypted_item-path_name}
use space_daemon.SecureClient.Pulls.{pull_path-plain, pull_path-returns}
use space_daemon.SecureClient.Races.{race_pull_file-IsCoherent}
use space_daemon.SecureClient.Refines.{plain_files, push_path-Pushed, remove_path-Removed}

record World : Type 0 where
  pub files : Files Mark
  pub cache : Map (List Mark)

abbrev stored : World → Files Mark
stored w = w.files

-- the same names
abbrev same : List String → List String → Bool
same [] [] = true
same [] (q ∷ qs) = false
same (p ∷ ps) [] = false
same (p ∷ ps) (q ∷ qs) = str_eq p q && same ps qs

same_refl : (ps : List String) → same ps ps ≡ true
same_refl [] = refl
same_refl (p ∷ ps) = rw (eq_refl p) (same_refl ps)

same-below : (ps qs : List String) → below ps qs ≡ false → same ps qs ≡ false
unfolding below
same-below [] qs h = absurd (cc h)
same-below (p ∷ ps) [] h = refl
same-below (p ∷ ps) (q ∷ qs) h = elim (Bool-cases (str_eq p q)) [
  | inl e ↦ rw e (same-below ps qs (rw e at h))
  | inr e ↦ rw e refl
]

abbrev put : String → List String → List Mark → Files Mark → Files Mark
put bucket path content files b other =
    if str_eq bucket b && same path other
    then some content
    else if str_eq bucket b && (below path other || below other path)
    then none
    else files b other

abbrev cleared : String → List String → Files Mark → Files Mark
cleared bucket path files b other =
    if str_eq bucket b && below path other then none else files b other

abbrev found : Option (List Mark) → Result (List Mark)
found (some content) = ok content
found none = err (external "no file")

abbrev only : Result (List Mark) → Option (List Mark)
only (ok m) = some m
only (err e) = none

abbrev cid_of : Option (List Mark) → String
cid_of none = ""
cid_of (some content) = "t" :: encode content

abbrev addressed : String → Option (List Mark)
addressed empty = none
addressed (c :: text) = only (decode text)

addressed-cid_of : (o : Option (List Mark)) → addressed (cid_of o) ≡ o
addressed-cid_of none = refl
addressed-cid_of (some m) = ap only (decode-encode m)

abbrev held : String → Option (List Mark)
held cid = only (decode cid)

abbrev listing_of : String → Option (List Mark) → DirEntries
listing_of path file = record {
  item = record {
    name = path;
    path = path;
    is_dir = false;
    cid = cid_of file;
    size = 0;
    updated_at = 0;
  };
  items = [];
}

abbrev in_memory : Network World Mark (Unit {0})
in_memory = record {
  push_path =
      λ b path r w. (ok (path, path), record w { files = put b (names path) r.content w.files });
  pull_path = λ b path w. (found (w.files b (names path)), w);
  list_path = λ b path w. (ok (listing_of path (w.files b (names path))), w);
  remove_path = λ b path w. (ok path, record w { files = cleared b (names path) w.files });
  push_path_access_roles = λ b path roles w. (ok tt, w);
  pull_path_access_roles = λ b path w. (ok tt, w);
  temp_file = ok tt;
  reopen = ok tt;
  st_get = λ k w. (ok (lookup k w.cache), w);
  st_set = λ k v w. (ok tt, record w { cache = insert k v w.cache });
  unixfs_add = λ content w. (ok content, w);
  unixfs_get = λ cid w. (ok (held cid), w);
  cid_from_bytes = λ binary. ok (encode binary);
  cid_decode = λ text. ok text;
  ipfs_host = err (external "no node");
  download_ipfs_item = λ host cid w. (found (addressed cid), w);
}

found-ok : (o : Option (List Mark)) (m : List Mark) → found o ≡ ok m → o ≡ some m
found-ok none m h = absurd (cc h)
found-ok (some x) m h = cc h

ok-path : {A : Type 0} (a b : A) → ok a ≡ ok b → a ≡ b
ok-path a b h = cc h

put-Pushed :
    (files : Files Mark) (bucket : String) (path : List String) (content : List Mark)
    → Pushed files (put bucket path content files) bucket path content
put-Pushed files bucket path content = record {
  here = rw (eq_refl bucket, same_refl path) refl;
  kept = λ b other apart. elim (Bool-cases (str_eq bucket b)) [
    | inr e ↦ rw e refl
    | inl e ↦ elim (Bool-cases (below path other)) [
      | inl f ↦ absurd (cc (rw (e, f) at apart))
      | inr f ↦
          let g = same-below path other f in
          let u : below other path ≡ false = rw (e, f) at apart in rw (e, f, g, u) refl
    ]
  ];
}

cleared-Removed :
    (files : Files Mark) (bucket : String) (path : List String)
    → Removed files (cleared bucket path files) bucket path
cleared-Removed files bucket path = record {
  gone = λ other under. rw (eq_refl bucket, under) refl;
  kept = λ b other apart. rw apart refl;
}

in_memory-IsBucketClient : IsBucketClient in_memory stored
in_memory-IsBucketClient = record {
  pushed = λ b path content w r h. put-Pushed w.files b (names path) content;
  removed = λ b path w r h. cleared-Removed w.files b (names path);
  pulled = λ b path w content h. found-ok _ content h;
  pulling = λ b path w. refl;
  listing = λ b path w. refl;
}

stored_value :
    (key other : String) (value : List Mark) (m : Map (List Mark))
    → ok (lookup other (insert key value m))
      ≡ (if str_eq key other then ok (some value) else ok (lookup other m))
stored_value key other value m = elim (Bool-cases (str_eq key other)) [
  | inl e ↦ rw (lookup-insert key other value m, e) refl
  | inr e ↦ rw (lookup-insert key other value m, e) refl
]

in_memory-IsContentAddressed : IsContentAddressed in_memory stored addressed held
in_memory-IsContentAddressed = record {
  listed = λ b path w dir h.
      ap (λ (d : DirEntries). addressed d.item.cid) (sym (ok-path _ dir h))
      ∙ addressed-cid_of (w.files b (names path));
  downloaded = λ host text cid w content h k.
      ap addressed (ok-path text cid h) ∙ found-ok (addressed cid) content k;
  downloading = λ host cid w. refl;
  got = λ cid w content h. ok-path _ _ h;
  getting = λ cid w. refl;
  added = λ content binary cid w h k.
      ap held (sym (ok-path _ cid k) ∙ ap encode (sym (ok-path content binary h)))
      ∙ ap only (decode-encode content);
  adding = λ content w. refl;
  st_getting = λ key w. refl;
  st_get-unixfs_add = λ key content w. refl;
  st_get-st_set = λ key other value w. stored_value key other value w.cache;
}
