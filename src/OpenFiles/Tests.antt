-- ===== src/OpenFiles/Tests.antt =====
-- One opened file, over a store in memory.
use space_daemon.Exec.{lift, ◌>>=◌}
use space_daemon.OpenFiles.{
  AddWatchFile, Watching, add_file_watch, add_file_info_to_store, get_open_file_path,
  get_open_file_bucket_slug_and_path,
}
use space_daemon.OpenFiles.Found.{IsKeptFiles, get_open_file_path-add_file_watch}
use space_daemon.Outcome.{Result, ok, err, new, external}
use space_daemon.Prelude.{
  String, Bool, true, false, ◌&&◌, Option, none, some, [], ◌∷◌, ◌≡◌, ◌≢◌, refl, arith, str_eq,
  eq_iff, eq_refl, if◌then◌else◌, Bool-cases, inl, inr,
}
use space_daemon.Prelude.Map.{Map, lookup, insert, delete, lookup-insert}

abbrev opened : AddWatchFile
opened = record {
  db_id = "d";
  local_path = "/tmp/a.txt";
  bucket_path = "a.txt";
  bucket_key = "k";
  bucket_slug = "personal";
  is_remote = false;
  cid = "c";
}

abbrev is_opened : String → String → String → String → String → String → Bool
is_opened d l p k s c =
    str_eq d "d"
    && (str_eq l "/tmp/a.txt"
        && (str_eq p "a.txt" && (str_eq k "k" && (str_eq s "personal" && str_eq c "c"))))

-- a coding of that one file
abbrev encode : String → String → String → String → String → Bool → String → Result String
encode d l p k s true c = err (new "unsupported")
encode d l p k s false c = if is_opened d l p k s c then ok "file" else err (new "unsupported")

abbrev found : Option String → Result String
found none = err (external "Key not found")
found (some v) = ok v

-- no upload succeeds
abbrev offline : Watching (Map String) (Unit {0})
offline = record {
  st_get = λ k w. (found (lookup k w), w);
  st_set = λ k v w. (ok tt, insert k v w);
  st_remove = λ k w. (ok tt, delete k w);
  keys_with_prefix = λ p w. (ok [], w);
  marshal = λ fi.
      encode fi.db_id fi.local_path fi.bucket_path fi.bucket_key fi.bucket_slug fi.is_remote fi.cid;
  unmarshal = λ text. ok opened;
  add_file = λ p w. (ok tt, w);
  path_exists = λ p w. true;
  get_bucket = λ s r w. (ok tt, w);
  dir_exists = λ b p w. (ok false, w);
  file_exists = λ b p w. (ok false, w);
  open_file = λ p w. (ok (1 ∷ 2 ∷ []), w);
  create_directory = λ b p w. (err (external "offline"), w);
  upload_file = λ b p c w. (err (external "offline"), w);
  delete_dir_or_file = λ b p w. (ok tt, w);
}

decode_fields :
    (d l p k s : String) (r : Bool) (c text : String)
    → encode d l p k s r c ≡ ok text
    → ok opened
      ≡ ok (record {
        db_id = d;
        local_path = l;
        bucket_path = p;
        bucket_key = k;
        bucket_slug = s;
        is_remote = r;
        cid = c;
      })
decode_fields d l p k s true c text h = absurd (cc h)
decode_fields d l p k s false c text h = elim (Bool-cases (is_opened d l p k s c)) [
  | inl e ↦
      let e1 : str_eq d "d" ≡ true = ground (arith, e) in
      let e2 : str_eq l "/tmp/a.txt" ≡ true = ground (arith, e) in
      let e3 : str_eq p "a.txt" ≡ true = ground (arith, e) in
      let e4 : str_eq k "k" ≡ true = ground (arith, e) in
      let e5 : str_eq s "personal" ≡ true = ground (arith, e) in
      let e6 : str_eq c "c" ≡ true = ground (arith, e) in
      cc (
        (eq_iff d "d").0 e1,
        (eq_iff l "/tmp/a.txt").0 e2,
        (eq_iff p "a.txt").0 e3,
        (eq_iff k "k").0 e4,
        (eq_iff s "personal").0 e5,
        (eq_iff c "c").0 e6,
      )
  | inr e ↦ absurd (cc (rw e at h))
]

different : (k j : String) → k ≢ j → str_eq k j ≡ false
different k j h = elim (Bool-cases (str_eq k j)) [
  | inl e ↦ absurd (h ((eq_iff k j).0 e))
  | inr e ↦ e
]

offline-IsKeptFiles : IsKeptFiles offline
offline-IsKeptFiles = record {
  get_set = λ k v w e. rw (lookup-insert k k v w, eq_refl k) refl;
  get_set_ne = λ k j v w h. rw (lookup-insert k j v w, different k j h) refl;
  get_add_file = λ k p w. refl;
  unmarshal-marshal = λ fi text h.
      decode_fields fi.db_id fi.local_path fi.bucket_path fi.bucket_key fi.bucket_slug fi.is_remote
        fi.cid text h;
}

is_added : (add_file_watch offline opened []).0 ≡ ok tt
unfolding add_file_watch add_file_info_to_store ◌>>=◌ lift
is_added = refl

abbrev watched : Map String
watched = (add_file_watch offline opened []).1

get_open_file_path-add_file_watch_example :
    (get_open_file_path offline "personal" "a.txt" "d" "c" watched ≡ some "/tmp/a.txt")
    × (get_open_file_bucket_slug_and_path offline "/tmp/a.txt" watched
        ≡ (if str_eq "personal" "" then none else some opened))
get_open_file_path-add_file_watch_example =
    get_open_file_path-add_file_watch offline offline-IsKeptFiles opened [] is_added
