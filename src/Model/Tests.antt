-- ===== src/Model/Tests.antt =====
-- A database that holds its rows in a list and numbers nothing.
use space_daemon.Exec.{Exec, ◌>>=◌}
use space_daemon.Model.{Collection, FullPath, Query}
use space_daemon.Model.Buckets.{create_bucket, err_bucket_not_found, find_bucket}
use space_daemon.Model.MirrorFiles.{create_mirror_file, err_mirror_file_already_exists}
use space_daemon.Model.Mirrored.{create_mirror_file-same_path, mirror_with_id}
use space_daemon.Model.ReceivedFiles.{ReceivedFileSchema, create_received_file_via_invitation}
use space_daemon.Model.Rows.{IsCollection, matching}
use space_daemon.Model.Stored.{IsStored, bucket_with_id, create_bucket-IsStored}
use space_daemon.Model.Unique.{IsUnique, create_received_file_via_invitation-IsUnique, with_id}
use space_daemon.Outcome.{ok, err, external, ok-injective}
use space_daemon.Prelude.{
  ℕ, String, true, false, List, [], ◌∷◌, ◌++◌, Option, some, none, ◌≡◌, refl, ap, arith, replicate,
}
use space_daemon.Sync.Deps.{BucketSchema, MirrorFile, MirrorFileSchema}

abbrev matches_of : {R : Type 0} → Option (Query R) → List R → List R
matches_of none rows = rows
matches_of (some q) rows = matching q.matches rows

module _ {R : Type 0} (with_id : String → R → R) where
  abbrev held : Collection (List R) R
  held = record {
    new_collection = λ w. (err (external "already there"), w);
    find = λ q w. (ok (some (matches_of q w)), w);
    create = λ row w. (ok "id", w ++ with_id "id" row ∷ []);
    save = λ row w. (ok tt, w);
    delete_all = λ ids w. (ok tt, w);
  }

  held-IsCollection : IsCollection held (λ w. w) with_id
  held-IsCollection = record {
    made = λ w. refl;
    found = λ test w. refl;
    finding = λ q w. refl;
    created = λ row id w h. ap (λ i. w ++ with_id i row ∷ []) (ok-injective h);
    not_created = λ row e w h. absurd (cc h);
  }

abbrev thread : Exec (List ReceivedFileSchema) (Unit {0})
thread w = (ok tt, w)

abbrev clock : Exec (List ReceivedFileSchema) ℕ
clock w = (ok 7, w)

abbrev shared_file : FullPath
shared_file = record { db_id = "db"; bucket_key = "k"; bucket = "personal"; path = "a.txt" }

nothing-IsUnique : IsUnique []
unfolding matching
nothing-IsUnique = record { at = λ d b p. omega arith }

create_received_file_via_invitation-IsUnique_example :
    IsUnique
      (create_received_file_via_invitation thread clock
        (held with_id)
        shared_file
        "i"
        true
        []
        "pk"
        []).1
create_received_file_via_invitation-IsUnique_example =
    create_received_file_via_invitation-IsUnique thread clock (held with_id) (λ w. w)
      (held-IsCollection with_id) (λ w. refl) (record { at = λ w. refl })
      (record { at = λ w. refl }) shared_file "i" true [] "pk" [] nothing-IsUnique

abbrev nowhere : Exec (List BucketSchema) (Unit {0})
nowhere w = (ok tt, w)

abbrev key_of : ℕ → Exec (List BucketSchema) (List ℕ)
key_of n w = (ok (replicate n 5), w)

abbrev book : Collection (List BucketSchema) BucketSchema
book = held bucket_with_id

abbrev created : BucketSchema
created = record {
  id = "id";
  slug = "personal";
  backup = true;
  encryption_key = [];
  db_id = "db";
  mirror = record {
    remote_db_id = "";
    remote_bucket_key = "";
    hub_addr = "";
    remote_bucket_slug = "";
  };
}

not_there : (find_bucket nowhere key_of book "personal" []).0 ≡ err err_bucket_not_found
unfolding find_bucket matching ◌>>=◌
not_there = refl

is_created : (create_bucket nowhere key_of book "personal" "db" []).0 ≡ ok created
unfolding create_bucket matching ◌>>=◌
is_created = refl

create_bucket-IsStored_example :
    IsStored key_of "personal" "db" []
      (create_bucket nowhere key_of book "personal" "db" []).1
      created
create_bucket-IsStored_example =
    create_bucket-IsStored nowhere key_of book (λ w. w) (held-IsCollection bucket_with_id)
      (record { at = λ w. refl }) (λ n. record { at = λ w. refl }) "personal" "db" []
      err_bucket_not_found created not_there is_created

abbrev shelf : Collection (List MirrorFileSchema) MirrorFileSchema
shelf = held mirror_with_id

abbrev idle : Exec (List MirrorFileSchema) (Unit {0})
idle w = (ok tt, w)

abbrev in_bucket : String → MirrorFile
in_bucket slug = record {
  path = "a.txt";
  bucket_slug = slug;
  backup = true;
  shared = false;
  backup_in_progress = false;
  restore_in_progress = false;
}

abbrev kept : MirrorFileSchema
kept = record { id = "1"; file = in_bucket "personal"; db_id = "" }

create_mirror_file-same_path_example :
    ((create_mirror_file idle shelf idle (in_bucket "work") (kept ∷ [])).0
      ≡ err err_mirror_file_already_exists)
    × ((create_mirror_file idle shelf idle (in_bucket "work") (kept ∷ [])).1 ≡ kept ∷ [])
create_mirror_file-same_path_example =
    create_mirror_file-same_path idle shelf idle (λ w. w) (held-IsCollection mirror_with_id)
      (λ w. refl) (record { at = λ w. refl }) (record { at = λ w. refl }) (in_bucket "work")
      (kept ∷ []) [] [] kept refl refl
