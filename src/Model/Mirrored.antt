-- ===== src/Model/Mirrored.antt =====
-- Which files CreateMirrorFile of core/textile/model/mirror_file.go takes.
use space_daemon.Exec.{Exec, ◌>>=◌}
use space_daemon.Exec.Follows.{Follows, Follows-attempt, Follows-bind, Follows-pure}
use space_daemon.Model.{Collection, init_model, where_}
use space_daemon.Model.MirrorFiles.{
  create_mirror_file, err_mirror_file_already_exists, find_mirror_file_by_path_and_bucket_slug,
  head_of, init_mirror_file_model,
}
use space_daemon.Model.Rows.{IsCollection, Same, init_model-Same, matching, matching-append, same}
use space_daemon.Outcome.{ok, err}
use space_daemon.Prelude.{
  String, Bool, true, List, [], ◌∷◌, ◌++◌, some, str_eq, eq_refl, ◌≡◌, refl, ap, ◌∙◌,
}
use space_daemon.Sync.Deps.{MirrorFile, MirrorFileSchema}

abbrev pub mirror_with_id : String → MirrorFileSchema → MirrorFileSchema
mirror_with_id id row = record row { id = id }

abbrev of_path : String → MirrorFileSchema → Bool
of_path path row = str_eq row.file.path path

first_of :
    (xs ys : List MirrorFileSchema) (row : MirrorFileSchema)
    → (found : MirrorFileSchema) × (head_of (some (xs ++ row ∷ ys)) ≡ some found)
first_of [] ys row = (row, refl)
first_of (x ∷ xs) ys row = (x, refl)

-- A row that matches is found, though there may be others before it.
head_of-matching :
    (path : String) (xs ys : List MirrorFileSchema) (row : MirrorFileSchema)
    → row.file.path ≡ path
    → (found : MirrorFileSchema) × (head_of (some (matching (of_path path) (xs ++ row ∷ ys)))
        ≡ some found)
unfolding matching
head_of-matching path xs ys row here =
    let matches : of_path path row ≡ true = rw here (eq_refl path) in
    rw (matching-append (of_path path) xs (row ∷ ys), matches)
      (first_of (matching (of_path path) xs) (matching (of_path path) ys) row)

module _ {W : Type 0} (meta_thread : Exec W (Unit {0})) (files : Collection W MirrorFileSchema)
    (update_collection : Exec W (Unit {0})) (rows : W → List MirrorFileSchema)
    (laws : IsCollection files rows mirror_with_id) (ready : (w : W) → (meta_thread w).0 ≡ ok tt)
    (context : Follows (Same rows) meta_thread)
    (updated : Follows (Same rows) update_collection) where
  abbrev Init : Exec W (Unit {0})
  Init = init_mirror_file_model meta_thread files update_collection

  Init-Same : Follows (Same rows) Init
  unfolding init_mirror_file_model
  Init-Same =
      Follows-bind (same rows) _ _
        (init_model-Same files rows mirror_with_id laws meta_thread context)
        (λ u.
          Follows-bind (same rows) _ _ (Follows-attempt (same rows) _ updated)
            (λ r. Follows-pure (same rows) tt))

  init_ready : (w : W) → (Init w).0 ≡ ok tt
  unfolding init_mirror_file_model init_model ◌>>=◌
  init_ready w = rw (ready w) refl

  find_mirror_file-found :
      (path slug : String) (w : W)
      → (find_mirror_file_by_path_and_bucket_slug meta_thread files update_collection path slug w).0
        ≡ ok (head_of (some (matching (of_path path) (rows w))))
  unfolding find_mirror_file_by_path_and_bucket_slug ◌>>=◌
  find_mirror_file-found path slug w =
      rw (init_ready w, laws.found (of_path path) (Init w).1, Init-Same.at w) refl

  find_mirror_file-rows :
      (path slug : String) (w : W)
      → rows
          (find_mirror_file_by_path_and_bucket_slug meta_thread files update_collection path slug
            w).1
        ≡ rows w
  unfolding find_mirror_file_by_path_and_bucket_slug ◌>>=◌
  find_mirror_file-rows path slug w =
      rw (init_ready w, laws.found (of_path path) (Init w).1)
        (laws.finding (where_ (of_path path)) (Init w).1 ∙ Init-Same.at w)

  -- Where the thread of the metadata is there and the database answers a query by the rows that
  -- match, a mirror file is refused, and no row changes, as soon as a file of the same path is there
  -- in any bucket.
  pub create_mirror_file-same_path :
      (file : MirrorFile) (w : W) (xs ys : List MirrorFileSchema) (row : MirrorFileSchema)
      → rows w ≡ xs ++ row ∷ ys
      → row.file.path ≡ file.path
      → ((create_mirror_file meta_thread files update_collection file w).0
          ≡ err err_mirror_file_already_exists)
        × (rows (create_mirror_file meta_thread files update_collection file w).1 ≡ rows w)
  unfolding create_mirror_file ◌>>=◌
  create_mirror_file-same_path file w xs ys row here same_path =
      let w' = (Init w).1 in
      let (found, is_found) = head_of-matching file.path xs ys row same_path in
      let looked : (find_mirror_file_by_path_and_bucket_slug meta_thread files update_collection
            file.path file.bucket_slug w').0
          ≡ ok (some found) =
        find_mirror_file-found file.path file.bucket_slug w'
        ∙ ap (λ r. ok (head_of (some (matching (of_path file.path) r)))) (Init-Same.at w ∙ here)
        ∙ ap ok is_found in
      rw (init_ready w, looked)
        (refl, find_mirror_file-rows file.path file.bucket_slug w' ∙ Init-Same.at w)
