-- ===== src/Model/MirrorFiles.antt =====
-- core/textile/model/mirror_file.go.
use space_daemon.Exec.{Exec, attempt, pure, raise, ◌>>=◌, ◌>>◌}
use space_daemon.Model.{Collection, Query, init_model, where_}
use space_daemon.Outcome.{Err, new}
use space_daemon.Prelude.{String, Bool, false, ◌||◌, List, [], ◌∷◌, Option, some, none, str_eq}
use space_daemon.Prelude.Map.{Map, insert}
use space_daemon.Prelude.Paths.{clean}
use space_daemon.Sync.Deps.{MirrorFile, MirrorFileSchema}

abbrev pub err_mirror_file_not_found : Err
err_mirror_file_not_found = new "Mirror file not found"

abbrev pub err_mirror_file_already_exists : Err
err_mirror_file_already_exists = new "Mirror file already exists"

any_path : List String → MirrorFileSchema → Bool
any_path [] row = false
any_path (p ∷ ps) row = let rest = any_path ps row in str_eq row.file.path (clean p) || rest

-- without a path the query stays nil
abbrev paths_query : List String → Option (Query MirrorFileSchema)
paths_query [] = none
paths_query (p ∷ ps) = where_ (any_path (p ∷ ps))

by_path : List MirrorFileSchema → Map MirrorFileSchema → Map MirrorFileSchema
by_path [] m = m
by_path (row ∷ rows) m = by_path rows (insert row.file.path row m)

-- nil where no row was found
abbrev mirror_map : Option (List MirrorFileSchema) → Option (Map MirrorFileSchema)
mirror_map none = none
mirror_map (some []) = none
mirror_map (some (row ∷ rows)) = some (by_path (row ∷ rows) [])

abbrev pub head_of : Option (List MirrorFileSchema) → Option MirrorFileSchema
head_of none = none
head_of (some []) = none
head_of (some (row ∷ rows)) = some row

module _ {W : Type 0} (meta_thread : Exec W (Unit {0})) (files : Collection W MirrorFileSchema)
    (update_collection : Exec W (Unit {0})) where
  -- UpdateCollection adds the fields of newer versions
  unfoldable pub init_mirror_file_model : Exec W (Unit {0})
  unfolding init_model
  init_mirror_file_model = do init_model meta_thread files; attempt update_collection; pure tt

  unfoldable pub find_mirror_file_by_paths : List String → Exec W (Option (Map MirrorFileSchema))
  unfolding init_mirror_file_model any_path by_path
  find_mirror_file_by_paths paths = do
    init_mirror_file_model
    rows ← files.find (paths_query paths)
    pure (mirror_map rows)

  -- The query does not look at the bucket.
  unfoldable pub find_mirror_file_by_path_and_bucket_slug :
      String → String → Exec W (Option MirrorFileSchema)
  unfolding init_mirror_file_model
  find_mirror_file_by_path_and_bucket_slug path bucket_slug = do
    init_mirror_file_model
    rows ← files.find (where_ (λ row. str_eq row.file.path path))
    pure (head_of rows)

  abbrev pub create_unless : MirrorFile → Option MirrorFileSchema → Exec W MirrorFileSchema
  create_unless file (some found) = raise err_mirror_file_already_exists
  create_unless file none = do
    id ← files.create (record { id = ""; file = file; db_id = "" })
    pure (record { id = id; file = file; db_id = "" })

  unfoldable pub create_mirror_file : MirrorFile → Exec W MirrorFileSchema
  unfolding init_mirror_file_model find_mirror_file_by_path_and_bucket_slug
  create_mirror_file file = do
    init_mirror_file_model
    found ← find_mirror_file_by_path_and_bucket_slug file.path file.bucket_slug
    create_unless file found

  -- what is returned is the instance as it was
  abbrev save_over : MirrorFileSchema → Option MirrorFileSchema → Exec W MirrorFileSchema
  save_over file none = raise err_mirror_file_not_found
  save_over file (some found) = files.save file >> pure found

  unfoldable pub update_mirror_file : MirrorFileSchema → Exec W MirrorFileSchema
  unfolding init_mirror_file_model find_mirror_file_by_path_and_bucket_slug
  update_mirror_file file = do
    init_mirror_file_model
    found ← find_mirror_file_by_path_and_bucket_slug file.file.path file.file.bucket_slug
    save_over file found
