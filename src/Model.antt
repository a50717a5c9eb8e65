-- ===== src/Model.antt =====
-- core/textile/model: the collections of the user's thread database. The database (go-threads), the
-- thread's context, random bytes and the clock are parameters.
pub mod Buckets
pub mod MirrorFiles
pub mod ReceivedFiles
pub mod SentFiles
pub mod SharedKeys
pub mod Rows
pub mod Mirrored
pub mod Stored
pub mod Unique
mod Tests
use space_daemon.Exec.{Exec, attempt, pure, ◌>>=◌, ◌>>◌}
use space_daemon.Outcome.{Err, Result, ok, err}
use space_daemon.Prelude.{ℕ, String, Bool, List, [], ◌∷◌, Option, some, none}

-- db.Query: which instances, from which ID on ("" for all), how many at most, and by which field in
-- ascending order ("" for none)
pub record Query (R : Type 0) : Type 0 where
  pub matches : R → Bool
  pub seek : String
  pub limit : Option ℕ
  pub sort : String

-- One collection of the client of the database. `find` may return nil in place of a list, and is
-- given no query where the code passes nil.
pub record Collection (W R : Type 0) : Type 0 where
  pub new_collection : Exec W (Unit {0})
  pub find : Option (Query R) → Exec W (Option (List R))
  pub create : R → Exec W String
  pub save : R → Exec W (Unit {0})
  pub delete_all : List String → Exec W (Unit {0})

-- domain.FullPath
pub record FullPath : Type 0 where
  pub db_id : String
  pub bucket_key : String
  pub bucket : String
  pub path : String

module _ {R : Type 0} where
  abbrev pub where_ : (R → Bool) → Option (Query R)
  where_ test = some (record { matches = test; seek = ""; limit = none; sort = "" })

  -- the first row that was found
  abbrev pub first_row : Err → Option (List R) → Result R
  first_row not_found none = err not_found
  first_row not_found (some []) = err not_found
  first_row not_found (some (row ∷ rows)) = ok row

  abbrev pub or_empty : Option (List R) → List R
  or_empty none = []
  or_empty (some rows) = rows

module _ {W R : Type 0} where
  -- getMetaThreadContext and NewCollection, whose error says that the collection is there already
  unfoldable pub init_model : Exec W (Unit {0}) → Collection W R → Exec W (Unit {0})
  init_model meta_thread c = do meta_thread; attempt c.new_collection; pure tt
