-- ===== src/Bucket.antt =====
-- core/textile/bucket/bucket_dir.go: walks over the tree of a bucket.
pub mod Files
pub mod Fuel
use space_daemon.Exec.{Exec, pure, raise, ◌>>=◌}
use space_daemon.Outcome.{out_of_fuel}
use space_daemon.Prelude.{
  ℕ, zero, suc, ◌+◌, String, ◌<>◌, Bool, List, [], ◌∷◌, str_eq, ◌&&◌, ◌||◌, if◌then◌else◌,
}
use space_daemon.Prelude.Paths.{file_part}

-- bucketsd's PathItem, as far as it is read
pub record Item : Type 0 where
  pub name : String
  pub path : String
  pub is_dir : Bool
  pub cid : String
  pub size : ℕ
  pub updated_at : ℕ

-- bucket.DirEntries
pub record DirEntries : Type 0 where
  pub item : Item
  pub items : List Item

-- utils.IsMetaFileName
abbrev is_meta_name : String → Bool
is_meta_name n =
    str_eq n ".textileseed"
    || str_eq n ".textile"
    || str_eq n ".DS_Store"
    || str_eq n ".Trashes"
    || str_eq n ".localized"

unfoldable pub is_meta_file_name : String → Bool
is_meta_file_name p = is_meta_name (file_part p)

unfoldable pub join_path : String → String → String
join_path path name = if str_eq path "" then name else path <> ("/" <> name)

module _ {S : Type 0} (list_directory : String → Exec S DirEntries) where
  -- The loop of `Each` over the items of one directory. `n` is what `Each` returned for a
  -- directory, and stays 0 for a file, so that files are never counted.
  unfoldable pub each_items :
      (String → Exec S ℕ) → (String → Exec S (Unit {0})) → String → Bool → ℕ → List Item → Exec S ℕ
  each_items deeper iterator path deep count [] = pure count
  each_items deeper iterator path deep count (item ∷ items) =
      let next = λ (n : ℕ). each_items deeper iterator path deep (count + n) items in
      if is_meta_file_name item.name
      then next 0
      else if deep && item.is_dir
      then (deeper (join_path path item.name) >>= next)
      else (iterator (join_path path item.name) >>= λ _. next 0)

  -- `fuel` bounds the depth of the tree
  unfoldable pub each : ℕ → (String → Exec S (Unit {0})) → String → Bool → Exec S ℕ
  unfolding each_items is_meta_file_name join_path
  each zero iterator path deep = raise out_of_fuel
  each (suc fuel) iterator path deep = do
    dir ← list_directory path
    each_items (λ p. each fuel iterator p deep) iterator path deep 0 dir.items
