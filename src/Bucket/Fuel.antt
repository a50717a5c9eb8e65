-- ===== src/Bucket/Fuel.antt =====
-- core/textile/bucket/bucket_dir.go: how much fuel the walk of `Each` needs.
use space_daemon.Bucket.{Item, DirEntries, is_meta_file_name, join_path, each_items, each}
use space_daemon.Exec.{Exec, continue, ◌>>=◌}
use space_daemon.Outcome.{Result, ok, err}
use space_daemon.Prelude.{
  ℕ, zero, suc, ◌+◌, ◌<◌, ◌≡◌, refl, String, Bool, true, ◌&&◌, List, [], ◌∷◌, arith, Bool-cases,
  inl, inr,
}

-- the directories among the items have a lower rank than their parent
abbrev pub Descends : (String → ℕ) → String → List Item → Type 0
Descends rank path [] = Unit {0}
Descends rank path (i ∷ items) =
    (i.is_dir ≡ true → rank (join_path path i.name) < rank path) × Descends rank path items

module _ {S : Type 0} where
  continue-same :
      {A B : Type 0} (r : Result A) (k l : A → Exec S B) (s : S)
      → ((a : A) (s : S) → k a s ≡ l a s)
      → continue r k s ≡ continue r l s
  continue-same (ok a) k l s h = h a s
  continue-same (err e) k l s h = refl

  module _ (list_directory : String → Exec S DirEntries) (rank : String → ℕ)
      (it : String → Exec S (Unit {0})) (deep : Bool) where
    each_items-same :
        (f g : String → Exec S ℕ) (path : String) (count : ℕ) (items : List Item) (s : S)
        → ((p : String) (s : S) → rank p < rank path → f p s ≡ g p s)
        → Descends rank path items
        → each_items list_directory f it path deep count items s
          ≡ each_items list_directory g it path deep count items s
    unfolding each_items ◌>>=◌
    each_items-same f g path count [] s h d = refl
    each_items-same f g path count (i ∷ items) s h d =
        elim (Bool-cases (is_meta_file_name i.name)) [
          | inl meta ↦ rw meta (each_items-same f g path (count + 0) items s h d.1)
          | inr other ↦ elim (Bool-cases (deep && i.is_dir)) [
            | inl dir ↦
                let lower = d.0 (ground (arith, dir)) in
                rw (other, dir, h (join_path path i.name) s lower)
                  (continue-same _ _ _ _
                    (λ n u. each_items-same f g path (count + n) items u h d.1))
            | inr file ↦
                rw (other, file)
                  (continue-same _ _ _ _
                    (λ n u. each_items-same f g path (count + 0) items u h d.1))
          ]
        ]

    listed-same :
        (f g : String → Exec S ℕ) (path : String) (r : Result DirEntries) (u : S)
        → ((p : String) (s : S) → rank p < rank path → f p s ≡ g p s)
        → ((dir : DirEntries) → r ≡ ok dir → Descends rank path dir.items)
        → continue r (λ dir. each_items list_directory f it path deep 0 dir.items) u
          ≡ continue r (λ dir. each_items list_directory g it path deep 0 dir.items) u
    listed-same f g path (err e) u h d = refl
    listed-same f g path (ok dir) u h d = each_items-same f g path 0 dir.items u h (d dir refl)

    -- Where each listing has directories of a lower rank than the one listed, the walk over a directory
    -- is the same with every amount of fuel above its rank.
    pub each-enough_fuel :
        ((path : String) (s : S) (dir : DirEntries)
          → (list_directory path s).0 ≡ ok dir
          → Descends rank path dir.items)
        → (n m : ℕ) (path : String) (s : S) → rank path < n
        → rank path < m
        → each list_directory n it path deep s ≡ each list_directory m it path deep s
    unfolding each ◌>>=◌
    each-enough_fuel finite zero m path s h k = absurd (omega arith)
    each-enough_fuel finite (suc n) zero path s h k = absurd (omega arith)
    each-enough_fuel finite (suc n) (suc m) path s h k =
        listed-same (λ p. each list_directory n it p deep) (λ p. each list_directory m it p deep)
          path (list_directory path s).0 (list_directory path s).1
          (λ p v lt. each-enough_fuel finite n m p v (omega (arith, lt, h)) (omega (arith, lt, k)))
          (finite path s)
