-- ===== src/Model/Rows.antt =====
-- What the collections of core/textile/model rely on of the thread database.
use space_daemon.Exec.{Exec}
use space_daemon.Exec.Follows.{Follows, IsPreorder, Follows-pure, Follows-attempt, Follows-bind}
use space_daemon.Model.{Collection, Query, init_model, where_}
use space_daemon.Outcome.{Err, ok, err}
use space_daemon.Prelude.{
  String, Bool, List, [], ◌∷◌, ◌++◌, Option, some, if◌then◌else◌, ◌≡◌, refl, ◌∙◌, Bool-cases, inl,
  inr,
}

-- the rows that match
unfoldable pub matching {ℓ} : {R : Type ℓ} → (R → Bool) → List R → List R
matching test [] = []
matching test (row ∷ rows) = let rest = matching test rows in if test row then row ∷ rest else rest

pub matching-append :
    {R : Type 0} (test : R → Bool) (xs ys : List R)
    → matching test (xs ++ ys) ≡ matching test xs ++ matching test ys
unfolding matching
matching-append test [] ys = refl
matching-append test (x ∷ xs) ys = elim (Bool-cases (test x)) [
  | inl e ↦ rw (e, matching-append test xs ys) refl
  | inr e ↦ rw (e, matching-append test xs ys) refl
]

-- Each call of the collection on the rows that it holds; a created row has the ID that is returned.
pub record IsCollection {W R : Type 0} (c : Collection W R) (rows : W → List R)
    (with_id : String → R → R) : Type 0 where
  pub made : (w : W) → rows (c.new_collection w).1 ≡ rows w
  -- a query without a seek and a limit does not fail here
  pub found :
      (test : R → Bool) (w : W) → (c.find (where_ test) w).0 ≡ ok (some (matching test (rows w)))
  pub finding : (q : Option (Query R)) (w : W) → rows (c.find q w).1 ≡ rows w
  pub created :
      (row : R) (id : String) (w : W)
      → (c.create row w).0 ≡ ok id
      → rows (c.create row w).1 ≡ rows w ++ (with_id id row ∷ [])
  pub not_created :
      (row : R) (e : Err) (w : W) → (c.create row w).0 ≡ err e → rows (c.create row w).1 ≡ rows w

module _ {W R : Type 0} (rows : W → List R) where
  abbrev pub Same : W → W → Type 0
  Same s t = rows t ≡ rows s

  pub same : IsPreorder Same
  same = record { same = λ s. refl; trans = λ h k. k ∙ h }

module _ {W R : Type 0} (c : Collection W R) (rows : W → List R) (with_id : String → R → R)
    (laws : IsCollection c rows with_id) (meta_thread : Exec W (Unit {0}))
    (context : Follows (Same rows) meta_thread) where
  pub init_model-Same : Follows (Same rows) (init_model meta_thread c)
  unfolding init_model
  init_model-Same = Follows-bind (same rows) _ _ context (λ u.
      Follows-bind (same rows) _ _ (Follows-attempt (same rows) _ (record { at = laws.made }))
        (λ r. Follows-pure (same rows) tt))
