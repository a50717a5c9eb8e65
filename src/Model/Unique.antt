-- ===== src/Model/Unique.antt =====
-- That the received files of core/textile/model keep their place: no two rows with the same database,
-- bucket and path.
use space_daemon.Exec.{Exec, pure, ◌>>=◌}
use space_daemon.Exec.Follows.{Follows}
use space_daemon.Exec.Returns.{bind-leaves}
use space_daemon.Model.{Collection, FullPath, first_row, init_model, where_}
use space_daemon.Model.ReceivedFiles.{
  ReceivedFileSchema, at_path, create_received_file, create_received_file_via_invitation,
  err_received_file_not_found, existing_or, find_received_file, invited,
}
use space_daemon.Model.Rows.{IsCollection, Same, init_model-Same, matching, matching-append}
use space_daemon.Outcome.{Err, Result, ok, err}
use space_daemon.Prelude.{
  ℕ, String, Bool, true, false, ◌&&◌, List, [], ◌∷◌, ◌++◌, some, ◌≡◌, ◌≤◌, refl, ap, sym, ◌∙◌,
  Bool-cases, inl, inr, eq_iff, arith,
}
use space_daemon.Prelude.Lists.{length, length-append}

abbrev pub with_id : String → ReceivedFileSchema → ReceivedFileSchema
with_id id row = record row { id = id }

-- at most one row for each database, bucket and path
pub record IsUnique (rows : List ReceivedFileSchema) : Type 0 where
  pub at : (d b p : String) → length (matching (at_path d b p) rows) ≤ 1

and_true : (a b : Bool) → (a && b) ≡ true → (a ≡ true) × (b ≡ true)
and_true true b h = (refl, h)
and_true false b h = absurd (cc h)

-- A row at a place is found there only.
same_place :
    (row : ReceivedFileSchema) (d b p : String)
    → at_path d b p row ≡ true
    → at_path d b p ≡ at_path row.db_id row.bucket row.path
same_place row d b p h =
    let (first, others) = and_true _ _ h in
    let (second, third) = and_true _ _ others in
    rw
      (
        sym ((eq_iff row.db_id d).0 first),
        sym ((eq_iff row.bucket b).0 second),
        sym ((eq_iff row.path p).0 third),
      )
      refl

matching-last :
    {R : Type 0} (test : R → Bool) (row : R)
    → (length (matching test (row ∷ [])) ≤ 1) × (test row ≡ false → matching test (row ∷ []) ≡ [])
unfolding matching
matching-last test row = elim (Bool-cases (test row)) [
  | inl e ↦ rw e (omega arith, λ h. absurd (cc h))
  | inr e ↦ rw e (omega arith, λ h. refl)
]

-- A row may be added at a place where there is none.
IsUnique-add :
    (rows : List ReceivedFileSchema) (row : ReceivedFileSchema)
    → IsUnique rows
    → matching (at_path row.db_id row.bucket row.path) rows ≡ []
    → IsUnique (rows ++ row ∷ [])
IsUnique-add rows row unique free = record {
  at = λ d b p.
      let split = matching-append (at_path d b p) rows (row ∷ []) in
      let (short, other) = matching-last (at_path d b p) row in
      elim (Bool-cases (at_path d b p row)) [
        | inl e ↦
            let none_there : matching (at_path d b p) rows ≡ [] =
              ap (λ test. matching test rows) (same_place row d b p e) ∙ free in
            rw (split, none_there) short
        | inr e ↦
            rw (split, other e, length-append (matching (at_path d b p) rows) [])
              (omega (arith, unique.at d b p))
      ];
}

module _ {W : Type 0} (meta_thread : Exec W (Unit {0})) (now : Exec W ℕ)
    (files : Collection W ReceivedFileSchema) (rows : W → List ReceivedFileSchema)
    (laws : IsCollection files rows with_id) (ready : (w : W) → (meta_thread w).0 ≡ ok tt)
    (context : Follows (Same rows) meta_thread) (clock : Follows (Same rows) now) where
  abbrev Init : Exec W (Unit {0})
  Init = init_model meta_thread files

  init_rows : (w : W) → rows (Init w).1 ≡ rows w
  init_rows w = (init_model-Same files rows with_id laws meta_thread context).at w

  pub init_ready : (w : W) → (Init w).0 ≡ ok tt
  unfolding init_model ◌>>=◌
  init_ready w = rw (ready w) refl

  -- The lookup answers from the rows.
  pub find_received_file-found :
      (d b p : String) (w : W)
      → (find_received_file meta_thread now files d b p w).0
        ≡ first_row err_received_file_not_found (some (matching (at_path d b p) (rows w)))
  unfolding find_received_file ◌>>=◌
  find_received_file-found d b p w =
      rw (init_ready w, laws.found (at_path d b p) (Init w).1, init_rows w) refl

  pub find_received_file-rows :
      (d b p : String) (w : W) → rows (find_received_file meta_thread now files d b p w).1 ≡ rows w
  unfolding find_received_file ◌>>=◌
  find_received_file-rows d b p w =
      rw (init_ready w, laws.found (at_path d b p) (Init w).1)
        (laws.finding (where_ (at_path d b p)) (Init w).1 ∙ init_rows w)

  first_row-err :
      (xs : List ReceivedFileSchema) (e : Err)
      → first_row err_received_file_not_found (some xs) ≡ err e
      → xs ≡ []
  first_row-err [] e h = refl
  first_row-err (x ∷ xs) e h = absurd (cc h)

  create_received_file-IsUnique :
      (row : ReceivedFileSchema) (w : W)
      → IsUnique (rows w)
      → matching (at_path row.db_id row.bucket row.path) (rows w) ≡ []
      → IsUnique (rows (create_received_file meta_thread now files row w).1)
  unfolding create_received_file pure
  create_received_file-IsUnique row w unique free =
      bind-leaves (λ s. IsUnique (rows s)) _ _ w (λ e h. rw (init_rows w) unique)
        (λ u h.
          bind-leaves (λ s. IsUnique (rows s)) _ _ _
            (λ e k. rw (laws.not_created row e _ k, init_rows w) unique)
            (λ id k.
              rw (laws.created row id _ k, init_rows w)
                (IsUnique-add (rows w) (with_id id row) unique free)))

  -- What is done with the answer of the lookup, where an error of it means that there is no row.
  existing_or-IsUnique :
      (make : ℕ → ReceivedFileSchema) (d b p : String)
      → ((t : ℕ) → at_path (make t).db_id (make t).bucket (make t).path ≡ at_path d b p)
      → (r : Result ReceivedFileSchema) (w : W) → IsUnique (rows w)
      → ((e : Err) → r ≡ err e → matching (at_path d b p) (rows w) ≡ [])
      → IsUnique (
          rows
            (existing_or meta_thread now files
              (now >>= λ t. create_received_file meta_thread now files (make t))
              r
              w).1)
  unfolding ◌>>=◌
  existing_or-IsUnique make d b p there (ok row) w unique free = unique
  existing_or-IsUnique make d b p there (err e) w unique free =
      bind-leaves (λ s. IsUnique (rows s)) now
        (λ t. create_received_file meta_thread now files (make t)) w
        (λ e' h. rw (clock.at w) unique)
        (λ t h.
          create_received_file-IsUnique (make t) (now w).1 (rw (clock.at w) unique)
            (rw (there t, clock.at w) (free e refl)))

  -- Where the thread of the metadata is there and the database answers a query by the rows that
  -- match, storing a received file by its invitation keeps at most one row for each database, bucket
  -- and path, also where the database refuses the collection or the new row.
  pub create_received_file_via_invitation-IsUnique :
      (file : FullPath) (invitation : String) (accepted : Bool) (key : List ℕ) (inviter : String)
      (w : W)
      → IsUnique (rows w)
      → IsUnique (
          rows
            (create_received_file_via_invitation meta_thread now files file invitation accepted key
              inviter w).1)
  unfolding create_received_file_via_invitation ◌>>=◌
  create_received_file_via_invitation-IsUnique file invitation accepted key inviter w unique =
      let d = file.db_id in
      let found = find_received_file meta_thread now files d file.bucket file.path w in
      let same = find_received_file-rows d file.bucket file.path w in
      existing_or-IsUnique (invited meta_thread now files file invitation accepted key inviter) d
        file.bucket file.path (λ t. refl) found.0 found.1 (rw same unique)
        (λ e h.
          rw same
            (first_row-err _ e (sym (find_received_file-found d file.bucket file.path w) ∙ h)))
