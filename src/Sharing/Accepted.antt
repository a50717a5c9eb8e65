-- ===== src/Sharing/Accepted.antt =====
-- What accepting an invitation, in core/textile/sharing.go, leaves where files were received before.
use space_daemon.Exec.{◌>>=◌}
use space_daemon.Model.{FullPath, first_row}
use space_daemon.Model.ReceivedFiles.{
  ReceivedFileSchema, at_path, create_received_file_via_invitation, err_received_file_not_found,
}
use space_daemon.Model.Rows.{matching}
use space_daemon.Outcome.{ok}
use space_daemon.Prelude.{
  ℕ, true, ◌==◌, ==_iff, List, [], ◌∷◌, length, some, none, ◌≡◌, refl, ap, sym, subst, ◌∙◌, arith,
}
use space_daemon.Sharing.{
  Invitation, Textile, accept_at, accept_shared_files_invitation, accepted, create_each, create_one,
  create_received_files, pending,
}
use space_daemon.Sharing.Received.{IsReceivedStore, found_at, rows_found}

-- a row is at the place of the file
pub record IsReceived (rows : List ReceivedFileSchema) (p : FullPath) : Type 0 where
  pub row : ReceivedFileSchema
  pub others : List ReceivedFileSchema
  pub at : matching (at_path p.db_id p.bucket p.path) rows ≡ row ∷ others

abbrev pub AllReceived : List ReceivedFileSchema → List FullPath → Type 0
AllReceived rows [] = Unit {0}
AllReceived rows (p ∷ ps) = IsReceived rows p × AllReceived rows ps

module _ {W Ctx Pk : Type 0} (T : Textile W Ctx Pk) (rows : W → List ReceivedFileSchema)
    (store : IsReceivedStore T rows) where
  create_one-received :
      (inv : Invitation) (p : FullPath) (key : List ℕ) (w : W) (there : IsReceived (rows w) p)
      → ((create_one T true inv p key w).0 ≡ ok (ok there.row))
        × (rows (create_one T true inv p key w).1 ≡ rows w)
  unfolding create_one create_received_file_via_invitation ◌>>=◌
  create_one-received inv p key w there =
      let found =
        found_at T rows store p w
        ∙ ap (λ r. first_row err_received_file_not_found (some r)) there.at in
      rw found (refl, rows_found T rows store p w)

  create_each-received :
      (inv : Invitation) (paths : List FullPath) (keys : List (List ℕ)) (w : W)
      → length paths ≡ length keys
      → AllReceived (rows w) paths
      → ((create_each T true inv none paths keys w).0 ≡ ok tt)
        × (rows (create_each T true inv none paths keys w).1 ≡ rows w)
  unfolding create_each ◌>>=◌
  create_each-received inv [] keys w len there = (refl, refl)
  create_each-received inv (p ∷ ps) [] w len there = absurd (omega arith)
  create_each-received inv (p ∷ ps) (k ∷ ks) w len there =
      let (returned, kept) = create_one-received inv p k w there.0 in
      let after =
        T.notify_index_item_added there.0.row.bucket there.0.row.path there.0.row.db_id
          (create_one T true inv p k w).1 in
      let same : rows after ≡ rows w =
        store.told there.0.row.bucket there.0.row.path there.0.row.db_id
          (create_one T true inv p k w).1
        ∙ kept in
      let (done, left) =
        create_each-received inv ps ks after (omega arith)
          (subst (λ r. AllReceived r ps) (sym same) there.1) in
      rw returned (done, left ∙ same)

  create_received_files-received :
      (inv : Invitation) (w : W)
      → length inv.item_paths ≡ length inv.keys
      → AllReceived (rows w) inv.item_paths
      → ((create_received_files T inv true w).0 ≡ ok tt)
        × (rows (create_received_files T inv true w).1 ≡ rows w)
  unfolding create_received_files
  create_received_files-received inv w len there =
      let test : (length inv.item_paths == length inv.keys) ≡ true = (==_iff _ _).1 len in
      rw test (create_each-received inv inv.item_paths inv.keys w len there)

  -- Accepting an invitation whose files have all been received before, whether they were accepted or
  -- rejected, returns it as accepted, with the rows as they were: a file that was rejected stays
  -- rejected and has no key.
  pub accept_shared_files_invitation-AllReceived :
      (inv : Invitation) (w : W)
      → inv.status ≡ pending
      → length inv.item_paths ≡ length inv.keys
      → AllReceived (rows w) inv.item_paths
      → ((accept_shared_files_invitation T inv w).0 ≡ ok (record inv { status = accepted }))
        × (rows (accept_shared_files_invitation T inv w).1 ≡ rows w)
  unfolding accept_shared_files_invitation ◌>>=◌
  accept_shared_files_invitation-AllReceived inv w asked len there =
      let (done, left) = create_received_files-received inv w len there in
      subst
        (λ st.
          ((accept_at T st inv w).0 ≡ ok (record inv { status = accepted }))
          × (rows (accept_at T st inv w).1 ≡ rows w))
        (sym asked) (rw done (refl, left))
