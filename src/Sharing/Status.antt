-- ===== src/Sharing/Status.antt =====
-- That an invitation which was accepted, in core/textile/sharing.go, is shown as accepted by the
-- mailbox, in core/textile/mailbox.go.
use space_daemon.Exec.{attempt, lift, modify, pure, raise, ◌>>=◌}
use space_daemon.Exec.Returns.{bind-step, bind-through}
use space_daemon.Model.{FullPath, first_row}
use space_daemon.Model.ReceivedFiles.{
  ReceivedFileSchema, any_invitation, at_path, create_received_file,
  create_received_file_via_invitation, err_received_file_not_found, find_received_file, invited,
}
use space_daemon.Model.Rows.{matching}
use space_daemon.Model.Unique.{with_id}
use space_daemon.Outcome.{Err, Result, ok, err, ok-injective}
use space_daemon.Prelude.{
  ℕ, String, true, str_eq, eq_refl, List, [], ◌∷◌, ◌++◌, some, none, ◌≡◌, refl, ap, sym, subst, ◌∙◌,
}
use mathlib.Core.List.{append_assoc}
use space_daemon.Prelude.Map.{Map, insert, lookup, lookup-insert}
use space_daemon.Sharing.{
  Invitation, Textile, accepted, create_each, create_one, all_err, announce_received, other_keys,
}
use space_daemon.Sharing.Mail.{by_invitation, status_of_row}
use space_daemon.Sharing.Received.{
  AllAccepted, IsReceivedStore, create_each-Adds, found_at, init-Same, rows_found,
}

-- the rows of an invitation
abbrev pub of_invitation : String → List ReceivedFileSchema → List ReceivedFileSchema
of_invitation id rows = matching (any_invitation (id ∷ [])) rows

-- Accepted rows of an invitation are all found by its ID.
pub of_invitation-AllAccepted :
    (id : String) (rows : List ReceivedFileSchema)
    → AllAccepted id rows
    → of_invitation id rows ≡ rows
unfolding matching any_invitation
of_invitation-AllAccepted id [] h = refl
of_invitation-AllAccepted id (row ∷ rows) h =
    let named : str_eq row.invitation_id id ≡ true = rw h.0 (eq_refl id) in
    rw (named, of_invitation-AllAccepted id rows h.2) refl

-- The map has the last of them.
pub lookup-by_invitation :
    (id : String) (rows : List ReceivedFileSchema) (m : Map ReceivedFileSchema)
    → AllAccepted id rows
    → status_of_row (lookup id m) ≡ accepted
    → status_of_row (lookup id (by_invitation rows m)) ≡ accepted
unfolding by_invitation
lookup-by_invitation id [] m h k = k
lookup-by_invitation id (row ∷ rows) m h k =
    let named : str_eq row.invitation_id id ≡ true = rw h.0 (eq_refl id) in
    lookup-by_invitation id rows (insert row.invitation_id row m) h.2
      (rw (lookup-insert row.invitation_id id row m, named, h.1) refl)

module _ {W Ctx Pk : Type 0} (T : Textile W Ctx Pk) (rows : W → List ReceivedFileSchema)
    (store : IsReceivedStore T rows) (inv : Invitation) where
  -- the rows that accepting the invitation has added
  pub record HasAccepted (before after : List ReceivedFileSchema) : Type 0 where
    pub first : ReceivedFileSchema
    pub more : List ReceivedFileSchema
    pub added : after ≡ before ++ first ∷ more
    pub all_accepted : AllAccepted inv.invitation_id (first ∷ more)

  make : FullPath → List ℕ → ℕ → ReceivedFileSchema
  make p key t =
      invited T.meta_thread T.now T.received p inv.invitation_id true key inv.inviter_public_key t

  -- at a place without a row the lookup fails, and the file is created
  via_create :
      (p : FullPath) (key : List ℕ) (w : W)
      → matching (at_path p.db_id p.bucket p.path) (rows w) ≡ []
      → create_one T true inv p key w
        ≡ attempt
            (T.now >>= λ t. create_received_file T.meta_thread T.now T.received (make p key t))
            (find_received_file T.meta_thread T.now T.received p.db_id p.bucket p.path w).1
  unfolding create_one create_received_file_via_invitation ◌>>=◌ make
  via_create p key w free =
      let missing =
        found_at T rows store p w ∙ ap (λ r. first_row err_received_file_not_found (some r)) free in
      rw missing refl

  create_one-free :
      (p : FullPath) (key : List ℕ) (w : W) (row : ReceivedFileSchema)
      → matching (at_path p.db_id p.bucket p.path) (rows w) ≡ []
      → (create_one T true inv p key w).0 ≡ ok (ok row)
      → (x : ReceivedFileSchema) × (rows (create_one T true inv p key w).1 ≡ rows w ++ x ∷ [])
        × AllAccepted inv.invitation_id (x ∷ [])
  unfolding attempt create_received_file make pure
  create_one-free p key w row free returned =
      let via = via_create p key w free in
      let s = (find_received_file T.meta_thread T.now T.received p.db_id p.bucket p.path w).1 in
      let done = ok-injective (ap (λ r. r.0) (sym via) ∙ returned) in
      let (t, timed, h1, s1) =
        bind-through T.now (λ t. create_received_file T.meta_thread T.now T.received (make p key t))
          s row done in
      let (u, made, h2, s2) = bind-through _ _ _ _ h1 in
      let (id, created, h3, s3) = bind-through _ _ _ _ h2 in
      let clock = store.clock.at s in
      let init = (init-Same T rows store).at (T.now s).1 in
      (
        with_id id (make p key t),
        ap (λ r. rows r.1) via
            ∙ ap rows (s1 ∙ s2 ∙ s3)
            ∙ store.laws.created (make p key t) id _ created
            ∙ ap (λ r. r ++ with_id id (make p key t) ∷ [])
                (init ∙ clock ∙ rows_found T rows store p w),
        (refl, refl, tt),
      )

  still_failed :
      (e : Err) (r : Result ReceivedFileSchema) → (f : Err) × (all_err (some e) r ≡ some f)
  still_failed e (ok row) = (e, refl)
  still_failed e (err f) = (f, refl)

  -- after a file that could not be stored, the whole call fails
  create_each-failed :
      (e : Err) (paths : List FullPath) (keys : List (List ℕ)) (w : W) (u : Unit {0})
      → (create_each T true inv (some e) paths keys w).0 ≡ ok u
      → ⊥
  unfolding create_each raise modify lift
  create_each-failed e [] keys w u h = cc h
  create_each-failed e (p ∷ ps) keys w u h =
      let (key, read, h1) = bind-step _ _ w u h in
      let (r, made, h2) = bind-step _ _ _ u h1 in
      let (v, told, h3) = bind-step _ _ _ u h2 in
      let (f, fails) = still_failed e r in
      let s = announce_received T true r (create_one T true inv p key w).1 in
      create_each-failed f ps (other_keys keys) s u
        (subst (λ o. (create_each T true inv o ps (other_keys keys) s).0 ≡ ok u) fails h3)

  rest-HasAccepted :
      (p : FullPath) (ps : List FullPath) (key : List ℕ) (keys : List (List ℕ)) (w : W)
      (r : Result ReceivedFileSchema)
      → matching (at_path p.db_id p.bucket p.path) (rows w) ≡ []
      → (create_one T true inv p key w).0 ≡ ok r
      → (create_each T true inv
          (all_err none r)
          ps
          keys
          (announce_received T true r (create_one T true inv p key w).1)).0
        ≡ ok tt
      → HasAccepted (rows w) (
          rows
            (create_each T true inv
              (all_err none r)
              ps
              keys
              (announce_received T true r (create_one T true inv p key w).1)).1)
  rest-HasAccepted p ps key keys w (err e) free made h =
      absurd (create_each-failed e ps keys _ tt h)
  rest-HasAccepted p ps key keys w (ok row) free made h =
      let (x, one, good) = create_one-free p key w row free made in
      let s = (create_one T true inv p key w).1 in
      let t = T.notify_index_item_added row.bucket row.path row.db_id s in
      let others = (create_each-Adds T rows store inv none ps keys).at t in
      record {
        first = x;
        more = others.more;
        added =
            others.added
            ∙ ap (λ l. l ++ others.more) (store.told row.bucket row.path row.db_id s ∙ one)
            ∙ append_assoc (rows w) (x ∷ []) others.more;
        all_accepted = (good.0, good.1, others.all_accepted);
      }

  pub create_each-HasAccepted :
      (p : FullPath) (ps : List FullPath) (keys : List (List ℕ)) (w : W)
      → matching (at_path p.db_id p.bucket p.path) (rows w) ≡ []
      → (create_each T true inv none (p ∷ ps) keys w).0 ≡ ok tt
      → HasAccepted (rows w) (rows (create_each T true inv none (p ∷ ps) keys w).1)
  unfolding create_each modify lift
  create_each-HasAccepted p ps keys w free h =
      let (key, read, h1, s1) = bind-through _ _ w tt h in
      let (r, made, h2, s2) = bind-through _ _ _ tt h1 in
      let (v, told, h3, s3) = bind-through _ _ _ tt h2 in
      subst (λ s. HasAccepted (rows w) (rows s)) (sym (s1 ∙ s2 ∙ s3))
        (rest-HasAccepted p ps key (other_keys keys) w r free made h3)
