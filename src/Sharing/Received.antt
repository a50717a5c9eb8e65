-- ===== src/Sharing/Received.antt =====
-- Which rows accepting an invitation adds to the received files of core/textile/model.
use space_daemon.Exec.{Exec, modify, ◌>>=◌}
use space_daemon.Exec.Follows.{
  Follows, IsPreorder, Follows-pure, Follows-raise, Follows-lift, Follows-attempt, Follows-bind,
}
use space_daemon.Model.{FullPath, first_row, init_model}
use space_daemon.Model.ReceivedFiles.{
  ReceivedFileSchema, at_path, create_received_file, create_received_file_via_invitation,
  err_received_file_not_found, existing_or, find_received_file, invited,
}
use space_daemon.Model.Rows.{IsCollection, Same, init_model-Same, matching}
use space_daemon.Model.Unique.{find_received_file-found, find_received_file-rows, with_id}
use space_daemon.Outcome.{Err, Result, ok, err}
use space_daemon.Prelude.{
  ℕ, String, true, List, [], ◌∷◌, ◌++◌, Option, some, none, ◌≡◌, refl, ap, sym, ◌∙◌, inl, inr, ◌⊎◌,
}
use space_daemon.Sharing.{
  Invitation, Textile, all_err, announce_received, create_each, create_one, finished, other_keys,
}
use mathlib.Core.List.{append_assoc, append-nil}

pub Result-cases : {A : Type 0} (r : Result A) → ((a : A) × (r ≡ ok a)) ⊎ ((e : Err) × (r ≡ err e))
Result-cases (ok a) = inl (a, refl)
Result-cases (err e) = inr (e, refl)

-- rows of the invitation that are accepted
abbrev pub AllAccepted : String → List ReceivedFileSchema → Type 0
AllAccepted id [] = Unit {0}
AllAccepted id (row ∷ rows) = (row.invitation_id ≡ id) × (row.accepted ≡ true) × AllAccepted id rows

AllAccepted-append :
    (id : String) (xs ys : List ReceivedFileSchema)
    → AllAccepted id xs
    → AllAccepted id ys
    → AllAccepted id (xs ++ ys)
AllAccepted-append id [] ys h k = k
AllAccepted-append id (x ∷ xs) ys h k = (h.0, h.1, AllAccepted-append id xs ys h.2 k)

-- the second state has the rows of the first, and behind them accepted rows of the invitation
pub record Adds {W : Type 0} (rows : W → List ReceivedFileSchema) (id : String) (s t : W)
    : Type 0 where
  pub more : List ReceivedFileSchema
  pub added : rows t ≡ rows s ++ more
  pub all_accepted : AllAccepted id more

module _ {W : Type 0} (rows : W → List ReceivedFileSchema) (id : String) where
  Adds-same : {s t : W} → Same rows s t → Adds rows id s t
  Adds-same {s} h = record { more = []; added = h ∙ sym (append-nil (rows s)); all_accepted = tt }

  adds : IsPreorder (Adds rows id)
  adds = record {
    same = λ s. Adds-same refl;
    trans = λ {s} {t} {u} h k. record {
      more = h.more ++ k.more;
      added = k.added ∙ ap (λ r. r ++ k.more) h.added ∙ append_assoc (rows s) h.more k.more;
      all_accepted = AllAccepted-append id h.more k.more h.all_accepted k.all_accepted;
    };
  }

  Follows-same : {A : Type 0} (m : Exec W A) → Follows (Same rows) m → Follows (Adds rows id) m
  Follows-same m h = record { at = λ s. Adds-same (h.at s) }

-- What is relied on of the database, the clock and the synchronizer: the rows of the received files
-- are those that the collection's calls leave, and the thread of the metadata is there.
pub record IsReceivedStore {W Ctx Pk : Type 0} (T : Textile W Ctx Pk)
    (rows : W → List ReceivedFileSchema) : Type 0 where
  pub laws : IsCollection T.received rows with_id
  pub ready : (w : W) → (T.meta_thread w).0 ≡ ok tt
  pub context : Follows (Same rows) T.meta_thread
  pub clock : Follows (Same rows) T.now
  pub told : (b p d : String) (w : W) → rows (T.notify_index_item_added b p d w) ≡ rows w

module _ {W Ctx Pk : Type 0} (T : Textile W Ctx Pk) (rows : W → List ReceivedFileSchema)
    (store : IsReceivedStore T rows) where
  pub found_at :
      (p : FullPath) (w : W)
      → (find_received_file T.meta_thread T.now T.received p.db_id p.bucket p.path w).0
        ≡ first_row err_received_file_not_found
            (some (matching (at_path p.db_id p.bucket p.path) (rows w)))
  found_at p w =
      find_received_file-found T.meta_thread T.now T.received rows store.laws store.ready
        store.context store.clock p.db_id p.bucket p.path w

  pub rows_found :
      (p : FullPath) (w : W)
      → rows (find_received_file T.meta_thread T.now T.received p.db_id p.bucket p.path w).1
        ≡ rows w
  rows_found p w =
      find_received_file-rows T.meta_thread T.now T.received rows store.laws store.ready
        store.context store.clock p.db_id p.bucket p.path w

  pub init-Same : Follows (Same rows) (init_model T.meta_thread T.received)
  init-Same = init_model-Same T.received rows with_id store.laws T.meta_thread store.context

  module _ (id : String) where
    create-Adds :
        (row : ReceivedFileSchema)
        → row.invitation_id ≡ id
        → row.accepted ≡ true
        → Follows (Adds rows id) (T.received.create row)
    create-Adds row named good = record {
      at = λ s. elim (Result-cases (T.received.create row s).0) [
        | inl (new_id, e) ↦ record {
          more = with_id new_id row ∷ [];
          added = store.laws.created row new_id s e;
          all_accepted = (named, good, tt);
        }
        | inr (f, e) ↦ Adds-same rows id (store.laws.not_created row f s e)
      ];
    }

    create_received_file-Adds :
        (row : ReceivedFileSchema)
        → row.invitation_id ≡ id
        → row.accepted ≡ true
        → Follows (Adds rows id) (create_received_file T.meta_thread T.now T.received row)
    unfolding create_received_file
    create_received_file-Adds row named good =
        Follows-bind (adds rows id) _ _ (Follows-same rows id _ init-Same) (λ u.
          Follows-bind (adds rows id) _ _ (create-Adds row named good)
            (λ n. Follows-pure (adds rows id) _))

  module _ (inv : Invitation) where
    abbrev Keeps : W → W → Type 0
    Keeps = Adds rows inv.invitation_id

    keeps : IsPreorder Keeps
    keeps = adds rows inv.invitation_id

    existing_or-Adds :
        (p : FullPath) (key : List ℕ) (r : Result ReceivedFileSchema)
        → Follows Keeps (
            existing_or T.meta_thread T.now T.received
              (T.now >>= λ t. create_received_file T.meta_thread T.now T.received (
                invited T.meta_thread T.now T.received p inv.invitation_id true key
                  inv.inviter_public_key t))
              r)
    existing_or-Adds p key (ok row) = Follows-pure keeps row
    existing_or-Adds p key (err e) =
        Follows-bind keeps _ _ (Follows-same rows inv.invitation_id _ store.clock)
          (λ t. create_received_file-Adds inv.invitation_id _ refl refl)

    create_one-Adds : (p : FullPath) (key : List ℕ) → Follows Keeps (create_one T true inv p key)
    unfolding create_one create_received_file_via_invitation
    create_one-Adds p key = Follows-attempt keeps _ (
        Follows-bind keeps _ _
          (Follows-attempt keeps _
            (Follows-same rows inv.invitation_id _ (record { at = rows_found p })))
          (existing_or-Adds p key))

    told-Adds :
        (r : Result ReceivedFileSchema) → Follows Keeps (modify (announce_received T true r))
    unfolding modify
    told-Adds (ok r) = record {
      at = λ s. Adds-same rows inv.invitation_id (store.told r.bucket r.path r.db_id s);
    }
    told-Adds (err e) = record { at = λ s. Adds-same rows inv.invitation_id refl }

    finished-Adds : (failed : Option Err) → Follows Keeps (finished failed)
    finished-Adds none = Follows-pure keeps tt
    finished-Adds (some e) = Follows-raise keeps e

    -- Whatever fails on the way, only accepted rows of the invitation are added.
    pub create_each-Adds :
        (failed : Option Err) (paths : List FullPath) (keys : List (List ℕ))
        → Follows Keeps (create_each T true inv failed paths keys)
    unfolding create_each
    create_each-Adds failed [] keys = finished-Adds failed
    create_each-Adds failed (p ∷ paths) keys = Follows-bind keeps _ _ (Follows-lift keeps _) (λ key.
        Follows-bind keeps _ _ (create_one-Adds p key) (λ r.
          Follows-bind keeps _ _ (told-Adds r)
            (λ u. create_each-Adds (all_err failed r) paths (other_keys keys))))
