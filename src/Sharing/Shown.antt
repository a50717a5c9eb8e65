-- ===== src/Sharing/Shown.antt =====
-- The mailbox of core/textile/mailbox.go after an invitation was accepted.
use space_daemon.Exec.{pure, raise, ◌>>=◌}
use space_daemon.Exec.Returns.{bind-through}
use space_daemon.Model.{FullPath, init_model}
use space_daemon.Model.ReceivedFiles.{
  ReceivedFileSchema, any_invitation, at_path, find_received_files_by_ids,
}
use space_daemon.Model.Rows.{matching, matching-append}
use space_daemon.Model.Unique.{init_ready}
use space_daemon.Outcome.{ok}
use space_daemon.Prelude.{
  ℕ, String, true, ◌==◌, List, [], ◌∷◌, ◌++◌, length, none, str_eq, eq_refl, ◌≡◌, refl, ap, sym,
  subst, ◌∙◌, Bool-cases, inl, inr,
}
use space_daemon.Prelude.Map.{insert, lookup, lookup-insert}
use space_daemon.Sharing.{
  Invitation, InvitationStatus, Textile, accept_at, accept_shared_files_invitation, accepted,
  create_each, create_received_files, pending,
}
use space_daemon.Sharing.Mail.{
  Mailbox, Message, Notification, RelatedObject, bare_notification, by_invitation, invitation_type,
  parse_each, parse_message, parse_one, status_of_row,
}
use space_daemon.Sharing.Received.{AllAccepted, IsReceivedStore, init-Same}
use space_daemon.Sharing.Status.{
  HasAccepted, create_each-HasAccepted, lookup-by_invitation, of_invitation,
  of_invitation-AllAccepted,
}

-- the invitation as it is shown as long as it was not answered
abbrev pub unanswered : Message → Invitation → Invitation
unanswered msg i = record i { status = pending; invitation_id = msg.id }

-- The mailbox opens the message, and it has the invitation.
pub record Has {W Ctx Pk : Type 0} (B : Mailbox W Ctx Pk) (msg : Message) (i : Invitation)
    : Type 0 where
  pub plain : List ℕ
  pub body : List ℕ
  pub opened : (w : W) → (B.open_message msg w).0 ≡ ok plain
  pub typed : B.unmarshal_body plain ≡ ok (record { type = invitation_type; body = body })
  pub parsed : B.unmarshal_invitation body ≡ ok i

-- the notification of an invitation
abbrev pub shown : Message → List ℕ → Invitation → InvitationStatus → Notification
shown msg p i status =
    let value : Invitation = record i { status = status; invitation_id = msg.id } in
    record (bare_notification msg p invitation_type) {
      invitation_value = value;
      related_object = RelatedObject.of_invitation value;
    }

-- One accepted row, and others behind it, show the invitation as accepted.
status-AllAccepted :
    (id : String) (row : ReceivedFileSchema) (more : List ReceivedFileSchema)
    → AllAccepted id (row ∷ more)
    → status_of_row (lookup id (by_invitation (row ∷ more) [])) ≡ accepted
unfolding by_invitation
status-AllAccepted id row more h =
    let named : str_eq row.invitation_id id ≡ true = rw h.0 (eq_refl id) in
    lookup-by_invitation id more (insert row.invitation_id row []) h.2
      (rw (lookup-insert row.invitation_id id row [], named, h.1) refl)

module _ {W Ctx Pk : Type 0} (T : Textile W Ctx Pk) (rows : W → List ReceivedFileSchema)
    (store : IsReceivedStore T rows) where
  create_received_files-HasAccepted :
      (inv : Invitation) (p : FullPath) (ps : List FullPath) (w : W)
      → inv.item_paths ≡ p ∷ ps
      → matching (at_path p.db_id p.bucket p.path) (rows w) ≡ []
      → (create_received_files T inv true w).0 ≡ ok tt
      → HasAccepted T rows store inv (rows w) (rows (create_received_files T inv true w).1)
  unfolding create_received_files raise
  create_received_files-HasAccepted inv p ps w paths free h =
      let each =
        subst
          (λ l.
            (create_each T true inv none l inv.keys w).0 ≡ ok tt
            → HasAccepted T rows store inv (rows w)
                (rows (create_each T true inv none l inv.keys w).1))
          (sym paths) (create_each-HasAccepted T rows store inv p ps inv.keys w free) in
      elim (Bool-cases (length inv.item_paths == length inv.keys)) [
        | inl same ↦ rw same (each (rw same at h))
        | inr other ↦ absurd (cc (rw other at h))
      ]

  accept-HasAccepted :
      (inv : Invitation) (p : FullPath) (ps : List FullPath) (w : W) (inv' : Invitation)
      → inv.item_paths ≡ p ∷ ps
      → matching (at_path p.db_id p.bucket p.path) (rows w) ≡ []
      → (accept_at T pending inv w).0 ≡ ok inv'
      → HasAccepted T rows store inv (rows w) (rows (accept_at T pending inv w).1)
  unfolding pure
  accept-HasAccepted inv p ps w inv' paths free h =
      let (u, stored, h1, s1) = bind-through _ _ w inv' h in
      subst (λ s. HasAccepted T rows store inv (rows w) (rows s)) (sym s1)
        (create_received_files-HasAccepted inv p ps w paths free stored)

  found_rows :
      (id : String) (w : W)
      → (find_received_files_by_ids T.meta_thread T.now T.received (id ∷ []) w).0
        ≡ ok (of_invitation id (rows w))
  unfolding find_received_files_by_ids ◌>>=◌
  found_rows id w =
      let at_init = init-Same T rows store in
      let ready =
        init_ready T.meta_thread T.now T.received rows store.laws store.ready store.context
          store.clock w in
      rw
        (
          ready,
          store.laws.found (any_invitation (id ∷ [])) (init_model T.meta_thread T.received w).1,
          at_init.at w,
        )
        refl

  parse_message-Has :
      (B : Mailbox W Ctx Pk) (msg : Message) (i : Invitation) (w : W) (has : Has B msg i)
      → (parse_message T B (msg ∷ []) w).0
        ≡ ok (
            shown msg has.plain i
              (status_of_row (lookup msg.id (by_invitation (of_invitation msg.id (rows w)) [])))
            ∷ [])
  unfolding parse_message parse_each parse_one ◌>>=◌
  parse_message-Has B msg i w has =
      let s = (find_received_files_by_ids T.meta_thread T.now T.received (msg.id ∷ []) w).1 in
      rw (found_rows msg.id w, has.opened s, has.typed, has.parsed) refl

  -- Where accepting an invitation that was not answered before returns, and its first file was not
  -- received before, the mailbox shows the message of the invitation as accepted then: with
  -- a database that answers queries by the rows that match, and a message that is opened and parsed.
  pub parse_message-accept_shared_files_invitation :
      (B : Mailbox W Ctx Pk) (msg : Message) (i : Invitation) (p : FullPath) (ps : List FullPath)
      (w : W) (inv' : Invitation) (has : Has B msg i)
      → i.item_paths ≡ p ∷ ps
      → matching (at_path p.db_id p.bucket p.path) (rows w) ≡ []
      → of_invitation msg.id (rows w) ≡ []
      → (accept_shared_files_invitation T (unanswered msg i) w).0 ≡ ok inv'
      → (parse_message T B (msg ∷ []) (accept_shared_files_invitation T (unanswered msg i) w).1).0
        ≡ ok (shown msg has.plain i accepted ∷ [])
  unfolding accept_shared_files_invitation
  parse_message-accept_shared_files_invitation B msg i p ps w inv' has paths free fresh h =
      let inv = unanswered msg i in
      let w' = (accept_shared_files_invitation T inv w).1 in
      let got = accept-HasAccepted inv p ps w inv' paths free h in
      let news = got.first ∷ got.more in
      let found : of_invitation msg.id (rows w') ≡ news =
        ap (of_invitation msg.id) got.added
        ∙ matching-append (any_invitation (msg.id ∷ [])) (rows w) news
        ∙ ap (λ l. l ++ of_invitation msg.id news) fresh
        ∙ of_invitation-AllAccepted msg.id news got.all_accepted in
      parse_message-Has B msg i w' has
      ∙ ap (λ st. ok (shown msg has.plain i st ∷ []))
          (ap (λ l. status_of_row (lookup msg.id (by_invitation l []))) found
            ∙ status-AllAccepted msg.id got.first got.more got.all_accepted)
