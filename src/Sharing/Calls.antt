-- ===== src/Sharing/Calls.antt =====
-- That sharing files, in core/space/services/services_sharing.go, does not end in a run-time panic, though
-- it reads the keys by the indices of the paths.
use space_daemon.Exec.{Exec, lift, ◌>>=◌}
use space_daemon.Exec.NoPanic.{
  NoPanic, NoPanic-pure, NoPanic-lift, NoPanic-attempt, NoPanic-bind, if-NoPanic,
}
use space_daemon.Model.{Collection, FullPath, Query, first_row, init_model}
use space_daemon.Model.Buckets.{find_bucket}
use space_daemon.Model.ReceivedFiles.{ReceivedFileSchema, find_received_file}
use space_daemon.Model.SentFiles.{SentFileSchema, create_sent_file, sent_or}
use space_daemon.Outcome.{Result, ok, err, new, panic}
use space_daemon.Prelude.{
  ℕ, String, List, [], ◌∷◌, length, Option, some, none, ◌≡◌, ◌≢◌, sym, ◌∙◌, arith, ◌||◌, str_eq,
  Bool-cases, inl, inr,
}
use space_daemon.Sharing.{Invitation, Role, manage_share_files_via_public_key, share_each}
use space_daemon.Sharing.Invites.{
  Space, both_keys, default_schema, send_body, invite_each, resolve_bucket, resolve_db,
  resolve_full_paths, resolve_path, share_files_via_public_key, store_sent, wait_for_textile_hub,
  waited,
}
use space_daemon.Sharing.Mail.{MessageBody, NotificationTypes, send_message}
use space_daemon.Sharing.Resolved.{length-resolve_full_paths}
use space_daemon.Sync.Deps.{BucketSchema}

-- None of the calls that are given as parameters ends in a panic.
pub record CallsReturn {W Ctx Pk Key : Type 0} (S : Space W Ctx Pk Key) : Type 0 where
  pub healthy : NoPanic (S.wait_for_healthy >>= λ r. lift (waited r))
  pub meta_thread : NoPanic S.tc.meta_thread
  pub default_bucket : NoPanic S.get_default_bucket
  pub buckets : (q : Option (Query BucketSchema)) → NoPanic (S.tc.buckets.find q)
  pub received : (q : Option (Query ReceivedFileSchema)) → NoPanic (S.tc.received.find q)
  pub created : (row : SentFileSchema) → NoPanic (S.tc.sent_files.create row)
  pub clock : NoPanic S.tc.now
  pub hub_ctx : NoPanic S.tc.get_hub_ctx
  pub bucket_ctx :
      (ctx : Ctx) (db slug : String) (key : List ℕ)
      → NoPanic (S.tc.get_bucket_context ctx db slug key)
  pub roles :
      (ctx : Ctx) (key path : String) (roles : List (String × Role))
      → NoPanic (S.tc.push_path_access_roles ctx key path roles)
  pub stored_key : NoPanic S.tc.get_stored_public_key
  pub raw : (pk : Pk) → S.tc.raw pk ≢ err panic
  pub invitation : (i : Invitation) → S.marshal_invitation i ≢ err panic
  pub body : (b : MessageBody) → S.marshal_body b ≢ err panic
  pub connection : NoPanic S.mail.requires_hub_connection
  pub message : (ctx : Ctx) (pk : Pk) (b : List ℕ) → NoPanic (S.mail.send_message ctx pk b)

first_row-ne :
    {R : Type 0} (text : String) (rows : Option (List R)) → first_row (new text) rows ≢ err panic
first_row-ne text none = λ h. cc h
first_row-ne text (some []) = λ h. cc h
first_row-ne text (some (row ∷ rows)) = λ h. cc h

module _ {W Ctx Pk Key : Type 0} (S : Space W Ctx Pk Key) (calls : CallsReturn S) where
  init-NoPanic : {R : Type 0} (c : Collection W R) → NoPanic (init_model S.tc.meta_thread c)
  unfolding init_model
  init-NoPanic c =
      NoPanic-bind _ _ calls.meta_thread
        (λ s u e. NoPanic-bind _ _ (NoPanic-attempt _) (λ s r e. NoPanic-pure tt))

  wait_for_textile_hub-NoPanic : NoPanic (wait_for_textile_hub S)
  unfolding wait_for_textile_hub
  wait_for_textile_hub-NoPanic = record {
    at = λ w. elim (Bool-cases (S.is_healthy w)) [
      | inl e ↦ λ h. cc (rw e at h)
      | inr e ↦ λ h. calls.healthy.at w (rw e at h)
    ];
  }

  default_schema-NoPanic : NoPanic (default_schema S)
  unfolding find_bucket
  default_schema-NoPanic = NoPanic-bind _ _ calls.default_bucket (λ s slug e.
      NoPanic-bind _ _ (init-NoPanic S.tc.buckets) (λ s u e.
        NoPanic-bind _ _ (calls.buckets _) (λ s rows e. NoPanic-lift _ (first_row-ne _ rows))))

  find_received_file-NoPanic :
      (d b p : String) → NoPanic (find_received_file S.tc.meta_thread S.tc.now S.tc.received d b p)
  unfolding find_received_file
  find_received_file-NoPanic d b p = NoPanic-bind _ _ (init-NoPanic S.tc.received) (λ s u e.
      NoPanic-bind _ _ (calls.received _) (λ s rows e. NoPanic-lift _ (first_row-ne _ rows)))

  resolve_db-NoPanic : (path : FullPath) → NoPanic (resolve_db S path)
  unfolding resolve_db
  resolve_db-NoPanic path =
      if-NoPanic (str_eq path.db_id "") _ _
        (NoPanic-bind _ _ default_schema-NoPanic (λ s bs e. NoPanic-pure _)) (NoPanic-pure _)

  resolve_bucket-NoPanic : (path ep : FullPath) → NoPanic (resolve_bucket S path ep)
  resolve_bucket-NoPanic path ep =
      if-NoPanic (str_eq ep.bucket "" || str_eq ep.bucket "personal") _ _
        (NoPanic-bind _ _ default_schema-NoPanic (λ s bs e. NoPanic-pure _))
        (NoPanic-bind _ _ (find_received_file-NoPanic _ _ _) (λ s r e. NoPanic-pure _))

  resolve_full_paths-NoPanic : (paths : List FullPath) → NoPanic (resolve_full_paths S paths)
  unfolding resolve_full_paths resolve_path
  resolve_full_paths-NoPanic [] = NoPanic-pure _
  resolve_full_paths-NoPanic (path ∷ paths) =
      NoPanic-bind _ _
        (NoPanic-bind _ _ (resolve_db-NoPanic path) (λ s ep e. resolve_bucket-NoPanic path ep))
        (λ s ep e. NoPanic-bind _ _ (resolve_full_paths-NoPanic paths) (λ s r e. NoPanic-pure _))

  create_sent-NoPanic :
      (row : SentFileSchema)
      → NoPanic (create_sent_file S.tc.meta_thread S.tc.now S.tc.sent_files row)
  unfolding create_sent_file
  create_sent-NoPanic row =
      NoPanic-bind _ _ (init-NoPanic S.tc.sent_files)
        (λ s u e. NoPanic-bind _ _ (calls.created row) (λ s id e. NoPanic-pure _))

  sent_or-NoPanic :
      (m : Exec W SentFileSchema) (r : Result SentFileSchema)
      → NoPanic m
      → NoPanic (sent_or S.tc.meta_thread S.tc.now S.tc.sent_files m r)
  sent_or-NoPanic m (ok row) h = NoPanic-pure row
  sent_or-NoPanic m (err e) h = h

  store_sent-NoPanic :
      (paths : List FullPath) (keys : List (List ℕ))
      → length paths ≡ length keys
      → NoPanic (store_sent S paths keys)
  unfolding store_sent
  store_sent-NoPanic [] keys len = NoPanic-pure tt
  store_sent-NoPanic (p ∷ ps) [] len = absurd (omega arith)
  store_sent-NoPanic (p ∷ ps) (k ∷ ks) len =
      NoPanic-bind _ _
        (NoPanic-bind _ _ (NoPanic-attempt _) (λ s r e.
          sent_or-NoPanic _ r (NoPanic-bind _ _ calls.clock (λ s t e. create_sent-NoPanic _))))
        (λ s row e. store_sent-NoPanic ps ks (omega arith))

  share_each-NoPanic :
      (ctx : Ctx) (role : Role) (pubkeys : List Pk) (paths : List FullPath) (keys : List (List ℕ))
      → length paths ≡ length keys
      → NoPanic (share_each S.tc ctx role pubkeys paths keys)
  unfolding share_each
  share_each-NoPanic ctx role pubkeys [] keys len = NoPanic-pure tt
  share_each-NoPanic ctx role pubkeys (p ∷ ps) [] len = absurd (omega arith)
  share_each-NoPanic ctx role pubkeys (p ∷ ps) (k ∷ ks) len =
      NoPanic-bind _ _ (calls.bucket_ctx ctx p.db_id p.bucket k) (λ s c e.
        NoPanic-bind _ _ (calls.roles c _ _ _)
          (λ s u e. share_each-NoPanic c role pubkeys ps ks (omega arith)))

  both_keys-NoPanic : (pk : Pk) → NoPanic (both_keys S pk)
  both_keys-NoPanic pk = NoPanic-bind _ _ calls.stored_key (λ s inviter e.
      NoPanic-bind _ _ (NoPanic-lift _ (calls.raw inviter))
        (λ s r e. NoPanic-bind _ _ (NoPanic-lift _ (calls.raw pk)) (λ s q e. NoPanic-pure _)))

  send_body-NoPanic :
      (pk : Pk) (type : NotificationTypes) (marshalled : Result (List ℕ))
      → marshalled ≢ err panic
      → NoPanic (send_body S pk type marshalled)
  unfolding send_message
  send_body-NoPanic pk type marshalled h = NoPanic-bind _ _ (NoPanic-lift _ h) (λ s i e.
      NoPanic-bind _ _ (NoPanic-lift _ (calls.body _)) (λ s j e.
        NoPanic-bind _ _
          (NoPanic-bind _ _ calls.connection
            (λ s u e. NoPanic-bind _ _ calls.hub_ctx (λ s ctx e. calls.message ctx pk j)))
          (λ s m e. NoPanic-pure tt)))

  invite_each-NoPanic :
      (pubkeys : List Pk) (paths : List FullPath) (keys : List (List ℕ))
      → NoPanic (invite_each S pubkeys paths keys)
  unfolding invite_each
  invite_each-NoPanic [] paths keys = NoPanic-pure tt
  invite_each-NoPanic (pk ∷ pks) paths keys = NoPanic-bind _ _ (both_keys-NoPanic pk) (λ s texts e.
      NoPanic-bind _ _ (send_body-NoPanic pk _ _ (calls.invitation _))
        (λ s u e. invite_each-NoPanic pks paths keys))

  -- Sharing files with public keys does not end in a panic, where no call that it is given as a
  -- parameter does, and whatever the paths and the keys are.
  pub share_files_via_public_key-NoPanic :
      (paths : List FullPath) (pubkeys : List Pk)
      → NoPanic (share_files_via_public_key S paths pubkeys)
  unfolding share_files_via_public_key manage_share_files_via_public_key
  share_files_via_public_key-NoPanic paths pubkeys =
      NoPanic-bind _ _ wait_for_textile_hub-NoPanic (λ s u e.
        NoPanic-bind (resolve_full_paths S paths) _ (resolve_full_paths-NoPanic paths) (λ s out e.
          let (m, n) = length-resolve_full_paths S paths s out e in
          let same = m ∙ sym n in
          NoPanic-bind _ _ (store_sent-NoPanic out.0 out.1 same) (λ s u e.
            NoPanic-bind _ _
              (NoPanic-bind _ _ calls.hub_ctx (λ s ctx e.
                NoPanic-bind _ _ (NoPanic-lift _ (λ h. cc h))
                  (λ s role e. share_each-NoPanic ctx role pubkeys out.0 out.1 same)))
              (λ s u e. invite_each-NoPanic pubkeys out.0 out.1))))
