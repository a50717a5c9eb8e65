-- ===== src/Sharing/Replies.antt =====
-- core/space/services/services_sharing.go: answers to invitations, the recently shared keys, and the
-- lists of shared files.
use space_daemon.Exec.{Exec, attempt, lift, pure, ◌>>=◌, ◌>>◌}
use space_daemon.Model.SharedKeys.{
  SharedPublicKeySchema, create_shared_public_key, list_shared_public_keys,
}
use space_daemon.Outcome.{Err, Result, ok, err}
use space_daemon.Prelude.{ℕ, String, Bool, true, false, List, [], ◌∷◌, Option, some, none}
use space_daemon.Prelude.Hex.{encode, decode}
use space_daemon.Sharing.{
  Invitation, accept_shared_files_invitation, reject_shared_files_invitation,
}
use space_daemon.Sharing.Entries.{SharedDirEntry, get_received_files, get_sent_files}
use space_daemon.Sharing.Invites.{
  Space, decode_public_key, err_failed_to_notify_inviter, err_invitation_not_found,
  extract_invitation, wait_for_textile_hub, wait_for_textile_init,
}
use space_daemon.Sharing.Mail.{
  Notification, get_mail_as_notifications, invitation_reply_type, send_message,
}

abbrev pub found_invitation : Result (List Notification) → Result Invitation
found_invitation (err e) = err err_invitation_not_found
found_invitation (ok []) = err err_invitation_not_found
found_invitation (ok (n ∷ ns)) = extract_invitation n

abbrev pub or_failed : {A : Type 0} → Result A → Result A
or_failed (ok a) = ok a
or_failed (err e) = err err_failed_to_notify_inviter

-- an error of the library's parser of hexadecimal text
abbrev hex_or : Err → Option (List ℕ) → Result (List ℕ)
hex_or e none = err e
hex_or e (some bytes) = ok bytes

module _ {W Ctx Pk Key : Type 0} (S : Space W Ctx Pk Key) (invalid_hex : Err) where
  -- The error of the last call goes to a variable of the block, so that it is lost.
  unfoldable pub reply_accepted : Invitation → Exec W (Unit {0})
  unfolding decode_public_key send_message
  reply_accepted inv = do
    pk ← lift (or_failed (decode_public_key S inv.inviter_public_key))
    body ← lift (or_failed (S.marshal_invitation inv))
    message ←
        lift (or_failed (S.marshal_body (record { type = invitation_reply_type; body = body })))
    attempt (send_message S.tc S.mail pk message)
    pure tt

  abbrev pub answer : Bool → Invitation → Exec W (Unit {0})
  answer true inv = accept_shared_files_invitation S.tc inv >>= reply_accepted
  answer false inv = reject_shared_files_invitation S.tc inv >> pure tt

  unfoldable pub handle_shared_files_invitation : String → Bool → Exec W (Unit {0})
  unfolding wait_for_textile_hub get_mail_as_notifications extract_invitation
      accept_shared_files_invitation reject_shared_files_invitation reply_accepted
  handle_shared_files_invitation id accept = do
    wait_for_textile_hub S
    found ← attempt (get_mail_as_notifications S.tc S.mail id 1)
    invitation ← lift (found_invitation found)
    answer accept invitation

  abbrev pub store_shared_key : String → Exec W SharedPublicKeySchema
  store_shared_key text =
      create_shared_public_key S.tc.meta_thread S.tc.now S.managed_key S.new_db S.tc.received
        S.shared_keys text

  -- where a key cannot be stored, the function returns nil
  abbrev pub unless_failed : Result SharedPublicKeySchema → Exec W (Unit {0}) → Exec W (Unit {0})
  unless_failed (ok row) next = next
  unless_failed (err e) next = pure tt

  unfoldable pub add_each : List Pk → Exec W (Unit {0})
  unfolding encode create_shared_public_key
  add_each [] = pure tt
  add_each (pk ∷ pks) = do
    b ← lift (S.tc.raw pk)
    stored ← attempt (store_shared_key (encode b))
    unless_failed stored (add_each pks)

  unfoldable pub add_recently_shared_public_keys : List Pk → Exec W (Unit {0})
  unfolding wait_for_textile_init add_each
  add_recently_shared_public_keys pubkeys = wait_for_textile_init S >> add_each pubkeys

  unfoldable pub keys_from : List SharedPublicKeySchema → Exec W (List Pk)
  unfolding decode
  keys_from [] = pure []
  keys_from (schema ∷ schemas) = do
    b ← lift (hex_or invalid_hex (decode schema.public_key))
    p ← lift (S.unmarshal_ed25519_public_key b)
    ret ← keys_from schemas
    pure (p ∷ ret)

  unfoldable pub recently_shared_public_keys : Exec W (List Pk)
  unfolding wait_for_textile_init list_shared_public_keys keys_from
  recently_shared_public_keys = do
    wait_for_textile_init S
    keys ←
        list_shared_public_keys S.tc.meta_thread S.tc.now S.managed_key S.new_db S.tc.received
          S.shared_keys
    keys_from keys

  unfoldable pub get_shared_with_me_files : Ctx → String → ℕ → Exec W (List SharedDirEntry × String)
  unfolding wait_for_textile_init get_received_files
  get_shared_with_me_files ctx seek limit = do
    wait_for_textile_init S
    get_received_files S.tc ctx true seek limit

  unfoldable pub get_shared_by_me_files : Ctx → String → ℕ → Exec W (List SharedDirEntry × String)
  unfolding wait_for_textile_init get_sent_files
  get_shared_by_me_files ctx seek limit = do
    wait_for_textile_init S
    get_sent_files S.tc ctx seek limit
