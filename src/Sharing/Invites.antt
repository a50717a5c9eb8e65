-- ===== src/Sharing/Invites.antt =====
-- core/space/services: the service of sharing files by public keys, in services_sharing.go, and its
-- waits for the Textile client, in services.go.
use space_daemon.Exec.{Exec, lift, pure, raise, ◌>>=◌, ◌>>◌}
use space_daemon.Model.{FullPath}
use space_daemon.Model.Buckets.{find_bucket}
use space_daemon.Model.ReceivedFiles.{find_received_file}
use space_daemon.Model.SentFiles.{create_sent_file_via_invitation}
use space_daemon.Model.SharedKeys.{SharedPublicKeySchema}
use space_daemon.Model.{Collection}
use space_daemon.Outcome.{Err, Result, ok, err, new, panic}
use space_daemon.Prelude.{
  ℕ, String, Bool, ◌||◌, if◌then◌else◌, str_eq, List, [], ◌∷◌, Option, some, none,
}
use space_daemon.Prelude.Hex.{encode, decode}
use space_daemon.Sharing.{
  Invitation, read_write_role_action, delete_role_action, Textile,
  manage_share_files_via_public_key, pending,
}
use space_daemon.Sharing.Entries.{default_personal_bucket_slug}
use space_daemon.Sharing.Mail.{
  Mailbox, MessageBody, Notification, NotificationTypes, RevokedInvitation, invitation_reply_type,
  invitation_type, other_type, revoked_invitation_type, send_message, unknown_type,
  usage_alert_type,
}
use space_daemon.Sync.Deps.{BucketSchema}

-- what a `select` over the client, the timer and the context comes to
pub data Waited : Type 0 where
  came : Result (Unit {0}) → Waited
  timed_out : Waited
  cancelled : Err → Waited

pub record Space (W Ctx Pk Key : Type 0) : Type 0 where
  pub tc : Textile W Ctx Pk
  pub mail : Mailbox W Ctx Pk
  pub is_initialized : W → Bool
  pub wait_for_initialized : Exec W Waited
  pub is_healthy : W → Bool
  pub wait_for_healthy : Exec W Waited
  -- the slug of the default bucket
  pub get_default_bucket : Exec W String
  pub marshal_invitation : Invitation → Result (List ℕ)
  pub marshal_revoked : RevokedInvitation → Result (List ℕ)
  pub marshal_body : MessageBody → Result (List ℕ)
  pub unmarshal_ed25519_public_key : List ℕ → Result Pk
  -- the collection of shared keys
  pub managed_key : Exec W Key
  pub new_db : Key → Exec W (Unit {0})
  pub shared_keys : Collection W SharedPublicKeySchema

abbrev pub default_mirror_bucket_slug : String
default_mirror_bucket_slug = "personal_mirror"

abbrev pub err_not_in_time : Err
err_not_in_time = new "textile client not initialized in expected time"

abbrev pub err_invitation_not_found : Err
err_invitation_not_found = new "invitation not found"

abbrev pub err_failed_to_notify_inviter : Err
err_failed_to_notify_inviter = new "failed to notify inviter of invitation status"

abbrev pub waited : Waited → Result (Unit {0})
waited (came r) = r
waited timed_out = err err_not_in_time
waited (cancelled e) = err e

abbrev pub invitation_in : NotificationTypes → Notification → Result Invitation
invitation_in invitation_type n = ok (record n.invitation_value { invitation_id = n.id })
invitation_in unknown_type n = err err_invitation_not_found
invitation_in usage_alert_type n = err err_invitation_not_found
invitation_in invitation_reply_type n = err err_invitation_not_found
invitation_in revoked_invitation_type n = err err_invitation_not_found
invitation_in (other_type k) n = err err_invitation_not_found

unfoldable pub extract_invitation : Notification → Result Invitation
extract_invitation n = invitation_in n.notification_type n

-- the paths with the database and the bucket at the hub, and their keys
abbrev pub Resolved : Type 0
Resolved = List FullPath × List (List ℕ)

module _ {W Ctx Pk Key : Type 0} (S : Space W Ctx Pk Key) where
  unfoldable pub wait_for_textile_init : Exec W (Unit {0})
  wait_for_textile_init w =
      if S.is_initialized w then (ok tt, w) else (S.wait_for_initialized >>= λ r. lift (waited r)) w

  unfoldable pub wait_for_textile_hub : Exec W (Unit {0})
  wait_for_textile_hub w =
      if S.is_healthy w then (ok tt, w) else (S.wait_for_healthy >>= λ r. lift (waited r)) w

  abbrev pub default_schema : Exec W BucketSchema
  default_schema = do
    slug ← S.get_default_bucket
    find_bucket S.tc.meta_thread S.tc.rand_bytes S.tc.buckets slug

  unfoldable pub resolve_db : FullPath → Exec W FullPath
  unfolding find_bucket
  resolve_db path =
      if str_eq path.db_id ""
      then (default_schema >>= λ bs. pure (record path { db_id = bs.mirror.remote_db_id }))
      else pure path

  abbrev pub in_default : FullPath → Exec W (FullPath × List ℕ)
  in_default ep = do
    bs ← default_schema
    pure (
      record ep { bucket = default_mirror_bucket_slug; bucket_key = bs.mirror.remote_bucket_key },
      bs.encryption_key,
    )

  abbrev pub in_received : FullPath → FullPath → Exec W (FullPath × List ℕ)
  in_received path ep = do
    r ← find_received_file S.tc.meta_thread S.tc.now S.tc.received path.db_id path.bucket path.path
    pure (record ep { bucket = r.bucket; bucket_key = r.bucket_key }, r.encryption_key)

  abbrev pub resolve_bucket : FullPath → FullPath → Exec W (FullPath × List ℕ)
  resolve_bucket path ep =
      if str_eq ep.bucket "" || str_eq ep.bucket default_personal_bucket_slug
      then in_default ep
      else in_received path ep

  unfoldable pub resolve_path : FullPath → Exec W (FullPath × List ℕ)
  unfolding resolve_db find_received_file
  resolve_path path = do ep ← resolve_db path; resolve_bucket path ep

  unfoldable pub resolve_full_paths : List FullPath → Exec W Resolved
  unfolding resolve_path
  resolve_full_paths [] = pure ([], [])
  resolve_full_paths (path ∷ paths) = do
    ep ← resolve_path path
    rest ← resolve_full_paths paths
    pure (ep.0 ∷ rest.0, ep.1 ∷ rest.1)

  -- `enckeys[i]` for each path
  unfoldable pub store_sent : List FullPath → List (List ℕ) → Exec W (Unit {0})
  unfolding create_sent_file_via_invitation
  store_sent [] keys = pure tt
  store_sent (p ∷ ps) [] = raise panic
  store_sent (p ∷ ps) (k ∷ ks) = do
    create_sent_file_via_invitation S.tc.meta_thread S.tc.now S.tc.sent_files p "" k
    store_sent ps ks

  -- a message of one type from the user to one public key
  abbrev pub send_body : Pk → NotificationTypes → Result (List ℕ) → Exec W (Unit {0})
  send_body pk type marshalled = do
    i ← lift marshalled
    j ← lift (S.marshal_body (record { type = type; body = i }))
    send_message S.tc S.mail pk j
    pure tt

  -- the keys of the user and of the other, as texts
  abbrev pub both_keys : Pk → Exec W (String × String)
  both_keys pk = do
    inviter ← S.tc.get_stored_public_key
    inviter_raw ← lift (S.tc.raw inviter)
    pk_raw ← lift (S.tc.raw pk)
    pure (encode inviter_raw, encode pk_raw)

  abbrev pub invitation_for : List FullPath → List (List ℕ) → String × String → Invitation
  invitation_for paths keys texts = record {
    inviter_public_key = texts.0;
    invitee_public_key = texts.1;
    invitation_id = "";
    status = pending;
    item_paths = paths;
    keys = keys;
  }

  unfoldable pub invite_each : List Pk → List FullPath → List (List ℕ) → Exec W (Unit {0})
  unfolding encode send_message
  invite_each [] paths keys = pure tt
  invite_each (pk ∷ pks) paths keys = do
    texts ← both_keys pk
    send_body pk invitation_type (S.marshal_invitation (invitation_for paths keys texts))
    invite_each pks paths keys

  unfoldable pub share_files_via_public_key : List FullPath → List Pk → Exec W (Unit {0})
  unfolding wait_for_textile_hub resolve_full_paths store_sent manage_share_files_via_public_key
      invite_each
  share_files_via_public_key paths pubkeys = do
    wait_for_textile_hub
    resolved ← resolve_full_paths paths
    store_sent resolved.0 resolved.1
    manage_share_files_via_public_key S.tc resolved.0 pubkeys resolved.1 read_write_role_action
    invite_each pubkeys resolved.0 resolved.1

  abbrev pub revoked_for : List FullPath → List (List ℕ) → String × String → RevokedInvitation
  revoked_for paths keys texts = record {
    inviter_public_key = texts.0;
    invitee_public_key = texts.1;
    item_paths = paths;
    keys = keys;
  }

  unfoldable pub send_paths_revoked_invitation :
      List Pk → List FullPath → List (List ℕ) → Exec W (Unit {0})
  unfolding encode send_message
  send_paths_revoked_invitation [] paths keys = pure tt
  send_paths_revoked_invitation (pk ∷ pks) paths keys = do
    texts ← both_keys pk
    send_body pk revoked_invitation_type (S.marshal_revoked (revoked_for paths keys texts))
    send_paths_revoked_invitation pks paths keys

  unfoldable pub unshare_files_via_public_key : List FullPath → List Pk → Exec W (Unit {0})
  unfolding wait_for_textile_hub resolve_full_paths manage_share_files_via_public_key
      send_paths_revoked_invitation
  unshare_files_via_public_key paths pubkeys = do
    wait_for_textile_hub
    resolved ← resolve_full_paths paths
    manage_share_files_via_public_key S.tc resolved.0 pubkeys resolved.1 delete_role_action
    send_paths_revoked_invitation pubkeys resolved.0 resolved.1

  abbrev pub key_or_invalid : Result Pk → Result Pk
  key_or_invalid (ok pk) = ok pk
  key_or_invalid (err e) = err (new "invalid public key format")

  abbrev pub decoded_key : Option (List ℕ) → Result Pk
  decoded_key none = err (new "invalid encoding for public key")
  decoded_key (some bytes) = key_or_invalid (S.unmarshal_ed25519_public_key bytes)

  unfoldable pub decode_public_key : String → Result Pk
  unfolding decode
  decode_public_key text = decoded_key (decode text)
