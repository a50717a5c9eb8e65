-- ===== src/Sharing/Tests/Runs.antt =====
-- Runs of the invitations.
use space_daemon.Exec.{◌>>=◌}
use space_daemon.Model.ReceivedFiles.{ReceivedFileSchema, create_received_file_via_invitation}
use space_daemon.Model.Rows.{matching}
use space_daemon.Outcome.{ok}
use space_daemon.Prelude.{false, [], ◌∷◌, ◌≡◌, refl}
use space_daemon.Sharing.{
  accept_shared_files_invitation, accepted, create_one, create_received_files,
}
use space_daemon.Sharing.Accepted.{IsReceived, accept_shared_files_invitation-AllReceived}
use space_daemon.Sharing.Invites.{share_files_via_public_key}
use space_daemon.Sharing.Mail.{parse_message}
use space_daemon.Sharing.Calls.{CallsReturn, share_files_via_public_key-NoPanic}
use space_daemon.Exec.NoPanic.{NoPanic}
use space_daemon.Sharing.Shown.{parse_message-accept_shared_files_invitation, shown, unanswered}
use space_daemon.Sharing.Tests.{
  user, user-IsReceivedStore, shared_path, invitation, letter, mailbox, mailbox-Has, service,
}

is_accepted :
    (accept_shared_files_invitation user (unanswered letter invitation) []).0
    ≡ ok (record (unanswered letter invitation) { status = accepted })
unfolding accept_shared_files_invitation ◌>>=◌ create_received_files create_one
    create_received_file_via_invitation matching
is_accepted = refl

parse_message-accept_shared_files_invitation_example :
    (parse_message user mailbox
      (letter ∷ [])
      (accept_shared_files_invitation user (unanswered letter invitation) []).1).0
    ≡ ok (shown letter mailbox-Has.plain invitation accepted ∷ [])
unfolding matching
parse_message-accept_shared_files_invitation_example =
    parse_message-accept_shared_files_invitation user (λ w. w) user-IsReceivedStore mailbox letter
      invitation shared_path [] [] (record (unanswered letter invitation) { status = accepted })
      mailbox-Has refl refl refl is_accepted

-- the file was rejected when it was first shared
abbrev rejected_row : ReceivedFileSchema
rejected_row = record {
  id = "1";
  accepted = false;
  created_at = 1;
  db_id = "db";
  bucket = "b";
  path = "a.txt";
  invitation_id = "first";
  bucket_key = "k";
  encryption_key = [];
  shared_by = "them";
  public_ipfs_hash = "";
  file_password = "";
  file_name = "";
  file_size = "";
}

shared_path-IsReceived : IsReceived (rejected_row ∷ []) shared_path
unfolding matching
shared_path-IsReceived = record { row = rejected_row; others = []; at = refl }

accept_shared_files_invitation-AllReceived_example :
    ((accept_shared_files_invitation user invitation (rejected_row ∷ [])).0
      ≡ ok (record invitation { status = accepted }))
    × ((accept_shared_files_invitation user invitation (rejected_row ∷ [])).1 ≡ rejected_row ∷ [])
accept_shared_files_invitation-AllReceived_example =
    accept_shared_files_invitation-AllReceived user (λ w. w) user-IsReceivedStore invitation
      (rejected_row ∷ []) refl refl (shared_path-IsReceived, tt)

service-CallsReturn : CallsReturn service
unfolding ◌>>=◌
service-CallsReturn = record {
  healthy = record { at = λ w h. cc h };
  meta_thread = record { at = λ w h. cc h };
  default_bucket = record { at = λ w h. cc h };
  buckets = λ q. record { at = λ w h. cc h };
  received = λ q. record { at = λ w h. cc h };
  created = λ row. record { at = λ w h. cc h };
  clock = record { at = λ w h. cc h };
  hub_ctx = record { at = λ w h. cc h };
  bucket_ctx = λ ctx db slug key. record { at = λ w h. cc h };
  roles = λ ctx key path given_roles. record { at = λ w h. cc h };
  stored_key = record { at = λ w h. cc h };
  raw = λ pk h. cc h;
  invitation = λ i h. cc h;
  body = λ b h. cc h;
  connection = record { at = λ w h. cc h };
  message = λ ctx pk b. record { at = λ w h. cc h };
}

share_files_via_public_key-NoPanic_example :
    NoPanic (share_files_via_public_key service (shared_path ∷ []) ("them" ∷ []))
share_files_via_public_key-NoPanic_example =
    share_files_via_public_key-NoPanic service service-CallsReturn (shared_path ∷ []) ("them" ∷ [])
