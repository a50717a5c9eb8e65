-- ===== src/Sharing/Tests.antt =====
-- A user whose database holds the received files in a list.
mod Links
mod Runs
use space_daemon.Exec.{Exec, ◌>>=◌}
use space_daemon.Model.{Collection, FullPath, Query}
use space_daemon.Model.ReceivedFiles.{ReceivedFileSchema, create_received_file_via_invitation}
use space_daemon.Model.Rows.{IsCollection, matching}
use space_daemon.Model.Unique.{with_id}
use space_daemon.Outcome.{Result, ok, err, external, ok-injective}
use space_daemon.Prelude.{
  ℕ, ◌==◌, String, Bool, true, false, if◌then◌else◌, Bool-cases, inl, inr, arith, sym, List, [],
  ◌∷◌, ◌++◌, Option, some, none, ◌≡◌, refl, ap, length,
}
use space_daemon.Sharing.{
  Invitation, Textile, accept_shared_files_invitation, accepted, create_one, create_received_files,
  pending,
}
use space_daemon.Sharing.Accepted.{IsReceived, accept_shared_files_invitation-AllReceived}
use space_daemon.Sharing.Invites.{Space, came, share_files_via_public_key, wait_for_textile_hub}
use space_daemon.Sharing.Links.{
  Disk, FileSharingInfo, create_temp_file_for_path, deferred, generate_file_sharing_link,
  keep_plain, open_shared_file,
}
use space_daemon.Sharing.Mail.{
  Mailbox, Message, invitation_type, no_revoked_invitation, no_usage_alert, parse_message,
}
use space_daemon.Sharing.Opened.{
  IsContentAddressed, IsShared, open_shared_file-generate_file_sharing_link,
}
use space_daemon.Sharing.Received.{IsReceivedStore}
use space_daemon.Sharing.Calls.{CallsReturn, share_files_via_public_key-NoPanic}
use space_daemon.Exec.NoPanic.{NoPanic}
use space_daemon.Sharing.Shown.{
  Has, parse_message-accept_shared_files_invitation, shown, unanswered,
}

abbrev pub Rows : Type 0
Rows = List ReceivedFileSchema

abbrev pub nothing_done : Exec Rows (Unit {0})
nothing_done w = (ok tt, w)

abbrev pub given : {A : Type 0} → A → Exec Rows A
given a w = (ok a, w)

abbrev pub matches_of : Option (Query ReceivedFileSchema) → Rows → Rows
matches_of none rows = rows
matches_of (some q) rows = matching q.matches rows

abbrev pub held : Collection Rows ReceivedFileSchema
held = record {
  new_collection = nothing_done;
  find = λ q w. (ok (some (matches_of q w)), w);
  create = λ row w. (ok "id", w ++ with_id "id" row ∷ []);
  save = λ row. nothing_done;
  delete_all = λ ids. nothing_done;
}

pub held-IsCollection : IsCollection held (λ w. w) with_id
held-IsCollection = record {
  made = λ w. refl;
  found = λ test w. refl;
  finding = λ q w. refl;
  created = λ row id w h. ap (λ i. w ++ with_id i row ∷ []) (ok-injective h);
  not_created = λ row e w h. absurd (cc h);
}

abbrev pub bare : {R : Type 0} → Collection Rows R
bare = record {
  new_collection = nothing_done;
  find = λ q. given none;
  create = λ row. given "id";
  save = λ row. nothing_done;
  delete_all = λ ids. nothing_done;
}

abbrev pub user : Textile Rows (Unit {0}) String
user = record {
  meta_thread = nothing_done;
  now = given 7;
  received = held;
  sent_files = bare;
  buckets = bare;
  rand_bytes = λ n. given [];
  get_hub_ctx = nothing_done;
  get_bucket_context = λ ctx db slug key. nothing_done;
  list_path = λ ctx key path w. (err (external "offline"), w);
  push_path_access_roles = λ ctx key path roles. nothing_done;
  pull_path_access_roles = λ ctx key path. given [];
  notify_index_item_added = λ b p d w. w;
  key_text = λ pk. pk;
  unmarshal_key = λ text. ok text;
  raw = λ pk. ok [];
  derive_address = λ pk. pk;
  get_stored_public_key = given "me";
  format_int = λ n. "1";
  format_time = λ n. "now";
}

pub user-IsReceivedStore : IsReceivedStore user (λ w. w)
user-IsReceivedStore = record {
  laws = held-IsCollection;
  ready = λ w. refl;
  context = record { at = λ w. refl };
  clock = record { at = λ w. refl };
  told = λ b p d w. refl;
}

abbrev pub shared_path : FullPath
shared_path = record { db_id = "db"; bucket_key = "k"; bucket = "b"; path = "a.txt" }

abbrev pub invitation : Invitation
invitation = record {
  inviter_public_key = "them";
  invitee_public_key = "me";
  invitation_id = "";
  status = pending;
  item_paths = shared_path ∷ [];
  keys = (1 ∷ []) ∷ [];
}

abbrev pub letter : Message
letter = record { id = "m"; sealed = 9 ∷ []; created_at = 1; read_at = 2 }

abbrev pub mailbox : Mailbox Rows (Unit {0}) String
mailbox = record {
  requires_hub_connection = nothing_done;
  open_message = λ msg. given msg.sealed;
  list_inbox_messages = λ ctx seek limit. given (letter ∷ []);
  send_message = λ ctx pk body. given letter;
  unmarshal_body = λ bytes. ok (record { type = invitation_type; body = bytes });
  unmarshal_invitation = λ bytes. ok invitation;
  unmarshal_usage_alert = λ bytes. ok no_usage_alert;
  unmarshal_revoked = λ bytes. ok no_revoked_invitation;
  go_delete = λ paths keys w. w;
  send_notification_event = λ n w. w;
}

pub mailbox-Has : Has mailbox letter invitation
mailbox-Has = record {
  plain = 9 ∷ [];
  body = 9 ∷ [];
  opened = λ w. refl;
  typed = refl;
  parsed = refl;
}

abbrev pub service : Space Rows (Unit {0}) String (Unit {0})
service = record {
  tc = user;
  mail = mailbox;
  is_initialized = λ w. true;
  wait_for_initialized = given (came (ok tt));
  is_healthy = λ w. true;
  wait_for_healthy = given (came (ok tt));
  get_default_bucket = given "personal";
  marshal_invitation = λ i. ok [];
  marshal_revoked = λ r. ok [];
  marshal_body = λ b. ok b.body;
  unmarshal_ed25519_public_key = λ bytes. ok "them";
  managed_key = nothing_done;
  new_db = λ key. nothing_done;
  shared_keys = bare;
}
