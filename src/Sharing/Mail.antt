-- ===== src/Sharing/Mail.antt =====
-- core/textile/mailbox.go: the messages of the hub's mailbox as notifications. The mailbox of the SDK,
-- the JSON forms and the scheduler of goroutines are parameters.
use space_daemon.Exec.{Exec, attempt, lift, modify, pure, raise, ◌>>=◌, ◌>>◌}
use space_daemon.Model.{FullPath}
use space_daemon.Model.ReceivedFiles.{
  ReceivedFileSchema, delete_received_files, find_received_files_by_ids,
}
use space_daemon.Outcome.{Result, ok, err, panic}
use space_daemon.Prelude.{ℕ, String, true, false, List, [], ◌∷◌, map, Option, some, none}
use space_daemon.Prelude.Map.{Map, insert, lookup}
use space_daemon.Sharing.{Invitation, InvitationStatus, pending, accepted, rejected, Textile}

-- domain.NotificationTypes, an int
pub data NotificationTypes : Type 0 where
  unknown_type invitation_type usage_alert_type : NotificationTypes
  invitation_reply_type revoked_invitation_type : NotificationTypes
  other_type : ℕ → NotificationTypes

pub record UsageAlert : Type 0 where
  pub used : ℕ
  pub limit : ℕ
  pub message : String

pub record RevokedInvitation : Type 0 where
  pub inviter_public_key : String
  pub invitee_public_key : String
  pub item_paths : List FullPath
  pub keys : List (List ℕ)

pub record MessageBody : Type 0 where
  pub type : NotificationTypes
  pub body : List ℕ

-- RelatedObject, an interface
pub data RelatedObject : Type 0 where
  nothing : RelatedObject
  of_invitation : Invitation → RelatedObject
  of_usage_alert : UsageAlert → RelatedObject
  of_revoked : RevokedInvitation → RelatedObject

-- domain.Notification. Its subject and its reply are never set. `body` is the bytes of the text.
pub record Notification : Type 0 where
  pub id : String
  pub body : List ℕ
  pub notification_type : NotificationTypes
  pub created_at : ℕ
  pub read_at : ℕ
  pub invitation_value : Invitation
  pub usage_alert_value : UsageAlert
  pub revoked_invitation_value : RevokedInvitation
  pub related_object : RelatedObject

-- client.Message, still encrypted
pub record Message : Type 0 where
  pub id : String
  pub sealed : List ℕ
  pub created_at : ℕ
  pub read_at : ℕ

-- An event of the mailbox: a new message with its ID, or one that is ignored.
pub data MailboxEvent : Type 0 where
  new_message : String → MailboxEvent
  other_event : MailboxEvent

pub record Mailbox (W Ctx Pk : Type 0) : Type 0 where
  pub requires_hub_connection : Exec W (Unit {0})
  -- Message.Open with the identity of the mailbox
  pub open_message : Message → Exec W (List ℕ)
  pub list_inbox_messages : Ctx → String → ℕ → Exec W (List Message)
  pub send_message : Ctx → Pk → List ℕ → Exec W Message
  pub unmarshal_body : List ℕ → Result MessageBody
  pub unmarshal_invitation : List ℕ → Result Invitation
  pub unmarshal_usage_alert : List ℕ → Result UsageAlert
  pub unmarshal_revoked : List ℕ → Result RevokedInvitation
  -- `go`, for the function that deletes received files
  pub go_delete : List FullPath → List (List ℕ) → W → W
  pub send_notification_event : Notification → W → W

abbrev pub no_invitation : Invitation
no_invitation = record {
  inviter_public_key = "";
  invitee_public_key = "";
  invitation_id = "";
  status = pending;
  item_paths = [];
  keys = [];
}

abbrev pub no_usage_alert : UsageAlert
no_usage_alert = record { used = 0; limit = 0; message = "" }

abbrev pub no_revoked_invitation : RevokedInvitation
no_revoked_invitation = record {
  inviter_public_key = "";
  invitee_public_key = "";
  item_paths = [];
  keys = [];
}

abbrev pub bare_notification : Message → List ℕ → NotificationTypes → Notification
bare_notification msg p type = record {
  id = msg.id;
  body = p;
  notification_type = type;
  created_at = msg.created_at;
  read_at = msg.read_at;
  invitation_value = no_invitation;
  usage_alert_value = no_usage_alert;
  revoked_invitation_value = no_revoked_invitation;
  related_object = nothing;
}

-- fsmap: the last row of each invitation
unfoldable pub by_invitation :
    List ReceivedFileSchema → Map ReceivedFileSchema → Map ReceivedFileSchema
by_invitation [] m = m
by_invitation (row ∷ rows) m = by_invitation rows (insert row.invitation_id row m)

abbrev pub status_of_row : Option ReceivedFileSchema → InvitationStatus
status_of_row none = pending
status_of_row (some row) = elim row.accepted [ true ↦ accepted | false ↦ rejected ]

module _ {W Ctx Pk : Type 0} (T : Textile W Ctx Pk) (B : Mailbox W Ctx Pk) where
  abbrev pub invitation_notification :
      Map ReceivedFileSchema → Message → List ℕ → List ℕ → Exec W Notification
  invitation_notification fsmap msg p body = do
    i ← lift (B.unmarshal_invitation body)
    value ← pure (record i { status = status_of_row (lookup msg.id fsmap); invitation_id = msg.id })
    pure (record (bare_notification msg p invitation_type) {
      invitation_value = value;
      related_object = of_invitation value;
    })

  abbrev pub usage_alert_notification : Message → List ℕ → List ℕ → Exec W Notification
  usage_alert_notification msg p body = do
    u ← lift (B.unmarshal_usage_alert body)
    pure (record (bare_notification msg p usage_alert_type) {
      usage_alert_value = u;
      related_object = of_usage_alert u;
    })

  -- The goroutine that deletes the files is started each time that the message is read.
  abbrev pub revoked_notification : Message → List ℕ → List ℕ → Exec W Notification
  revoked_notification msg p body = do
    invite ← lift (B.unmarshal_revoked body)
    modify (B.go_delete invite.item_paths invite.keys)
    pure (record (bare_notification msg p revoked_invitation_type) {
      revoked_invitation_value = invite;
      related_object = of_revoked invite;
    })

  abbrev pub by_type :
      NotificationTypes → Map ReceivedFileSchema → Message → List ℕ → List ℕ → Exec W Notification
  by_type invitation_type fsmap msg p body = invitation_notification fsmap msg p body
  by_type usage_alert_type fsmap msg p body = usage_alert_notification msg p body
  by_type revoked_invitation_type fsmap msg p body = revoked_notification msg p body
  by_type unknown_type fsmap msg p body = pure (bare_notification msg p unknown_type)
  by_type invitation_reply_type fsmap msg p body =
      pure (bare_notification msg p invitation_reply_type)
  by_type (other_type n) fsmap msg p body = pure (bare_notification msg p (other_type n))

  -- A body that cannot be parsed gives a notification without a type.
  abbrev pub parsed_body :
      Map ReceivedFileSchema → Message → List ℕ → Result MessageBody → Exec W Notification
  parsed_body fsmap msg p (err e) = pure (bare_notification msg p unknown_type)
  parsed_body fsmap msg p (ok b) = by_type b.type fsmap msg p b.body

  unfoldable pub parse_one : Map ReceivedFileSchema → Message → Exec W Notification
  unfolding lookup
  parse_one fsmap msg = do p ← B.open_message msg; parsed_body fsmap msg p (B.unmarshal_body p)

  unfoldable pub parse_each : Map ReceivedFileSchema → List Message → Exec W (List Notification)
  unfolding parse_one
  parse_each fsmap [] = pure []
  parse_each fsmap (msg ∷ msgs) = do
    n ← parse_one fsmap msg
    ns ← parse_each fsmap msgs
    pure (n ∷ ns)

  unfoldable pub parse_message : List Message → Exec W (List Notification)
  unfolding parse_each find_received_files_by_ids by_invitation
  parse_message msgs = do
    rows ←
        find_received_files_by_ids T.meta_thread T.now T.received (map (λ (n : Message). n.id) msgs)
    parse_each (by_invitation rows []) msgs

  unfoldable pub send_message : Pk → List ℕ → Exec W Message
  send_message recipient body = do
    B.requires_hub_connection
    ctx ← T.get_hub_ctx
    B.send_message ctx recipient body

  unfoldable pub get_mail_as_notifications : String → ℕ → Exec W (List Notification)
  unfolding parse_message
  get_mail_as_notifications seek limit = do
    B.requires_hub_connection
    ctx ← T.get_hub_ctx
    notifs ← B.list_inbox_messages ctx seek limit
    parse_message notifs

  -- what the goroutine of a revoked invitation does; its error is logged
  unfoldable pub delete_revoked : List FullPath → List (List ℕ) → Exec W (Unit {0})
  unfolding delete_received_files
  delete_revoked paths keys = do
    attempt (delete_received_files T.meta_thread T.now T.received paths keys)
    pure tt

  -- `p[0]`, also where parsing failed and `p` is nil
  abbrev pub send_first : Result (List Notification) → Exec W (Unit {0})
  send_first (err e) = raise panic
  send_first (ok []) = raise panic
  send_first (ok (n ∷ ns)) = modify (B.send_notification_event n)

  abbrev pub handle_fetched : Result (List Message) → Exec W (Unit {0}) → Exec W (Unit {0})
  handle_fetched (err e) next = pure tt
  handle_fetched (ok msgs) next = attempt (parse_message msgs) >>= send_first >> next

  -- The loop over the events that have come: it ends where the message cannot be fetched.
  unfoldable pub handle_events : Ctx → List MailboxEvent → Exec W (Unit {0})
  unfolding parse_message
  handle_events ctx [] = pure tt
  handle_events ctx (other_event ∷ events) = handle_events ctx events
  handle_events ctx (new_message id ∷ events) = do
    msgs ← attempt (B.list_inbox_messages ctx id 1)
    handle_fetched msgs (handle_events ctx events)
