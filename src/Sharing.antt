-- ===== src/Sharing.antt =====
-- core/textile/sharing.go: sharing files by the public keys of other users, and what is received. The
-- hub, the clients of buckets, the synchronizer and the texts of numbers and times are parameters.
pub mod Members
pub mod Entries
pub mod Mail
pub mod Invites
pub mod Replies
pub mod Links
pub mod Opened
pub mod Resolved
pub mod Sealed
pub mod Calls
mod Tests
pub mod Received
pub mod Accepted
pub mod Status
pub mod Shown
use space_daemon.Bucket.{DirEntries}
use space_daemon.Exec.{Exec, attempt, lift, modify, pure, raise, ◌>>=◌, ◌>>◌}
use space_daemon.Model.{Collection, FullPath}
use space_daemon.Model.ReceivedFiles.{ReceivedFileSchema, create_received_file_via_invitation}
use space_daemon.Model.SentFiles.{SentFileSchema}
use space_daemon.Outcome.{Err, Result, ok, err, new, panic}
use space_daemon.Prelude.{
  ℕ, String, Bool, true, false, if◌then◌else◌, ◌==◌, List, [], ◌∷◌, length, Option, some, none,
}
use space_daemon.Prelude.Map.{Map, insert}
use space_daemon.Sync.Deps.{BucketSchema}

-- domain.InvitationStatus, an int
pub data InvitationStatus : Type 0 where
  pending accepted rejected : InvitationStatus
  other_status : ℕ → InvitationStatus

-- domain.Invitation
pub record Invitation : Type 0 where
  pub inviter_public_key : String
  pub invitee_public_key : String
  pub invitation_id : String
  pub status : InvitationStatus
  pub item_paths : List FullPath
  pub keys : List (List ℕ)

-- the roles of package buckets that are given
pub data Role : Type 0 where
  no_role admin_role : Role

-- domain.SharedFilesRoleAction, an int
pub data SharedFilesRoleAction : Type 0 where
  delete_role_action read_write_role_action : SharedFilesRoleAction
  other_role_action : ℕ → SharedFilesRoleAction

-- What the methods of textileClient call: the collections of `Model`, the contexts of the hub and of
-- its buckets, the encrypting client at the hub, and the public keys of libp2p.
pub record Textile (W Ctx Pk : Type 0) : Type 0 where
  pub meta_thread : Exec W (Unit {0})
  pub now : Exec W ℕ
  pub received : Collection W ReceivedFileSchema
  pub sent_files : Collection W SentFileSchema
  pub buckets : Collection W BucketSchema
  pub rand_bytes : ℕ → Exec W (List ℕ)
  pub get_hub_ctx : Exec W Ctx
  -- getBucketContext at the hub, for a database, a slug and a key
  pub get_bucket_context : Ctx → String → String → List ℕ → Exec W Ctx
  pub list_path : Ctx → String → String → Exec W DirEntries
  pub push_path_access_roles : Ctx → String → String → Map Role → Exec W (Unit {0})
  pub pull_path_access_roles : Ctx → String → String → Exec W (Map Role)
  -- sync.NotifyIndexItemAdded
  pub notify_index_item_added : String → String → String → W → W
  -- the text of a thread.Libp2pPubKey, UnmarshalString, Raw, and address.DeriveAddress
  pub key_text : Pk → String
  pub unmarshal_key : String → Result Pk
  pub raw : Pk → Result (List ℕ)
  pub derive_address : Pk → String
  -- GetStoredPublicKey of the keychain
  pub get_stored_public_key : Exec W Pk
  -- strconv.FormatInt, and time.Unix with Format
  pub format_int : ℕ → String
  pub format_time : ℕ → String

abbrev pub bucket_role : SharedFilesRoleAction → Result Role
bucket_role read_write_role_action = ok admin_role
bucket_role delete_role_action = ok no_role
bucket_role (other_role_action n) = err (new "unsupported shared files role")

abbrev pub err_invitation_not_pending : Err
err_invitation_not_pending = new "invitation is no more pending"

abbrev pub err_invitation_already_accepted : Err
err_invitation_already_accepted = new "invitation is already accepted"

abbrev pub err_invitation_already_rejected : Err
err_invitation_already_rejected = new "invitation is already rejected"

abbrev pub err_sizes_differ : Err
err_sizes_differ = new "size of encryption keys does not match all items shared"

-- The key of a file that was rejected is empty; `keys[i]` is out of range where there are no more.
abbrev pub key_at : Bool → List (List ℕ) → Result (List ℕ)
key_at false keys = ok []
key_at true [] = err panic
key_at true (k ∷ ks) = ok k

abbrev pub other_keys : List (List ℕ) → List (List ℕ)
other_keys [] = []
other_keys (k ∷ ks) = ks

-- The error that is returned in the end wraps the last one; the texts around it are left out.
abbrev pub all_err : Option Err → Result ReceivedFileSchema → Option Err
all_err e (ok row) = e
all_err e (err f) = some f

module _ {W : Type 0} where
  abbrev pub finished : Option Err → Exec W (Unit {0})
  finished none = pure tt
  finished (some e) = raise e

module _ {W Ctx Pk : Type 0} (T : Textile W Ctx Pk) where
  roles_into : Role → List Pk → Map Role → Map Role
  roles_into role [] m = m
  roles_into role (pk ∷ pks) m = roles_into role pks (insert (T.key_text pk) role m)

  unfoldable pub share_each :
      Ctx → Role → List Pk → List FullPath → List (List ℕ) → Exec W (Unit {0})
  unfolding roles_into
  share_each ctx role pubkeys [] keys = pure tt
  share_each ctx role pubkeys (p ∷ ps) [] = raise panic
  share_each ctx role pubkeys (p ∷ ps) (k ∷ ks) = do
    bucket_ctx ← T.get_bucket_context ctx p.db_id p.bucket k
    T.push_path_access_roles bucket_ctx p.bucket_key p.path (roles_into role pubkeys [])
    share_each bucket_ctx role pubkeys ps ks

  unfoldable pub manage_share_files_via_public_key :
      List FullPath → List Pk → List (List ℕ) → SharedFilesRoleAction → Exec W (Unit {0})
  unfolding share_each
  manage_share_files_via_public_key paths pubkeys keys action = do
    ctx ← T.get_hub_ctx
    role ← lift (bucket_role action)
    share_each ctx role pubkeys paths keys

  abbrev pub announce_received : Bool → Result ReceivedFileSchema → W → W
  announce_received true (ok row) w = T.notify_index_item_added row.bucket row.path row.db_id w
  announce_received true (err e) w = w
  announce_received false r w = w

  -- the file at one path of an invitation
  unfoldable pub create_one :
      Bool → Invitation → FullPath → List ℕ → Exec W (Result ReceivedFileSchema)
  create_one accept inv path key = attempt (
      create_received_file_via_invitation T.meta_thread T.now T.received path inv.invitation_id
        accept key inv.inviter_public_key)

  unfoldable pub create_each :
      Bool → Invitation → Option Err → List FullPath → List (List ℕ) → Exec W (Unit {0})
  create_each accept inv failed [] keys = finished failed
  create_each accept inv failed (path ∷ paths) keys = do
    key ← lift (key_at accept keys)
    row ← create_one accept inv path key
    modify (announce_received accept row)
    create_each accept inv (all_err failed row) paths (other_keys keys)

  unfoldable pub create_received_files : Invitation → Bool → Exec W (Unit {0})
  unfolding create_each
  create_received_files inv accept =
      if length inv.item_paths == length inv.keys
      then create_each accept inv none inv.item_paths inv.keys
      else raise err_sizes_differ

  abbrev pub accept_at : InvitationStatus → Invitation → Exec W Invitation
  accept_at accepted inv = raise err_invitation_already_accepted
  accept_at pending inv = create_received_files inv true >> pure (record inv { status = accepted })
  accept_at rejected inv = raise err_invitation_not_pending
  accept_at (other_status n) inv = raise err_invitation_not_pending

  unfoldable pub accept_shared_files_invitation : Invitation → Exec W Invitation
  accept_shared_files_invitation inv = accept_at inv.status inv

  abbrev pub reject_at : InvitationStatus → Invitation → Exec W Invitation
  reject_at rejected inv = raise err_invitation_already_rejected
  reject_at pending inv = create_received_files inv false >> pure (record inv { status = rejected })
  reject_at accepted inv = raise err_invitation_not_pending
  reject_at (other_status n) inv = raise err_invitation_not_pending

  unfoldable pub reject_shared_files_invitation : Invitation → Exec W Invitation
  reject_shared_files_invitation inv = reject_at inv.status inv
