-- ===== src/Sharing/Tests/Links.antt =====
-- Runs of the links, with files encrypted by a byte before them.
use space_daemon.Exec.{Exec, pure, ◌>>=◌, ◌>>◌}
use space_daemon.Model.{Collection}
use space_daemon.Outcome.{Result, ok, err, external, ok-injective}
use space_daemon.Prelude.{
  ℕ, ◌+◌, ◌==◌, String, Bool, true, false, if◌then◌else◌, Bool-cases, inl, inr, arith, sym, List,
  [], ◌∷◌, ◌++◌, some, none, ◌≡◌, ◌≢◌, ◌∙◌, refl, ap,
}
use space_daemon.Sharing.{Textile}
use space_daemon.Sharing.Entries.{accept_shared_file_link}
use space_daemon.Sharing.Invites.{Space, came, wait_for_textile_hub}
use space_daemon.Sharing.Links.{
  Disk, FileSharingInfo, create_temp_file_for_path, deferred, generate_file_sharing_link,
  open_shared_file,
}
use space_daemon.Sharing.Mail.{Mailbox}
use space_daemon.Sharing.Opened.{
  IsContentAddressed, IsShared, open_shared_file-generate_file_sharing_link,
}
use space_daemon.Sharing.Sealed.{File, at_end, at_start, AreFiles}
use space_daemon.Sharing.Tests.{letter}

abbrev same_bytes : List ℕ → List ℕ → Bool
same_bytes [] [] = true
same_bytes [] (y ∷ ys) = false
same_bytes (x ∷ xs) [] = false
same_bytes (x ∷ xs) (y ∷ ys) = let rest = same_bytes xs ys in if x == y then rest else false

same_bytes-eq : (xs ys : List ℕ) → same_bytes xs ys ≡ true → xs ≡ ys
same_bytes-eq [] [] h = refl
same_bytes-eq [] (y ∷ ys) h = absurd (cc h)
same_bytes-eq (x ∷ xs) [] h = absurd (cc h)
same_bytes-eq (x ∷ xs) (y ∷ ys) h = ground (arith, same_bytes-eq xs ys)

-- A file is encrypted by a byte before it, and one CID is all that there is.
abbrev sealed_bytes : List ℕ
sealed_bytes = 1 ∷ 5 ∷ 6 ∷ []

abbrev only_cid : List ℕ → Result String
only_cid bytes = if same_bytes bytes sealed_bytes then ok "cid" else err (external "full")

only_cid-eq :
    (bytes : List ℕ) (cid : String)
    → only_cid bytes ≡ ok cid
    → (sealed_bytes ≡ bytes) × (ok "cid" ≡ ok cid)
only_cid-eq bytes cid h = elim (Bool-cases (same_bytes bytes sealed_bytes)) [
  | inl e ↦ (sym (same_bytes-eq bytes sealed_bytes e), rw e at h)
  | inr e ↦ absurd (cc (rw e at h))
]

abbrev without_first : List ℕ → Result (List ℕ)
without_first [] = err (external "empty")
without_first (x ∷ xs) = ok xs

-- the open files, by numbers
record Desk : Type 0 where
  pub next : ℕ
  pub at : ℕ → File

abbrev changed : ℕ → File → (ℕ → File) → ℕ → File
changed f file at g = if f == g then file else at g

abbrev put : ℕ → File → Desk → Desk
put f file w = record w { at = changed f file w.at }

abbrev done : Exec Desk (Unit {0})
done w = (ok tt, w)

abbrev answer : {A : Type 0} → A → Exec Desk A
answer a w = (ok a, w)

abbrev disk : Disk Desk (Unit {0}) ℕ
disk = record {
  temp_file =
      λ pattern w. (ok w.next, record { next = w.next + 1; at = changed w.next (at_end []) w.at });
  file_name = λ f. "/tmp/a.txt";
  remove_file = λ f w. w;
  close_file = λ f w. w;
  rewind = λ f w. (ok tt, put f (at_start (w.at f).content) w);
  write_file = λ f bytes w. (ok tt, put f (at_end ((w.at f).content ++ bytes)) w);
  read_file = λ f w. (ok (w.at f).unread, put f (at_end (w.at f).content) w);
  get_bucket = λ name remote. answer (some tt);
  get_default = answer (some tt);
  get_file = λ b path. answer (5 ∷ 6 ∷ []);
  get_public_share_bucket = done;
  upload_file = λ b name bytes w. (only_cid bytes, w);
  download_public_item = λ cid. answer sealed_bytes;
  zip = λ items. ok [];
  encrypt = λ bytes password. answer (1 ∷ bytes);
  new_decrypter = λ sealed password. ok tt;
  decrypted = λ sealed password. without_first sealed;
  parse_cid = λ text. ok text;
  unix_nano = answer 7;
  encode_query = λ query. "fname=a.txt&hash=cid";
  site_url = "https://app.space.storage";
}

changed_self : (f : ℕ) (file : File) (at : ℕ → File) → changed f file at f ≡ file
changed_self f file at = ground arith

changed_ne : (f g : ℕ) (file : File) (at : ℕ → File) → f ≢ g → changed f file at g ≡ at g
changed_ne f g file at ne = ground (arith, ne)

disk-AreFiles : AreFiles disk (λ (w : Desk). w.at)
disk-AreFiles = record {
  made = λ pattern w f h.
      ap (changed w.next (at_end []) w.at) (sym (ok-injective h)) ∙ changed_self w.next _ w.at;
  apart = λ p q w f g h k.
      let first : w.next ≡ f = ok-injective h in
      let second : w.next + 1 ≡ g = ok-injective k in
      (
        (λ e. omega (arith, ap (λ n. n) first, second, e)),
        changed_ne (w.next + 1) f _ (disk.temp_file p w).1.at (λ e. omega (arith, first, e)),
      );
  appended = λ f bytes old w full h.
      changed_self f _ w.at ∙ ap (λ (file : File). at_end (file.content ++ bytes)) full;
  writing = λ f g bytes w ne. changed_ne f g _ w.at ne;
  rewound =
      λ f bytes w full h. changed_self f _ w.at ∙ ap (λ (file : File). at_start file.content) full;
  rewinding = λ f g w ne. changed_ne f g _ w.at ne;
  read = λ f bytes w h. sym (ok-injective h);
  reading = λ f g w ne. changed_ne f g _ w.at ne;
  removing = λ f g w ne. refl;
  getting = λ b path w f. refl;
  encrypting = λ bytes password w f. refl;
  finding = λ w f. refl;
  timing = λ w f. refl;
}

disk-IsContentAddressed : IsContentAddressed disk (λ cid. sealed_bytes)
disk-IsContentAddressed = record {
  uploaded = λ b name bytes w cid h. (only_cid-eq bytes cid h).0;
  parsed = λ b name bytes w cid h. refl;
  downloaded = λ cid w bytes h. sym (ok-injective h);
  accepts = λ bytes password w sealed h. refl;
  decrypts = λ bytes password w sealed h. ap without_first (sym (ok-injective h));
}

abbrev link : FileSharingInfo
link = record {
  bucket = "personal";
  shared_file_cid = "cid";
  shared_file_key = "pw";
  space_download_link = "https://app.space.storage/files/share?fname=a.txt&hash=cid";
}

abbrev none_held : {R : Type 0} → Collection Desk R
none_held = record {
  new_collection = done;
  find = λ q. answer none;
  create = λ row. answer "id";
  save = λ row. done;
  delete_all = λ ids. done;
}

abbrev link_user : Textile Desk (Unit {0}) String
link_user = record {
  meta_thread = done;
  now = answer 7;
  received = none_held;
  sent_files = none_held;
  buckets = none_held;
  rand_bytes = λ n. answer [];
  get_hub_ctx = done;
  get_bucket_context = λ ctx db slug key. done;
  list_path = λ ctx key path w. (err (external "offline"), w);
  push_path_access_roles = λ ctx key path roles. done;
  pull_path_access_roles = λ ctx key path. answer [];
  notify_index_item_added = λ b p d w. w;
  key_text = λ pk. pk;
  unmarshal_key = λ text. ok text;
  raw = λ pk. ok [];
  derive_address = λ pk. pk;
  get_stored_public_key = answer "me";
  format_int = λ n. "1";
  format_time = λ n. "now";
}

abbrev link_mail : Mailbox Desk (Unit {0}) String
link_mail = record {
  requires_hub_connection = done;
  open_message = λ msg. answer msg.sealed;
  list_inbox_messages = λ ctx seek limit. answer [];
  send_message = λ ctx pk body. answer letter;
  unmarshal_body = λ bytes. err (external "empty");
  unmarshal_invitation = λ bytes. err (external "empty");
  unmarshal_usage_alert = λ bytes. err (external "empty");
  unmarshal_revoked = λ bytes. err (external "empty");
  go_delete = λ paths keys w. w;
  send_notification_event = λ n w. w;
}

abbrev link_service : Space Desk (Unit {0}) String (Unit {0})
link_service = record {
  tc = link_user;
  mail = link_mail;
  is_initialized = λ w. true;
  wait_for_initialized = answer (came (ok tt));
  is_healthy = λ w. true;
  wait_for_healthy = answer (came (ok tt));
  get_default_bucket = answer "personal";
  marshal_invitation = λ i. ok [];
  marshal_revoked = λ r. ok [];
  marshal_body = λ b. ok b.body;
  unmarshal_ed25519_public_key = λ bytes. ok "them";
  managed_key = done;
  new_db = λ key. done;
  shared_keys = none_held;
}

abbrev no_files : Desk
no_files = record { next = 0; at = λ f. at_end [] }

is_shared :
    (generate_file_sharing_link link_service disk "pw" "a.txt" "personal" "" no_files).0 ≡ ok link
unfolding generate_file_sharing_link ◌>>=◌
is_shared = refl

open_shared_file-generate_file_sharing_link_example :
    (shared : IsShared link_service disk
      (λ (w : Desk). w.at)
      disk-AreFiles
      (λ cid. sealed_bytes)
      disk-IsContentAddressed
      "pw"
      "a.txt"
      "personal"
      ""
      no_files
      link)
    × (open_shared_file link_service disk "cid" "pw" "a.txt" no_files
        ≡ deferred
            (disk.close_file 0)
            (disk.write_file 0 shared.bytes
              >> (accept_shared_file_link link_user "cid" "pw" "a.txt" "1"
                  >> pure (disk.file_name 0)))
            (create_temp_file_for_path link_service disk "a.txt" no_files).1)
unfolding wait_for_textile_hub create_temp_file_for_path
open_shared_file-generate_file_sharing_link_example =
    open_shared_file-generate_file_sharing_link link_service disk (λ (w : Desk). w.at) disk-AreFiles
      (λ cid. sealed_bytes) disk-IsContentAddressed "pw" "a.txt" "personal" "" "a.txt" no_files link
      no_files sealed_bytes 0 is_shared refl refl refl refl
