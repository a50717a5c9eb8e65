-- ===== src/Sharing/Opened.antt =====
-- That a file which core/space/services/services_sharing.go has shared by a link is opened again.
use space_daemon.Exec.{pure, ◌>>=◌, ◌>>◌}
use space_daemon.Exec.Returns.{bind-step}
use space_daemon.Outcome.{ok, ok-injective}
use space_daemon.Prelude.{ℕ, String, false, str_eq, List, length, ◌≡◌, refl, ap, sym, ◌∙◌}
use space_daemon.Sharing.Entries.{accept_shared_file_link}
use space_daemon.Sharing.Invites.{Space, wait_for_textile_hub}
use space_daemon.Sharing.Links.{
  Disk, FileSharingInfo, create_temp_file_for_path, deferred, shared_bucket,
  generate_file_sharing_link, keep_plain, open_shared_file, password_for,
  upload_shared_file_to_ipfs,
}
use space_daemon.Sharing.Sealed.{File, AreFiles, both_made, encrypt_bucket_file-IsKept}

-- A CID determines what is stored under it, and a password decrypts what it has encrypted.
pub record IsContentAddressed {W B F : Type 0} (D : Disk W B F) (content : String → List ℕ)
    : Type 0 where
  pub uploaded :
      (b : B) (name : String) (bytes : List ℕ) (w : W) (cid : String)
      → (D.upload_file b name bytes w).0 ≡ ok cid
      → content cid ≡ bytes
  pub parsed :
      (b : B) (name : String) (bytes : List ℕ) (w : W) (cid : String)
      → (D.upload_file b name bytes w).0 ≡ ok cid
      → D.parse_cid cid ≡ ok cid
  pub downloaded :
      (cid : String) (w : W) (bytes : List ℕ)
      → (D.download_public_item cid w).0 ≡ ok bytes
      → bytes ≡ content cid
  pub accepts :
      (bytes : List ℕ) (password : String) (w : W) (sealed : List ℕ)
      → (D.encrypt bytes password w).0 ≡ ok sealed
      → D.new_decrypter sealed password ≡ ok tt
  pub decrypts :
      (bytes : List ℕ) (password : String) (w : W) (sealed : List ℕ)
      → (D.encrypt bytes password w).0 ≡ ok sealed
      → D.decrypted sealed password ≡ ok bytes

module _ {W Ctx Pk Key B F : Type 0} (S : Space W Ctx Pk Key) (D : Disk W B F)
    (files : W → F → File) (disk : AreFiles D files) (content : String → List ℕ)
    (laws : IsContentAddressed D content) where
  -- What the link stands for is what the bucket of that name, or of that remote database, gives for the
  -- path, once two temporary files have been made.
  pub record IsShared (password path bucket_name db_id : String) (w : W) (info : FileSharingInfo)
      : Type 0 where
    pub bucket : B
    pub found : (shared_bucket S D bucket_name db_id path w).0 ≡ ok bucket
    pub bytes : List ℕ
    pub got :
        (D.get_file bucket path
          (both_made S D files disk path (shared_bucket S D bucket_name db_id path w).1)).0
        ≡ ok bytes
    pub key : info.shared_file_key ≡ password
    pub parsed : D.parse_cid info.shared_file_cid ≡ ok info.shared_file_cid
    pub accepted : D.new_decrypter (content info.shared_file_cid) password ≡ ok tt
    pub decrypted : D.decrypted (content info.shared_file_cid) password ≡ ok bytes

  generate_file_sharing_link-IsShared :
      (password path bucket_name db_id : String) (w : W) (info : FileSharingInfo)
      → (generate_file_sharing_link S D password path bucket_name db_id w).0 ≡ ok info
      → IsShared password path bucket_name db_id w info
  unfolding generate_file_sharing_link upload_shared_file_to_ipfs pure
  generate_file_sharing_link-IsShared password path bucket_name db_id w info h =
      let (bucket, found, h1) = bind-step _ _ w info h in
      let (out, encrypted, h2) = bind-step _ _ _ info h1 in
      let (u, rewound, h3) = bind-step (D.rewind out) _ _ info h2 in
      let (b, public, h4) = bind-step D.get_public_share_bucket _ _ info h3 in
      let (time, timed, h5) = bind-step D.unix_nano _ _ info h4 in
      let (shared, taken, h6) = bind-step (D.read_file out) _ _ info h5 in
      let (cid, uploaded, h7) = bind-step _ _ _ info h6 in
      let e = encrypt_bucket_file-IsKept S D files disk password path bucket _ out encrypted in
      let read : shared ≡ e.kept.sealed =
        disk.read out shared _ taken
        ∙ ap (λ (f : File). f.unread)
            (disk.timing _ out
              ∙ (disk.finding _ out ∙ disk.rewound out e.kept.sealed _ e.kept.holds rewound)) in
      let same = ok-injective h7 in
      let named : info.shared_file_cid ≡ cid = ap (λ i. i.shared_file_cid) (sym same) in
      let stored : content info.shared_file_cid ≡ e.kept.sealed =
        ap content named ∙ (laws.uploaded b _ shared _ cid uploaded ∙ read) in
      record {
        bucket = bucket;
        found = found;
        bytes = e.bytes;
        got = e.got;
        key = ap (λ i. i.shared_file_key) (sym same);
        parsed = rw named (laws.parsed b _ shared _ cid uploaded);
        accepted = rw stored (laws.accepts e.bytes password e.kept.world e.kept.sealed e.kept.by);
        decrypted = rw stored (laws.decrypts e.bytes password e.kept.world e.kept.sealed e.kept.by);
      }

  -- What a link stands for is opened: with the hub there, the download and the temporary file.
  open_shared_file-IsShared :
      (password path bucket_name db_id name : String) (info : FileSharingInfo) (v : W)
      (shared : IsShared password path bucket_name db_id v info) (w : W) (sealed : List ℕ) (f : F)
      → str_eq password "" ≡ false
      → (wait_for_textile_hub S w).0 ≡ ok tt
      → (D.download_public_item info.shared_file_cid (wait_for_textile_hub S w).1).0 ≡ ok sealed
      → (create_temp_file_for_path S D name
          (D.download_public_item info.shared_file_cid (wait_for_textile_hub S w).1).1).0
        ≡ ok f
      → open_shared_file S D info.shared_file_cid password name w
        ≡ deferred
            (D.close_file f)
            (keep_plain S D f info.shared_file_cid password name shared.bytes)
            (create_temp_file_for_path S D name
              (D.download_public_item info.shared_file_cid (wait_for_textile_hub S w).1).1).1
  unfolding open_shared_file password_for deferred ◌>>=◌
  open_shared_file-IsShared password path bucket_name db_id name info v shared w sealed f given
        there downloaded temp =
      let same = laws.downloaded _ _ sealed downloaded in
      let accepted : D.new_decrypter sealed password ≡ ok tt = rw same shared.accepted in
      let decrypted : D.decrypted sealed password ≡ ok shared.bytes = rw same shared.decrypted in
      rw (shared.parsed, there, given, downloaded, temp, accepted, decrypted) refl

  -- Where a file was shared by a link with a password, opening the link with the CID and the key of the
  -- link writes into the new temporary file what the bucket of the file gave for its path when it was
  -- shared, and adds the link to the received files: where the hub is reached, the download returns and
  -- the file is created, with temporary files as the operating system has them.
  pub open_shared_file-generate_file_sharing_link :
      (password path bucket_name db_id name : String) (w : W) (info : FileSharingInfo) (w' : W)
      (sealed : List ℕ) (f : F)
      → (generate_file_sharing_link S D password path bucket_name db_id w).0 ≡ ok info
      → str_eq password "" ≡ false
      → (wait_for_textile_hub S w').0 ≡ ok tt
      → (D.download_public_item info.shared_file_cid (wait_for_textile_hub S w').1).0 ≡ ok sealed
      → (create_temp_file_for_path S D name
          (D.download_public_item info.shared_file_cid (wait_for_textile_hub S w').1).1).0
        ≡ ok f
      → (shared : IsShared password path bucket_name db_id w info) × (open_shared_file S D
            info.shared_file_cid info.shared_file_key name w'
          ≡ deferred
              (D.close_file f)
              (D.write_file f shared.bytes
                >> (accept_shared_file_link S.tc info.shared_file_cid password name
                      (S.tc.format_int (length shared.bytes))
                    >> pure (D.file_name f)))
              (create_temp_file_for_path S D name
                (D.download_public_item info.shared_file_cid (wait_for_textile_hub S w').1).1).1)
  open_shared_file-generate_file_sharing_link password path bucket_name db_id name w info w' sealed
        f h given there downloaded temp =
      let shared = generate_file_sharing_link-IsShared password path bucket_name db_id w info h in
      (
        shared,
        ap (λ key. open_shared_file S D info.shared_file_cid key name w') shared.key
            ∙ open_shared_file-IsShared password path bucket_name db_id name info w shared w' sealed
                f given there downloaded temp,
      )
