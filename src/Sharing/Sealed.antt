-- ===== src/Sharing/Sealed.antt =====
-- core/space/services/services_sharing.go: what a file of a bucket becomes on its way through the temporary
-- files.
use space_daemon.Exec.{pure}
use space_daemon.Exec.Returns.{bind-through}
use space_daemon.Outcome.{ok, ok-injective}
use space_daemon.Prelude.{ℕ, String, List, [], ◌++◌, ◌≡◌, ◌≢◌, ap, sym, ◌∙◌, subst}
use space_daemon.Sharing.Invites.{Space}
use space_daemon.Sharing.Links.{
  Disk, create_temp_file_for_path, deferred, encrypt_into, encrypt_from, encrypt_bucket_file,
}

-- what was written to a file, and what of it follows the place where it stands
pub record File : Type 0 where
  pub content : List ℕ
  pub unread : List ℕ

abbrev pub at_end : List ℕ → File
at_end bytes = record { content = bytes; unread = [] }

abbrev pub at_start : List ℕ → File
at_start bytes = record { content = bytes; unread = bytes }

-- What the calls of package os do to open files, and that the other calls leave them alone.
pub record AreFiles {W B F : Type 0} (D : Disk W B F) (files : W → F → File) : Type 0 where
  pub made :
      (pattern : String) (w : W) (f : F)
      → (D.temp_file pattern w).0 ≡ ok f
      → files (D.temp_file pattern w).1 f ≡ at_end []
  pub apart :
      (p q : String) (w : W) (f g : F)
      → (D.temp_file p w).0 ≡ ok f
      → (D.temp_file q (D.temp_file p w).1).0 ≡ ok g
      → (f ≢ g) × (files (D.temp_file q (D.temp_file p w).1).1 f ≡ files (D.temp_file p w).1 f)
  pub appended :
      (f : F) (bytes old : List ℕ) (w : W)
      → files w f ≡ at_end old
      → (D.write_file f bytes w).0 ≡ ok tt
      → files (D.write_file f bytes w).1 f ≡ at_end (old ++ bytes)
  pub writing :
      (f g : F) (bytes : List ℕ) (w : W) → f ≢ g → files (D.write_file f bytes w).1 g ≡ files w g
  pub rewound :
      (f : F) (bytes : List ℕ) (w : W)
      → files w f ≡ at_end bytes
      → (D.rewind f w).0 ≡ ok tt
      → files (D.rewind f w).1 f ≡ at_start bytes
  pub rewinding : (f g : F) (w : W) → f ≢ g → files (D.rewind f w).1 g ≡ files w g
  pub read :
      (f : F) (bytes : List ℕ) (w : W) → (D.read_file f w).0 ≡ ok bytes → bytes ≡ (files w f).unread
  pub reading : (f g : F) (w : W) → f ≢ g → files (D.read_file f w).1 g ≡ files w g
  pub removing : (f g : F) (w : W) → f ≢ g → files (D.remove_file f w) g ≡ files w g
  pub getting :
      (b : B) (path : String) (w : W) (f : F) → files (D.get_file b path w).1 f ≡ files w f
  pub encrypting :
      (bytes : List ℕ) (password : String) (w : W) (f : F)
      → files (D.encrypt bytes password w).1 f ≡ files w f
  pub finding : (w : W) (f : F) → files (D.get_public_share_bucket w).1 f ≡ files w f
  pub timing : (w : W) (f : F) → files (D.unix_nano w).1 f ≡ files w f

module _ {W Ctx Pk Key B F : Type 0} (S : Space W Ctx Pk Key) (D : Disk W B F)
    (files : W → F → File) (laws : AreFiles D files) where
  -- the file holds the bytes, encrypted
  pub record IsSealed (bytes : List ℕ) (password : String) (file : File) : Type 0 where
    pub sealed : List ℕ
    pub world : W
    pub by : (D.encrypt bytes password world).0 ≡ ok sealed
    pub holds : file ≡ at_end sealed

  encrypt_into-IsSealed :
      (temp encrypted : F) (bytes : List ℕ) (password : String) (w : W)
      → temp ≢ encrypted
      → files w temp ≡ at_end bytes
      → files w encrypted ≡ at_end []
      → (encrypt_into S D temp encrypted password w).0 ≡ ok tt
      → IsSealed bytes password (files (encrypt_into S D temp encrypted password w).1 encrypted)
  encrypt_into-IsSealed temp encrypted bytes password w differ full fresh h =
      let (u, r, h1, s1) = bind-through (D.rewind temp) _ w tt h in
      let (plain, rd, h2, s2) = bind-through (D.read_file temp) _ _ tt h1 in
      let (sealed, by, h3, s3) = bind-through (D.encrypt plain password) _ _ tt h2 in
      let same : plain ≡ bytes =
        laws.read temp plain _ rd
        ∙ ap (λ (f : File). f.unread) (laws.rewound temp bytes w full r) in
      let still =
        laws.encrypting plain password _ encrypted
        ∙ (laws.reading temp encrypted _ differ
            ∙ (laws.rewinding temp encrypted w differ ∙ fresh)) in
      record {
        sealed = sealed;
        world = _;
        by =
            subst
              (λ b. (D.encrypt b password (D.read_file temp (D.rewind temp w).1).1).0 ≡ ok sealed)
              same by;
        holds =
            ap (λ t. files t encrypted) (s1 ∙ (s2 ∙ s3))
            ∙ laws.appended encrypted sealed [] _ still h3;
      }

  -- the state in which the bucket is read: two temporary files have been made
  abbrev pub both_made : String → W → W
  both_made path w = (create_temp_file_for_path S D path (create_temp_file_for_path S D path w).1).1

  -- the bytes that the bucket gives for the path, and that they are sealed in a file
  pub record IsKept (bucket : B) (path password : String) (w : W) (file : File) : Type 0 where
    pub bytes : List ℕ
    pub got : (D.get_file bucket path (both_made path w)).0 ≡ ok bytes
    pub kept : IsSealed bytes password file

  moved_to :
      (bytes : List ℕ) (password : String) {f g : F} {s t : W}
      → f ≡ g
      → t ≡ s
      → IsSealed bytes password (files s f)
      → IsSealed bytes password (files t g)
  moved_to bytes password {f} {g} {s} {t} e same h =
      subst (λ u. IsSealed bytes password (files u g)) (sym same)
        (subst (λ x. IsSealed bytes password (files s x)) e h)

  encrypt_from-IsKept :
      (temp : F) (password path : String) (bucket : B) (w : W) (out : F)
      → (create_temp_file_for_path S D path w).0 ≡ ok temp
      → (encrypt_from S D temp password path bucket (create_temp_file_for_path S D path w).1).0
        ≡ ok out
      → (temp ≢ out)
        × IsKept bucket path password w (
            files
              (encrypt_from S D temp password path bucket
                (create_temp_file_for_path S D path w).1).1
              out)
  unfolding create_temp_file_for_path pure
  encrypt_from-IsKept temp password path bucket w out m h =
      let (encrypted, m', h1, s1) = bind-through (create_temp_file_for_path S D path) _ _ out h in
      let (bytes, got, h2, s2) = bind-through (D.get_file bucket path) _ _ out h1 in
      let (u, wr, h3, s3) = bind-through (D.write_file temp bytes) _ _ out h2 in
      let (v, into, h4, s4) = bind-through (encrypt_into S D temp encrypted password) _ _ out h3 in
      let (differ, still) = laws.apart _ _ w temp encrypted m m' in
      let full =
        laws.appended temp bytes [] _
          (laws.getting bucket path _ temp ∙ (still ∙ laws.made _ w temp m)) wr in
      let fresh =
        laws.writing temp encrypted bytes _ differ
        ∙ (laws.getting bucket path _ encrypted ∙ laws.made _ _ encrypted m') in
      let sealed = encrypt_into-IsSealed temp encrypted bytes password _ differ full fresh into in
      let same = ok-injective h4 in
      (
        subst (λ f. temp ≢ f) same differ,
        record {
          bytes = bytes;
          got = got;
          kept = moved_to bytes password same (s1 ∙ (s2 ∙ (s3 ∙ s4))) sealed;
        },
      )

  -- What the bucket gives for the path is sealed in the file that is returned.
  pub encrypt_bucket_file-IsKept :
      (password path : String) (bucket : B) (w : W) (out : F)
      → (encrypt_bucket_file S D password path bucket w).0 ≡ ok out
      → IsKept bucket path password w (files (encrypt_bucket_file S D password path bucket w).1 out)
  unfolding encrypt_bucket_file deferred
  encrypt_bucket_file-IsKept password path bucket w out h =
      let (temp, m, h1, s1) = bind-through (create_temp_file_for_path S D path) _ w out h in
      let (differ, kept) = encrypt_from-IsKept temp password path bucket w out m h1 in
      subst (IsKept bucket path password w)
        (sym (ap (λ t. files t out) s1 ∙ laws.removing temp out _ differ)) kept
