-- ===== src/SecureClient/Pulls.antt =====
-- core/textile/secure_bucket_client.go, PullPath: what is pulled is the file, decrypted.
use space_daemon.Crypto.{
  Keys, Reader, buffer, read_all, parse_keys, new_decrypt_reader, decrypt_path_items, path_items,
}
use space_daemon.Crypto.RoundTrip.{AreCiphers, AreSized, path_name}
use space_daemon.Exec.{Exec, lift, ◌>>=◌}
use space_daemon.Exec.Returns.{bind-step}
use space_daemon.Outcome.{Result, ok, err, ◌>>=◌ as ◌then◌}
use space_daemon.Prelude.{String, true, false, List, Option, some, none, ◌≡◌, refl, ap, sym, ◌∙◌}
use space_daemon.Prelude.Text.{split}
use space_daemon.SecureClient.{SecureBucketClient, get_bucket_encryption_key}
use space_daemon.SecureClient.Pulling.{Puller, any_pull, race_pull_file, pull_path, content_of}
use space_daemon.SecureClient.Available.{has_client, race_pull_file-returns}
use space_daemon.SecureClient.Buckets.{Files, IsBucketClient, IsContentAddressed, names}
use space_daemon.SecureClient.Cache.{IsCoherent}
use space_daemon.SecureClient.Names.{names-path_name}
use space_daemon.SecureClient.Races.{race_pull_file-right}
use space_daemon.SecureClient.Refines.{
  ok_only, opened, read_through, plain_files, encrypt_path-path_name,
}

module _ {A : Type 0} where
  kept_ok :
      (r : Result A) {content : A}
      → elim r as (λ _. Option A) [ ok x ↦ some x | err e ↦ none ] ≡ some content
      → r ≡ ok content
  kept_ok (ok x) h = cc h
  kept_ok (err e) h = absurd (cc h)

module _ {S Byte Roles : Type 0} (c : SecureBucketClient S Byte Roles) (stored : S → Files Byte)
    (addressed held : String → Option (List Byte)) (laws : AreCiphers c.lib) (keys : Keys Byte)
    (sized : AreSized keys) (key : List Byte) (parsed : parse_keys key ≡ ok keys)
    (temp : c.lib.temp_file ≡ ok tt) (buckets : IsBucketClient c.client stored)
    (ipfs : IsContentAddressed c.client stored addressed held) where
  read_back :
      (r : Result (Reader Byte)) (content : List Byte) (s : S)
      → ((lift {S = S} (r then λ x. ok ("", some x)) >>= λ read. lift (content_of c read)) s).0
        ≡ ok content
      → read_through c stored laws keys sized r ≡ some content
  unfolding lift ◌>>=◌
  read_back (err e) content s h = absurd (cc h)
  read_back (ok x) content s h = ap (ok_only c stored laws keys sized) h

  pub decrypt_path_items-data :
      (message : List Byte)
      → decrypt_path_items c.lib key "" (some (buffer message))
        ≡ (new_decrypt_reader c.lib (buffer message) keys then λ x. ok ("", some x))
  unfolding decrypt_path_items path_items split
  decrypt_path_items-data message = rw parsed refl

  -- the rest of `pull_path`, behind the encryption of the path
  abbrev pub pulled : Puller × List Puller → List Puller → String → String → Exec S (List Byte)
  pulled order late bucket sent = race_pull_file c order late bucket sent >>= λ message.
      lift (decrypt_path_items c.lib key "" (some (buffer message))) >>= λ read.
      lift (content_of c read)

  pub pull_path-path_name :
      (order : Puller × List Puller) (late : List Puller) (bucket path : String) (s : S)
      → pull_path c order late (some key) bucket path s
        ≡ pulled order late bucket (path_name c.lib laws keys sized path) s
  unfolding pull_path get_bucket_encryption_key ◌>>=◌
  pull_path-path_name order late bucket path s =
      rw (encrypt_path-path_name c stored laws keys sized key parsed temp buckets path) refl

  -- Where the client of the SDK keeps what it promises, CIDs address contents and the cache is
  -- coherent: a content that `pull_path` returns is that of the file that the bucket holds for those
  -- who have the key, whichever pull wins.
  pub pull_path-plain :
      (order : Puller × List Puller) (late : List Puller) (bucket path : String)
      (content : List Byte) (s : S)
      → IsCoherent c stored addressed held s
      → (pull_path c order late (some key) bucket path s).0 ≡ ok content
      → plain_files c stored laws keys sized s bucket (names path) ≡ some content
  unfolding plain_files opened
  pull_path-plain order late bucket path content s coherent h =
      let sent = path_name c.lib laws keys sized path in
      let h0 = ap (λ p. p.0) (sym (pull_path-path_name order late bucket path s)) ∙ h in
      let (message, raced, h1) =
        bind-step (race_pull_file c order late bucket sent) _ s content h0 in
      let right =
        race_pull_file-right c stored addressed held buckets ipfs order late bucket sent s message
          coherent raced in
      ap (opened c stored laws keys sized)
        (ap (stored s bucket) (sym (names-path_name c.lib laws keys sized path)) ∙ right)
      ∙ read_back _ content _ (rw (decrypt_path_items-data message) at h1)

  read_forth :
      (r : Result (Reader Byte)) (content : List Byte) (s : S)
      → read_through c stored laws keys sized r ≡ some content
      → ((lift {S = S} (r then λ x. ok ("", some x)) >>= λ read. lift (content_of c read)) s).0
        ≡ ok content
  unfolding lift ◌>>=◌
  read_forth (err e) content s h = absurd (cc h)
  read_forth (ok x) content s h = kept_ok (read_all x) h

  -- Where the bucket is a local one, the cache is coherent, the race has the client's pull, no pull
  -- beside the winner succeeds before the others are cancelled, the files that the race needs can be
  -- made and opened, and the client of the SDK reads the encrypted path, `pull_path` returns the file
  -- that the bucket holds for those who have the key, whichever pull wins.
  pub pull_path-returns :
      (order : Puller × List Puller) (late : List Puller) (bucket path : String)
      (message content : List Byte) (s : S)
      → c.is_remote ≡ false
      → IsCoherent c stored addressed held s
      → has_client order.0 order.1 ≡ true
      → (any_pull c late bucket (path_name c.lib laws keys sized path) s).0 ≡ ok false
      → c.client.temp_file ≡ ok tt
      → c.client.reopen ≡ ok tt
      → (c.client.pull_path bucket (path_name c.lib laws keys sized path) s).0 ≡ ok message
      → plain_files c stored laws keys sized s bucket (names path) ≡ some content
      → (pull_path c order late (some key) bucket path s).0 ≡ ok content
  unfolding plain_files opened ◌>>=◌
  pull_path-returns order late bucket path message content s local coherent has free files reopen
        read held? =
      let sent = path_name c.lib laws keys sized path in
      let raced =
        race_pull_file-returns c stored addressed held buckets ipfs local bucket sent s message
          coherent read order late has free files reopen in
      let known =
        ap (stored s bucket) (sym (names-path_name c.lib laws keys sized path))
        ∙ buckets.pulled bucket sent s message read in
      let plain = sym (ap (opened c stored laws keys sized) known) ∙ held? in
      ap (λ p. p.0) (pull_path-path_name order late bucket path s)
      ∙ rw (raced, decrypt_path_items-data message) (read_forth _ content _ plain)
