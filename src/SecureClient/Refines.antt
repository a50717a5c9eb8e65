-- ===== src/SecureClient/Refines.antt =====
-- core/textile/secure_bucket_client.go as a client of buckets: seen through the decryption, it
-- keeps what a client of buckets promises.
use Prim.Native.String.{[] as empty, ◌∷◌ as ◌::◌}
use space_daemon.Crypto.{
  Keys, Reader, buffer, read_all, sealed, parse_keys, new_decrypt_reader, encrypt_path_items,
}
use space_daemon.Crypto.RoundTrip.{
  AreCiphers, AreSized, item_name, path_name, path_items-encrypt_item, new_encrypt_reader-sealed,
  new_decrypt_reader-sealed,
}
use space_daemon.Exec.{◌>>=◌}
use space_daemon.Outcome.{Result, ok, err}
use space_daemon.Prelude.{
  Char, String, true, false, List, map, Option, some, none, ◌≡◌, refl, ap, sym, ◌∙◌, subst, arith,
  Bool-cases, inl, inr,
}
use space_daemon.Prelude.Text.{char_eq, split, strip}
use space_daemon.SecureClient.{
  SecureBucketClient, clean_bucket_path, encrypt_path, push_path, remove_path,
  get_bucket_encryption_key,
}
use space_daemon.SecureClient.Buckets.{Files, IsBucketClient, Pushed, Removed, names, filled}
use space_daemon.SecureClient.Names.{names-path_name, below-item_name}

clean-slash :
    (c : Char) (path : String) → char_eq "/" c ≡ true → clean_bucket_path (c :: path) ≡ path
unfolding clean_bucket_path strip
clean-slash c path h = ground (arith, h)

clean-other :
    (c : Char) (path : String) → char_eq "/" c ≡ false → clean_bucket_path (c :: path) ≡ (c :: path)
unfolding clean_bucket_path strip
clean-other c path h = ground (arith, h)

names-slash : (c : Char) (path : String) → char_eq c "/" ≡ true → names (c :: path) ≡ names path
unfolding names filled split
names-slash c path h = rw h refl

pub names-clean_bucket_path : (path : String) → names (clean_bucket_path path) ≡ names path
unfolding clean_bucket_path strip
names-clean_bucket_path empty = refl
names-clean_bucket_path (c :: path) = elim (Bool-cases (char_eq "/" c)) [
  | inl e ↦ ap names (clean-slash c path e) ∙ sym (names-slash c path (ground (arith, e)))
  | inr e ↦ ap names (clean-other c path e)
]

module _ {S Byte Roles : Type 0} (c : SecureBucketClient S Byte Roles) (stored : S → Files Byte)
    (laws : AreCiphers c.lib) (keys : Keys Byte) (sized : AreSized keys) where
  abbrev pub ok_only : Result (List Byte) → Option (List Byte)
  ok_only (ok content) = some content
  ok_only (err e) = none

  abbrev pub read_through : Result (Reader Byte) → Option (List Byte)
  read_through (err e) = none
  read_through (ok r) = ok_only (read_all r)

  -- what a message that is stored reads as
  unfoldable pub opened : Option (List Byte) → Option (List Byte)
  opened none = none
  opened (some message) = read_through (new_decrypt_reader c.lib (buffer message) keys)

  abbrev pub name : String → String
  name = item_name c.lib laws keys sized

  -- The files that a state holds for those who have the key.
  unfoldable pub plain_files : S → Files Byte
  plain_files s bucket path = opened (stored s bucket (map name path))

  module _ (key : List Byte) (parsed : parse_keys key ≡ ok keys) (temp : c.lib.temp_file ≡ ok tt)
      (buckets : IsBucketClient c.client stored) where
    pub encrypt_path-path_name :
        (path : String) → encrypt_path c key path ≡ ok (path_name c.lib laws keys sized path)
    unfolding encrypt_path encrypt_path_items
    encrypt_path-path_name path =
        rw (parsed, path_items-encrypt_item c.lib laws keys sized path) refl

    pub names_sent :
        (path : String)
        → names (path_name c.lib laws keys sized (clean_bucket_path path)) ≡ map name (names path)
    names_sent path =
        names-path_name c.lib laws keys sized (clean_bucket_path path)
        ∙ ap (map name) (names-clean_bucket_path path)

    pub opened-sealed :
        (content : List Byte)
        → opened (some (sealed c.lib keys (buffer content)).content) ≡ some content
    unfolding opened
    opened-sealed content =
        ap read_through (new_decrypt_reader-sealed c.lib laws keys sized content temp)

    push_path-sealed :
        (bucket path : String) (content : List Byte) (s : S)
        → push_path c (some key) bucket path (buffer content) s
          ≡ c.client.push_path bucket
              (path_name c.lib laws keys sized (clean_bucket_path path))
              (sealed c.lib keys (buffer content))
              s
    unfolding push_path get_bucket_encryption_key encrypt_path_items ◌>>=◌
    push_path-sealed bucket path content s =
        rw
          (
            parsed,
            path_items-encrypt_item c.lib laws keys sized (clean_bucket_path path),
            new_encrypt_reader-sealed c.lib laws keys sized (buffer content),
          )
          refl

    remove_path-path_name :
        (bucket path : String) (s : S)
        → remove_path c (some key) bucket path s
          ≡ c.client.remove_path bucket (path_name c.lib laws keys sized (clean_bucket_path path)) s
    unfolding remove_path get_bucket_encryption_key ◌>>=◌
    remove_path-path_name bucket path s = rw (encrypt_path-path_name (clean_bucket_path path)) refl

    Pushed-plain :
        (before after : S) (bucket : String) (path : List String) (content : List Byte)
        → Pushed
            (stored before)
            (stored after)
            bucket
            (map name path)
            (sealed c.lib keys (buffer content)).content
        → Pushed (plain_files before) (plain_files after) bucket path content
    unfolding plain_files
    Pushed-plain before after bucket path content h = record {
      here = ap opened h.here ∙ opened-sealed content;
      kept = λ b other apart.
          let down = below-item_name c.lib laws keys sized path other temp in
          let up = below-item_name c.lib laws keys sized other path temp in
          ap opened (h.kept b (map name other) (rw (down, up) apart));
    }

    Removed-plain :
        (before after : S) (bucket : String) (path : List String)
        → Removed (stored before) (stored after) bucket (map name path)
        → Removed (plain_files before) (plain_files after) bucket path
    unfolding plain_files opened
    Removed-plain before after bucket path h = record {
      gone = λ other under.
          let down = below-item_name c.lib laws keys sized path other temp in
          ap opened (h.gone (map name other) (down ∙ under));
      kept = λ b other apart.
          let down = below-item_name c.lib laws keys sized path other temp in
          ap opened (h.kept b (map name other) (rw down apart));
    }

    -- With a key of 80 bytes that is split into `keys`, temporary files that can be made and a client
    -- of the SDK that keeps what it promises: where `push_path` returns, the files that the bucket
    -- holds for those who have the key have the content at the names of the plain path, and are what
    -- they were at all paths that neither lie below it nor lead to it.
    pub push_path-Pushed :
        (bucket path : String) (content : List Byte) (s : S) (r : String × String)
        → (push_path c (some key) bucket path (buffer content) s).0 ≡ ok r
        → Pushed
            (plain_files s)
            (plain_files (push_path c (some key) bucket path (buffer content) s).1)
            bucket
            (names path)
            content
    push_path-Pushed bucket path content s r h =
        let same = push_path-sealed bucket path content s in
        let sent = path_name c.lib laws keys sized (clean_bucket_path path) in
        let message = (sealed c.lib keys (buffer content)).content in
        let raw = buckets.pushed bucket sent message s r (ap (λ p. p.0) (sym same) ∙ h) in
        subst (λ p. Pushed (plain_files s) (plain_files p.1) bucket (names path) content) (sym same)
          (Pushed-plain s _ bucket (names path) content (
            subst
              (λ ns.
                Pushed (stored s) (stored (c.client.push_path bucket sent (buffer message) s).1)
                  bucket ns message)
              (names_sent path) raw))

    -- On the same conditions: where `remove_path` returns, the files that the bucket holds for those
    -- who have the key are gone at the plain path and below it, and are what they were elsewhere.
    pub remove_path-Removed :
        (bucket path : String) (s : S) (r : String)
        → (remove_path c (some key) bucket path s).0 ≡ ok r
        → Removed
            (plain_files s)
            (plain_files (remove_path c (some key) bucket path s).1)
            bucket
            (names path)
    remove_path-Removed bucket path s r h =
        let same = remove_path-path_name bucket path s in
        let sent = path_name c.lib laws keys sized (clean_bucket_path path) in
        let raw = buckets.removed bucket sent s r (ap (λ p. p.0) (sym same) ∙ h) in
        subst (λ p. Removed (plain_files s) (plain_files p.1) bucket (names path)) (sym same)
          (Removed-plain s _ bucket (names path) (
            subst
              (λ ns. Removed (stored s) (stored (c.client.remove_path bucket sent s).1) bucket ns)
              (names_sent path) raw))
