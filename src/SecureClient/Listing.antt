-- ===== src/SecureClient/Listing.antt =====
-- core/textile/secure_bucket_client.go: the items of a listing, decrypted.
use Prim.Native.String.append
use Prim.Native.String.{[] as empty, ◌∷◌ as ◌::◌}
use space_daemon.Bucket.{Item, is_meta_file_name}
use space_daemon.Crypto.{Keys, parse_keys, decrypt_path_items, path_items}
use space_daemon.Crypto.Paths.{squeeze}
use space_daemon.Crypto.RoundTrip.{AreCiphers, AreSized, path_name, path_items-decrypt_item}
use space_daemon.Outcome.{Result, ok}
use space_daemon.Prelude.{
  Char, ◌+◌, ◌-◌, ℕ, String, ◌<>◌, true, false, some, leb, ◌≡◌, refl, ap, sym, ◌∙◌, arith,
  Bool-cases, inl, inr, List,
}
use space_daemon.Prelude.Text.{char_eq, from_char, lacks, split, strip, strip-append}
use space_daemon.SecureClient.{
  SecureBucketClient, decrypt_path, first_some, rel_path_at, rel_path, placed_at, sized, with_path,
  overwrite_decrypted_item,
}

-- What follows the CID in a path of IPFS.
from_char-append :
    (cid rest : String)
    → lacks "/" cid ≡ true
    → from_char "/" (cid <> ("/" :: rest)) ≡ some ("/" :: rest)
unfolding from_char lacks
from_char-append empty rest h = rw (append.nil ("/" :: rest)) refl
from_char-append (c :: cid) rest h = elim (Bool-cases (char_eq "/" c)) [
  | inl e ↦ ground (arith, h, e)
  | inr e ↦
      let f : char_eq c "/" ≡ false = ground (arith, e) in
      rw (append.cons c cid ("/" :: rest), f) (from_char-append cid rest (rw e at h))
]

rel_path_at-ipfs :
    (text tail rest : String)
    → strip "/ipfs/" text ≡ some tail
    → from_char "/" tail ≡ some rest
    → rel_path_at text ≡ some rest
rel_path_at-ipfs text tail rest h k = rw (h, k) refl

rel_path-found :
    (c : Char) (text rest : String)
    → rel_path_at (c :: text) ≡ some rest
    → rel_path (c :: text) ≡ some rest
unfolding rel_path strip from_char
rel_path-found c text rest h = ap (λ o. first_some o (rel_path text)) h

rel_path-ipfs :
    (cid rest : String)
    → lacks "/" cid ≡ true
    → rel_path ("/ipfs/" <> (cid <> ("/" :: rest))) ≡ some ("/" :: rest)
rel_path-ipfs cid rest h =
    let tail = cid <> ("/" :: rest) in
    ap rel_path (append.cons "/" "ipfs/" tail)
    ∙ rel_path-found "/" ("ipfs/" <> tail) ("/" :: rest) (
        ap rel_path_at (sym (append.cons "/" "ipfs/" tail))
        ∙ rel_path_at-ipfs ("/ipfs/" <> tail) tail ("/" :: rest) (strip-append "/ipfs/" tail)
            (from_char-append cid rest h))

module _ {S Byte Roles : Type 0} (c : SecureBucketClient S Byte Roles) (laws : AreCiphers c.lib)
    (keys : Keys Byte) (sized_keys : AreSized keys) (key : List Byte)
    (parsed : parse_keys key ≡ ok keys) (temp : c.lib.temp_file ≡ ok tt) where
  decrypt_path-path_name :
      (path : String)
      → decrypt_path c key (path_name c.lib laws keys sized_keys path) ≡ ok (squeeze true path)
  unfolding decrypt_path decrypt_path_items
  decrypt_path-path_name path =
      rw (parsed, path_items-decrypt_item c.lib laws keys sized_keys path temp) refl

  -- a slash in front of a path counts for nothing
  decrypt_path-slash :
      (path : String)
      → decrypt_path c key ("/" :: path_name c.lib laws keys sized_keys path)
        ≡ ok (squeeze true path)
  unfolding decrypt_path decrypt_path_items path_items split
  decrypt_path-slash path =
      rw (parsed, path_items-decrypt_item c.lib laws keys sized_keys path temp) refl

  sized-ok :
      (item : Item) (size : ℕ) → item.size ≡ size + 64 → sized c item ≡ record item { size = size }
  sized-ok item size measured =
      let long : leb 64 item.size ≡ true = ground (arith, measured) in
      let rest : item.size - 64 ≡ size = omega (arith, measured) in rw (long, rest) refl

  with_path-ok :
      (item : Item) (rel p : String) (size : ℕ) (decrypt : String → Result String)
      → decrypt rel ≡ ok p
      → item.size ≡ size + 64
      → with_path c item (some rel) decrypt ≡ record item { path = p; size = size }
  with_path-ok item rel p size decrypt h measured =
      ap (placed_at c item) h ∙ sized-ok (record item { path = p }) size measured

  -- With a key that is split into `keys` and temporary files that can be made: an item, not of a meta
  -- file, that lists a file as it was pushed, with its encrypted name, the encrypted path behind
  -- the CID and the size of its content and the code, is shown with the name, the path and the size
  -- of the content.
  pub overwrite_decrypted_item-path_name :
      (item : Item) (name cid path : String) (size : ℕ)
      → lacks "/" cid ≡ true
      → is_meta_file_name item.name ≡ false
      → item.name ≡ path_name c.lib laws keys sized_keys name
      → item.path ≡ "/ipfs/" <> (cid <> ("/" :: path_name c.lib laws keys sized_keys path))
      → item.size ≡ size + 64
      → overwrite_decrypted_item c key item
        ≡ record item { name = squeeze true name; path = squeeze true path; size = size }
  unfolding overwrite_decrypted_item
  overwrite_decrypted_item-path_name item name cid path size plain_cid regular named placed
        measured =
      let shown : decrypt_path c key item.name ≡ ok (squeeze true name) =
        ap (decrypt_path c key) named ∙ decrypt_path-path_name name in
      let found =
        ap rel_path placed
        ∙ rel_path-ipfs cid (path_name c.lib laws keys sized_keys path) plain_cid in
      rw (regular, shown, found)
        (with_path-ok (record item { name = squeeze true name })
          ("/" :: path_name c.lib laws keys sized_keys path) (squeeze true path) size
          (decrypt_path c key) (decrypt_path-slash path) measured)
