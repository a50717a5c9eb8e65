-- ===== src/Backup/Tests.antt =====
-- Files and a vault in memory, in the store of the keychain's test device.
mod Runs
use Prim.Native.String.{[] as empty, ◌∷◌ as ◌::◌}
use space_daemon.Backup.{
  Backup, Disk, Space, create_local_keys_backup, import_and_restore, recover_keys_by_local_backup,
  recover_keys_by_passphrase, backup_keys_by_passphrase, marshal_backup, decode_hex, separator,
}
use space_daemon.Backup.Recovered.{
  IsDisk, IsKeyCoding, recover_keys_by_local_backup-create_local_keys_backup,
}
use space_daemon.Backup.Vaulted.{granted, recover_keys_by_passphrase-backup_keys_by_passphrase}
use space_daemon.Exec.{Exec, ◌>>=◌}
use space_daemon.Keychain.Generate.{get_stored_key_pair}
use space_daemon.Keychain.Pairs.{Bytes, Cryptography, Keychain, get_stored_mnemonic}
use space_daemon.Keychain.Tests.{Disk as Machine, in_memory, plain, after_pair}
use space_daemon.Outcome.{Result, ok, err, external, panic}
use space_daemon.Prelude.{
  ℕ, zero, suc, ◌<◌, String, Bool, true, false, ◌&&◌, List, [], ◌∷◌, Option, some, none, replicate,
  length, ltb, str_eq, eq_iff, eq_refl, if◌then◌else◌, ◌≡◌, refl, ap, sym, ◌∙◌, subst, arith,
  Bool-cases, inl, inr,
}
use space_daemon.Prelude.Hex
use space_daemon.Prelude.Map.{lookup, insert, lookup-insert}
use space_daemon.Prelude.Text.{char_eq, cut}
use space_daemon.Vault.{
  Vault, VaultItem, VaultItemType, StoreVaultRequest, Response, Web, password,
  private_key_with_mnemonic, store, retrieve, parse_api_response,
}
use space_daemon.Vault.RoundTrip.{IsVaultService, retrieve-store}
use space_daemon.Vault.Seal.{Gcm, IsGcm}

-- Numbers in strokes, each ended by a dot.
abbrev strokes : ℕ → String → String
strokes zero s = "." :: s
strokes (suc n) s = "i" :: strokes n s

abbrev encode : List ℕ → String
encode [] = ""
encode (n ∷ ns) = strokes n (encode ns)

abbrev one_more : List ℕ → List ℕ
one_more [] = []
one_more (n ∷ ns) = suc n ∷ ns

abbrev decode : String → List ℕ
decode empty = []
decode (c :: s) = if char_eq c "." then zero ∷ decode s else one_more (decode s)

decode-strokes : (n : ℕ) (s : String) → decode (strokes n s) ≡ n ∷ decode s
decode-strokes zero s = refl
decode-strokes (suc n) s = ap one_more (decode-strokes n s)

decode-encode : (ns : List ℕ) → decode (encode ns) ≡ ns
decode-encode [] = refl
decode-encode (n ∷ ns) = decode-strokes n (encode ns) ∙ ap (λ l. n ∷ l) (decode-encode ns)

-- a value that has one form only
abbrev only : String → String → Result (List ℕ)
only known s = if str_eq s known then ok (1 ∷ []) else err (external "json")

only-ok : (known s : String) (json : List ℕ) → only known s ≡ ok json → known ≡ s
only-ok known s json h = elim (Bool-cases (str_eq s known)) [
  | inl e ↦ sym ((eq_iff s known).0 e)
  | inr e ↦ absurd (cc (rw e at h))
]

abbrev fives : ℕ → List ℕ
fives zero = []
fives (suc n) = 5 ∷ fives n

length-fives : (n : ℕ) → length (fives n) ≡ n
length-fives zero = refl
length-fives (suc n) = ap suc (length-fives n)

abbrev open_box : Gcm Machine ℕ
open_box = record {
  new_gcm = λ key. ok tt;
  nonce_size = 12;
  read_random = λ n w. (ok (fives n), w);
  gcm_seal = λ key nonce content. content;
  gcm_open = λ key nonce content. ok content;
}

open_box-IsGcm : IsGcm open_box
open_box-IsGcm = record {
  random_length =
      λ n w nonce h. let e : fives n ≡ nonce = cc h in ap length (sym e) ∙ length-fives n;
  open_seal = λ key nonce content. refl;
}

abbrev file_in : Option (List ℕ) → Result (List ℕ)
file_in none = err (external "no file")
file_in (some content) = ok content

abbrev disk : Disk Machine ℕ
disk = record {
  marshal_json = λ b. only "07" b.private_key;
  unmarshal_json = λ json. ok (record { private_key = "07" });
  write_file = λ path content w. (ok tt, record w { store = insert path content w.store });
  read_file = λ path w. (file_in (lookup path w.store), w);
  static_key = [];
  gcm = open_box;
}

disk-IsDisk : IsDisk disk
disk-IsDisk = record {
  unmarshal-marshal = λ b json h.
      ap (λ (k : String). ok (record { private_key = k })) (only-ok "07" b.private_key json h);
  read-write = λ path content w h. rw (lookup-insert path path content w.store, eq_refl path) refl;
  reading = λ path w. refl;
}

abbrev marshal_one : List VaultItem → Result (List ℕ)
marshal_one [] = err (external "json")
marshal_one (item ∷ []) = only "07___words" item.value
marshal_one (item ∷ (next ∷ items)) = err (external "json")

abbrev unmarshal_one : List ℕ → Result (List VaultItem)
unmarshal_one json =
    ok (record { item_type = private_key_with_mnemonic; value = "07___words" } ∷ [])

only_type : (t : VaultItemType) → private_key_with_mnemonic ≡ t
only_type private_key_with_mnemonic = refl

unmarshal_one-marshal_one :
    (items : List VaultItem) (json : List ℕ)
    → marshal_one items ≡ ok json
    → unmarshal_one json ≡ ok items
unmarshal_one-marshal_one [] json h = absurd (cc h)
unmarshal_one-marshal_one (item ∷ []) json h =
    let same_type = only_type item.item_type in
    let same_value = only-ok "07___words" item.value json h in
    λ i. ok (record { item_type = same_type i; value = same_value i } ∷ [])
unmarshal_one-marshal_one (item ∷ (next ∷ items)) json h = absurd (cc h)

abbrev marshal_vault : String → Result (List ℕ)
marshal_vault text =
    if str_eq (encode (decode text)) text then ok (decode text) else err (external "json")

encode-marshal_vault :
    (text : String) (json : List ℕ) → marshal_vault text ≡ ok json → encode json ≡ text
encode-marshal_vault text json h = elim (Bool-cases (str_eq (encode (decode text)) text)) [
  | inl e ↦
      let same : decode text ≡ json = cc (rw e at h) in
      ap encode (sym same) ∙ (eq_iff (encode (decode text)) text).0 e
  | inr e ↦ absurd (cc (rw e at h))
]

abbrev web : Web Machine ℕ
web = record {
  marshal_items = marshal_one;
  unmarshal_items = unmarshal_one;
  marshal_store = λ request. marshal_vault request.vault;
  marshal_retrieve = λ request. ok [];
  unmarshal_response = λ body. ok (encode body);
  unmarshal_error = λ body. ok "";
  encode_to_string = encode;
  decode_string = λ text. ok (decode text);
  bytes = λ s. [];
  pbkdf2 = λ pass salt iterations size. fives size;
  new_request = λ url. ok tt;
  do_post = λ url token body w. (
    ok (record { status_code = 200; body = ok body }),
    record w { store = insert "vault" body w.store },
  );
  post =
      λ url body w. (ok (record { status_code = 200; body = file_in (lookup "vault" w.store) }), w);
}

abbrev vault : Vault Machine ℕ
vault = record {
  vault_api_url = "https://vault";
  vault_salt_secret = "salt";
  web = web;
  gcm = open_box;
}

abbrev owner : String → String
owner token = "user"

vault-IsVaultService : IsVaultService vault owner
unfolding parse_api_response
vault-IsVaultService = record {
  kept = λ token request json body query resp w marshalled posted parsed asked. (
    record { status_code = 200; body = ok json },
    json,
    rw (lookup-insert "vault" "vault" json w.store) refl,
    refl,
    ap ok (encode-marshal_vault request.vault json marshalled),
  );
  marshals = λ vsk type_. ([], refl);
  unmarshal-marshal = unmarshal_one-marshal_one;
  decode_encode = λ content. ap ok (decode-encode content);
}

abbrev are_bytes : Bytes → Bool
are_bytes [] = true
are_bytes (b ∷ bs) = ltb b 256 && are_bytes bs

are_bytes-AreBytes : (bs : Bytes) → are_bytes bs ≡ true → Hex.AreBytes bs
are_bytes-AreBytes [] h = tt
are_bytes-AreBytes (b ∷ bs) h = elim (Bool-cases (ltb b 256)) [
  | inl e ↦ (ground (arith, e), are_bytes-AreBytes bs (rw e at h))
  | inr e ↦ absurd (cc (rw e at h))
]

abbrev raw_of : Bytes → Result Bytes
raw_of priv = if are_bytes priv then ok priv else err (external "raw")

abbrev cryptography : Cryptography Machine Bytes Bytes Bytes
cryptography = record plain { raw = raw_of }

abbrev space : Space Machine Bytes Bytes Bytes ℕ
space = record {
  devices = in_memory;
  cryptography = cryptography;
  disk = disk;
  vault = vault;
  unmarshal_ed25519 = λ raw. ok raw;
  restore_db = λ w. (ok tt, w);
  services_token = λ w. (ok "token", w);
}

raw_of-ok : (priv raw : Bytes) → raw_of priv ≡ ok raw → Hex.AreBytes raw × (priv ≡ raw)
raw_of-ok priv raw h = elim (Bool-cases (are_bytes priv)) [
  | inl e ↦
      let same : priv ≡ raw = cc (rw e at h) in
      (subst Hex.AreBytes same (are_bytes-AreBytes priv e), same)
  | inr e ↦ absurd (cc (rw e at h))
]

space-IsKeyCoding : IsKeyCoding space
space-IsKeyCoding = record {
  raw_bytes = λ priv raw h. (raw_of-ok priv raw h).0;
  unmarshal_raw = λ priv raw h. ap ok (sym (raw_of-ok priv raw h).1);
}
