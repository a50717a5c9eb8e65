-- ===== src/Keychain/Tests.antt =====
-- A keyring and a store in memory, and runs of core/keychain on them.
use space_daemon.Exec.{pure, lift, attempt, ◌>>=◌}
use space_daemon.Keychain.{Devices, IsKeptRing, get_key_ring}
use space_daemon.Keychain.Pairs.{Bytes, Cryptography, Keychain, retrieve_key_pair, store_key_pair}
use space_daemon.Keychain.RoundTrip.{retrieve_key_pair-store_key_pair}
use space_daemon.Keychain.TokenLaws.{IsCodec, store_app_token-keeps_master}
use space_daemon.Keychain.Tokens.{TokenCodec, store_app_token}
use space_daemon.Outcome.{
  Result, ok, err, new, keyring_key_not_found, external, master_token_already_exists,
}
use space_daemon.Permissions.{AppToken}
use space_daemon.Prelude.{
  String, Bool, true, false, List, [], ◌∷◌, Option, some, none, ◌≡◌, ◌≢◌, refl, arith, str_eq,
  eq_iff, eq_refl, Bool-cases, inl, inr, if◌then◌else◌,
}
use space_daemon.Prelude.Map.{Map, lookup, insert, delete, lookup-insert}
use space_daemon.Prelude.Text.{cut}

pub record Disk : Type 0 where
  pub ring : Map String
  pub store : Map Bytes

abbrev found : Option String → Result String
found none = err keyring_key_not_found
found (some v) = ok v

abbrev present : Option String → Result (Unit {0})
present none = err keyring_key_not_found
present (some v) = ok tt

abbrev kept : Option Bytes → Result (Option Bytes)
kept none = err (external "Key not found")
kept (some v) = ok (some v)

abbrev pub in_memory : Devices Disk
in_memory = record {
  has_ring = true;
  user_config_dir = λ w. (ok "", w);
  open_keyring = λ d w. (ok tt, w);
  ring_get = λ k w. (found (lookup k w.ring), w);
  ring_set = λ k v w. (ok tt, record w { ring = insert k v w.ring });
  ring_remove = λ k w. (ok tt, record w { ring = delete k w.ring });
  ring_get_metadata = λ k w. (present (lookup k w.ring), w);
  st_get = λ k w. (kept (lookup k w.store), w);
  st_set = λ k v w. (ok tt, record w { store = insert k v w.store });
  st_remove = λ k w. (ok tt, record w { store = delete k w.store });
}

different : (k j : String) → k ≢ j → str_eq k j ≡ false
different k j h = elim (Bool-cases (str_eq k j)) [
  | inl e ↦ absurd (h ((eq_iff k j).0 e))
  | inr e ↦ e
]

pub in_memory-IsKeptRing : IsKeptRing in_memory
in_memory-IsKeptRing = record {
  opened = λ w. unfold get_key_ring pure in refl;
  get_same = λ k w. refl;
  st_get_same = λ k w. refl;
  get_set = λ k v w e. rw (lookup-insert k k v w.ring, eq_refl k) refl;
  get_set_ne = λ k j v w h. rw (lookup-insert k j v w.ring, different k j h) refl;
  get_st_set = λ k j v w. refl;
}

abbrev pub empty : Disk
empty = record { ring = []; store = [] }

abbrev pub master : AppToken
master = record { key = "k1"; secret = "s1"; is_master = true; permissions = [] }

abbrev encode_fields : String → String → Bool → List String → Result String
encode_fields key secret true [] = if str_eq secret "s1" then ok key else err (new "unsupported")
encode_fields key secret true (p ∷ ps) = err (new "unsupported")
encode_fields key secret false ps = err (new "unsupported")

-- a coding of the master tokens with one secret, which leaves out what is the same for all of them
abbrev pub masters_only : TokenCodec
masters_only = record {
  marshal_token = λ t. encode_fields t.key t.secret t.is_master t.permissions;
  unmarshal_token =
      λ text. ok (record { key = text; secret = "s1"; is_master = true; permissions = [] });
  bytes = λ s. [];
}

decode_fields :
    (key secret : String) (m : Bool) (ps : List String) (text : String)
    → encode_fields key secret m ps ≡ ok text
    → masters_only.unmarshal_token text
      ≡ ok (record { key = key; secret = secret; is_master = m; permissions = ps })
decode_fields key secret true [] text h = elim (Bool-cases (str_eq secret "s1")) [
  | inl e ↦ cc (rw e at h, (eq_iff secret "s1").0 e)
  | inr e ↦ absurd (cc (rw e at h))
]
decode_fields key secret true (p ∷ ps) text h = absurd (cc h)
decode_fields key secret false ps text h = absurd (cc h)

pub masters_only-IsCodec : IsCodec masters_only
masters_only-IsCodec = record {
  unmarshal-marshal = λ t text h. decode_fields t.key t.secret t.is_master t.permissions text h;
}

pub master_is_stored : (store_app_token in_memory masters_only master empty).0 ≡ ok tt
unfolding store_app_token get_key_ring ◌>>=◌ attempt lift pure lookup insert
master_is_stored = refl

abbrev pub after_master : Disk
after_master = (store_app_token in_memory masters_only master empty).1

abbrev second_master : AppToken
second_master = record { key = "k2"; secret = "s1"; is_master = true; permissions = [] }

-- the store is cleared in between, as it is on logging out
store_app_token-keeps_master_example :
    let v = record after_master { store = [] } in
    store_app_token in_memory masters_only second_master v ≡ (err master_token_already_exists, v)
store_app_token-keeps_master_example =
    store_app_token-keeps_master in_memory masters_only in_memory-IsKeptRing master second_master
      empty (record after_master { store = [] }) refl refl master_is_stored refl

no_separator : (cut "___" "some words").1 ≡ none
unfolding cut
no_separator = refl

pair_is_stored : (store_key_pair in_memory (7 ∷ 255 ∷ []) (9 ∷ []) "some words" empty).0 ≡ ok tt
unfolding store_key_pair get_key_ring ◌>>=◌ pure
pair_is_stored = refl

retrieve_key_pair-store_key_pair_example :
    (retrieve_key_pair in_memory
      (store_key_pair in_memory (7 ∷ 255 ∷ []) (9 ∷ []) "some words" empty).1).0
    ≡ ok (7 ∷ 255 ∷ [], "some words")
retrieve_key_pair-store_key_pair_example =
    retrieve_key_pair-store_key_pair in_memory in_memory-IsKeptRing (7 ∷ 255 ∷ []) (9 ∷ [])
      "some words" empty (omega arith, (omega arith, tt)) no_separator pair_is_stored

abbrev pub plain : Cryptography Disk Bytes Bytes Bytes
plain = record {
  unmarshal_private_key = λ b. ok b;
  unmarshal_public_key = λ b. ok b;
  raw = λ b. ok b;
  get_public = λ b. b;
  raw_public = λ b. ok b;
  new_key_from_seed = λ b. (b, b);
  generate_key = λ w. (ok (1 ∷ [], 2 ∷ []), w);
  sign = λ k m. m;
  pbkdf2 = λ b s n k. b;
  new_entropy = λ n w. (ok [], w);
  new_mnemonic = λ b. ok "words";
  new_seed = λ m p. ok (3 ∷ []);
  key_from_bytes = λ b. ok b;
}

abbrev pub after_pair : Keychain Disk Bytes
after_pair = record {
  priv_key = none;
  world = (store_key_pair in_memory (7 ∷ []) (9 ∷ []) "words" empty).1;
}
