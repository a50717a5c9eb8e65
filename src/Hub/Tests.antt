-- ===== src/Hub/Tests.antt =====
-- A hub that sends one token.
use space_daemon.Exec.{◌>>=◌}
use space_daemon.Hub.{
  Services, TokenValue, InMessageToken, auth_tokens, float64, is_token_expired,
  get_tokens_with_cache,
}
use space_daemon.Hub.Cached.{IsTokenStore, get_tokens_with_cache-again}
use space_daemon.Outcome.{Result, ok, err, external}
use space_daemon.Prelude.{
  ℕ, pos, String, Bool, true, false, List, [], ◌∷◌, Option, some, none, str_eq, eq_iff, eq_refl,
  if◌then◌else◌, ◌&&◌, ◌≡◌, refl, sym, Bool-cases, inl, inr,
}
use space_daemon.Prelude.Map.{Map, lookup, insert, delete, lookup-insert}

record World : Type 0 where
  pub store : Map String
  pub time : ℕ
  -- the messages that are still to come
  pub messages : List InMessageToken

abbrev granted : TokenValue
granted = record { token = "t"; key = "k"; msg = "m"; sig = "s"; app_token = "jwt" }

abbrev ping : InMessageToken
ping = record { type_ = "ping"; value = granted }

abbrev answer : InMessageToken
answer = record { type_ = "token"; value = granted }

-- tokens in which all but the token itself is known
abbrev same_rest : TokenValue → Bool
same_rest v =
    str_eq v.key "k" && (str_eq v.msg "m" && (str_eq v.sig "s" && str_eq v.app_token "jwt"))

abbrev encoded : TokenValue → Result String
encoded v = if same_rest v then ok v.token else err (external "json")

both_true : (a b : Bool) → (a && b) ≡ true → (a ≡ true) × (b ≡ true)
both_true true b h = (refl, h)
both_true false b h = absurd (cc h)

decoded-encoded :
    (v : TokenValue) (text : String)
    → encoded v ≡ ok text
    → ok (record granted { token = text }) ≡ ok v
decoded-encoded v text h = elim (Bool-cases (same_rest v)) [
  | inr e ↦ absurd (cc (rw e at h))
  | inl e ↦
      let (k, rest) = both_true _ _ e in
      let (m, rest') = both_true _ _ rest in
      let (s, a) = both_true _ _ rest' in
      let same_key = sym ((eq_iff v.key "k").0 k) in
      let same_msg = sym ((eq_iff v.msg "m").0 m) in
      let same_sig = sym ((eq_iff v.sig "s").0 s) in
      let same_app = sym ((eq_iff v.app_token "jwt").0 a) in
      let same_token : text ≡ v.token = cc (rw e at h) in
      λ i. ok (record {
        token = same_token i;
        key = same_key i;
        msg = same_msg i;
        sig = same_sig i;
        app_token = same_app i;
      })
]

abbrev found : Option String → Result String
found none = err (external "Key not found")
found (some text) = ok text

abbrev next_message : List InMessageToken → World → Result InMessageToken × World
next_message [] w = (err (external "EOF"), w)
next_message (m ∷ ms) w = (ok m, record w { messages = ms })

abbrev services : Services World
services = record {
  st_get = λ k w. (found (lookup k w.store), w);
  st_set = λ k v w. (ok tt, record w { store = insert k v w.store });
  st_remove = λ k w. (ok tt, record w { store = delete k w.store });
  encode_tokens = encoded;
  decode_tokens = λ text. ok (record granted { token = text });
  parse_unverified = λ t. ok (float64 (pos 100));
  now = λ w. w.time;
  dial = λ w. (ok tt, w);
  close = λ w. w;
  identity = λ w. (ok "pub", w);
  sign = λ challenge w. (ok "sig", w);
  send = λ message w. (ok tt, w);
  receive_challenge = λ w. (ok [], w);
  receive_token = λ token w. next_message w.messages w;
  multibase_decode = λ text. ok [];
}

services-IsTokenStore : IsTokenStore services
services-IsTokenStore = record {
  get-set = λ key text w h. rw (lookup-insert key key text w.store, eq_refl key) refl;
  getting = λ key w. refl;
  decode-encode = decoded-encoded;
}

abbrev fresh : World
fresh = record { store = []; time = 0; messages = ping ∷ (answer ∷ []) }

is_fetched : (get_tokens_with_cache services 3 fresh).0 ≡ ok (auth_tokens granted)
unfolding get_tokens_with_cache lookup ◌>>=◌
is_fetched = refl

abbrev cached : World
cached = record (get_tokens_with_cache services 3 fresh).1 { time = 5 }

is_valid : is_token_expired services "jwt" cached ≡ false
unfolding is_token_expired
is_valid = refl

get_tokens_with_cache-again_example :
    get_tokens_with_cache services 0 cached ≡ (ok (auth_tokens granted), cached)
get_tokens_with_cache-again_example =
    get_tokens_with_cache-again services services-IsTokenStore 3 0 (auth_tokens granted) fresh
      cached is_fetched refl is_valid
