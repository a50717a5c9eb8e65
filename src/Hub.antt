-- ===== src/Hub.antt =====
-- core/textile/hub/hub_auth.go: the tokens for the hub, which are asked for with a challenge and kept
-- in the store. The store, the JSON forms, JSON web tokens, the clock and the web socket are
-- parameters, and so are the keys of the keychain.
pub mod Awaited
pub mod Cached
mod Tests
use space_daemon.Exec.{Exec, raise, lift, pure, attempt, gets, ◌>>=◌, ◌>>◌}
use space_daemon.Outcome.{Result, ok, err, new, out_of_fuel, ◌>>=◌ as ◌then◌}
use space_daemon.Prelude.{
  ℕ, zero, suc, ◌*◌, ℤ, pos, negsuc, String, ◌<>◌, Bool, true, false, List, Option, some, none, ltb,
  str_eq, if◌then◌else◌,
}

-- inMessageTokenValue
pub record TokenValue : Type 0 where
  pub token : String
  pub key : String
  pub msg : String
  pub sig : String
  pub app_token : String

-- inMessageToken
pub record InMessageToken : Type 0 where
  pub type_ : String
  pub value : TokenValue

pub record AuthTokens : Type 0 where
  pub hub_token : String
  pub key : String
  pub sig : String
  pub app_token : String
  pub msg : String

-- outMessage with its data
pub record OutMessage : Type 0 where
  pub action : String
  pub signature : String
  pub public_key : String

-- The claim exp of a token: a number, as a float64 cut to an integer or as a json.Number with what
-- its Int64 returns, or neither.
pub data Expiry : Type 0 where
  float64 : ℤ → Expiry
  number : Result ℤ → Expiry
  absent : Expiry

pub record HubContext : Type 0 where
  pub api_key : String
  pub api_msg : String
  pub api_sig : List ℕ
  pub thread_token : String

pub record Services (W : Type 0) : Type 0 where
  pub st_get : String → Exec W String
  pub st_set : String → String → Exec W (Unit {0})
  pub st_remove : String → Exec W (Unit {0})
  pub encode_tokens : TokenValue → Result String
  pub decode_tokens : String → Result TokenValue
  -- ParseUnverified with the claim exp
  pub parse_unverified : String → Result Expiry
  -- time.Now, in nanoseconds since 1970
  pub now : W → ℕ
  -- websocket.Dial
  pub dial : Exec W (Unit {0})
  pub close : W → W
  -- the public key of the identity, and its signature in Base64
  pub identity : Exec W String
  pub sign : List ℕ → Exec W String
  pub send : OutMessage → Exec W (Unit {0})
  pub receive_challenge : Exec W (List ℕ)
  -- websocket.JSON.Receive, which leaves the fields that a message lacks as they were
  pub receive_token : InMessageToken → Exec W InMessageToken
  -- mbase.Decode
  pub multibase_decode : String → Result (List ℕ)

abbrev pub tokens_store_key : String
tokens_store_key = "hubTokens"

-- expiryTime.Before(time.Now())
abbrev is_past : ℤ → ℕ → Bool
is_past (pos seconds) nanoseconds = ltb (seconds * 1000000000) nanoseconds
is_past (negsuc seconds) nanoseconds = true

-- without a number the time is the zero time, which is past
abbrev is_expiry_past : Result Expiry → ℕ → Bool
is_expiry_past (err e) now = true
is_expiry_past (ok (float64 t)) now = is_past t now
is_expiry_past (ok (number (ok t))) now = is_past t now
is_expiry_past (ok (number (err e))) now = true
is_expiry_past (ok absent) now = true

abbrev no_message : InMessageToken
no_message = record {
  type_ = "";
  value = record { token = ""; key = ""; msg = ""; sig = ""; app_token = "" };
}

abbrev pub auth_tokens : TokenValue → AuthTokens
auth_tokens t = record {
  hub_token = t.token;
  key = t.key;
  sig = t.sig;
  app_token = t.app_token;
  msg = t.msg;
}

module _ {W : Type 0} (h : Services W) where
  unfoldable pub is_token_expired : String → W → Bool
  is_token_expired t w = is_expiry_past (h.parse_unverified t) (h.now w)

  unfoldable pub retrieve_tokens : Exec W TokenValue
  unfolding is_token_expired
  retrieve_tokens = do
    stored ← h.st_get tokens_store_key
    tokens ← lift (h.decode_tokens stored)
    expired ← gets (is_token_expired tokens.app_token)
    if expired then raise (new "App token is expired") else pure tokens

  unfoldable pub store_tokens : TokenValue → Exec W (Unit {0})
  store_tokens tokens = do
    tokens_bytes ← lift (h.encode_tokens tokens)
    h.st_set tokens_store_key tokens_bytes

  pub clear_cache : Exec W (Unit {0})
  clear_cache = h.st_remove tokens_store_key

  -- The loop over the messages until one is the token's. Messages are received into `token`, and
  -- `currToken`, which is tested behind each, stays empty.
  unfoldable pub await_token : ℕ → InMessageToken → Exec W TokenValue
  await_token zero token = raise out_of_fuel
  await_token (suc fuel) token =
      if str_eq token.type_ "token"
      then pure token.value
      else (h.receive_token token >>= λ next. await_token fuel next)

  -- `defer conn.Close()`
  abbrev closing : {A : Type 0} → Exec W A → Exec W A
  closing call w = let (r, w') = call w in (r, h.close w')

  -- what follows the connection; `fuel` bounds the messages
  unfoldable pub solve_challenge : ℕ → Exec W TokenValue
  unfolding await_token
  solve_challenge fuel = do
    pub_key ← h.identity
    h.send (record { action = "token"; signature = ""; public_key = pub_key })
    challenge ← h.receive_challenge
    signature ← h.sign challenge
    h.send (record { action = "challenge"; signature = signature; public_key = pub_key })
    await_token fuel no_message

  unfoldable pub get_tokens_through_challenge : ℕ → Exec W TokenValue
  unfolding solve_challenge
  get_tokens_through_challenge fuel = h.dial >> closing (solve_challenge fuel)

  abbrev stored_or_fetched : ℕ → Result TokenValue → Exec W AuthTokens
  stored_or_fetched fuel (ok tokens) = pure (auth_tokens tokens)
  stored_or_fetched fuel (err e) = do
    tokens ← get_tokens_through_challenge fuel
    store_tokens tokens
    pure (auth_tokens tokens)

  -- the mutex makes it one step
  unfoldable pub get_tokens_with_cache : ℕ → Exec W AuthTokens
  unfolding retrieve_tokens store_tokens get_tokens_through_challenge
  get_tokens_with_cache fuel = do
    in_store ← attempt retrieve_tokens
    stored_or_fetched fuel in_store

  unfoldable pub get_hub_context : ℕ → Exec W HubContext
  unfolding get_tokens_with_cache
  get_hub_context fuel = do
    tokens ← get_tokens_with_cache fuel
    sig ← lift (h.multibase_decode tokens.sig)
    pure (record {
      api_key = tokens.key;
      api_msg = tokens.msg;
      api_sig = sig;
      thread_token = tokens.hub_token;
    })

  -- core/space/services/services_keypair.go
  unfoldable pub get_hub_auth_token : ℕ → Exec W String
  unfolding get_tokens_with_cache
  get_hub_auth_token fuel = do tokens ← get_tokens_with_cache fuel; pure tokens.hub_token
