-- ===== src/Hub/Cached.antt =====
-- core/textile/hub/hub_auth.go: tokens that were fetched are kept until they expire.
use space_daemon.Exec.{raise, lift, pure, attempt, gets, ◌>>=◌}
use space_daemon.Exec.Follows.{
  Follows, Unmoved, unmoved, Follows-pure, Follows-raise, Follows-lift, Follows-gets, Follows-bind,
  Follows-if,
}
use space_daemon.Exec.Returns.{bind-through, bind-step}
use space_daemon.Hub.{
  Services, TokenValue, AuthTokens, auth_tokens, is_token_expired, retrieve_tokens, store_tokens,
  stored_or_fetched, get_tokens_through_challenge, get_tokens_with_cache, tokens_store_key,
}
use space_daemon.Outcome.{Err, Result, ok, err, ok-injective}
use space_daemon.Prelude.{
  ℕ, String, Bool, true, false, if◌then◌else◌, ◌≡◌, refl, ap, sym, ◌∙◌, subst,
}

-- What is relied on of the store and of the JSON form.
pub record IsTokenStore {W : Type 0} (h : Services W) : Type 0 where
  pub get-set :
      (key text : String) (w : W)
      → (h.st_set key text w).0 ≡ ok tt
      → (h.st_get key (h.st_set key text w).1).0 ≡ ok text
  pub getting : (key : String) (w : W) → (h.st_get key w).1 ≡ w
  pub decode-encode :
      (tokens : TokenValue) (text : String)
      → h.encode_tokens tokens ≡ ok text
      → h.decode_tokens text ≡ ok tokens

module _ {W : Type 0} (h : Services W) (laws : IsTokenStore h) where
  -- a state in which the tokens are in the store
  abbrev IsCached : AuthTokens → W → Type 0
  IsCached tokens w =
      (value : TokenValue) × (text : String) × ((h.st_get tokens_store_key w).0 ≡ ok text)
      × (h.decode_tokens text ≡ ok value)
      × (auth_tokens value ≡ tokens)

  reading : Follows Unmoved (retrieve_tokens h)
  unfolding retrieve_tokens
  reading =
      Follows-bind unmoved _ _ (record { at = laws.getting tokens_store_key })
        (λ text. Follows-bind unmoved _ _ (Follows-lift unmoved _) (λ tokens.
          Follows-bind unmoved _ _ (Follows-gets unmoved _) (λ expired.
            Follows-if unmoved expired _ _ (Follows-raise unmoved _) (Follows-pure unmoved _))))

  not_expired :
      (expired : Bool) (tokens value : TokenValue) (w : W) (e : Err)
      → ((if expired then raise e else pure tokens) w).0 ≡ ok value
      → tokens ≡ value
  unfolding raise pure
  not_expired true tokens value w e found = absurd (cc found)
  not_expired false tokens value w e found = ok-injective found

  retrieved-IsCached :
      (value : TokenValue) (w : W)
      → (retrieve_tokens h w).0 ≡ ok value
      → IsCached (auth_tokens value) w
  unfolding retrieve_tokens lift gets
  retrieved-IsCached value w found =
      let (text, got, h1) = bind-step (h.st_get tokens_store_key) _ w value found in
      let (tokens, decoded, h2) = bind-step (lift (h.decode_tokens text)) _ _ value h1 in
      let (expired, _, h3) = bind-step (gets (is_token_expired h tokens.app_token)) _ _ value h2 in
      (tokens, text, got, decoded, ap auth_tokens (not_expired expired tokens value _ _ h3))

  -- Tokens that are returned are in the store.
  settled-IsCached :
      (fuel : ℕ) (r : Result TokenValue) (tokens : AuthTokens) (w : W)
      → ((value : TokenValue) → r ≡ ok value → IsCached (auth_tokens value) w)
      → (stored_or_fetched h fuel r w).0 ≡ ok tokens
      → IsCached tokens (stored_or_fetched h fuel r w).1
  unfolding pure store_tokens lift
  settled-IsCached fuel (ok value) tokens w known returned =
      subst (λ t. IsCached t w) (ok-injective returned) (known value refl)
  settled-IsCached fuel (err e) tokens w known returned =
      let (value, fetched, h1, t1) =
        bind-through (get_tokens_through_challenge h fuel) _ w tokens returned in
      let v = (get_tokens_through_challenge h fuel w).1 in
      let (_, stored, h2, t2) = bind-through (store_tokens h value) _ v tokens h1 in
      let (text, encoded, set, t3) = bind-through (lift (h.encode_tokens value)) _ v tt stored in
      let found =
        ap (λ t. (h.st_get tokens_store_key t).0) (t1 ∙ t2 ∙ t3)
        ∙ laws.get-set tokens_store_key text v set in
      (value, text, found, laws.decode-encode value text encoded, ok-injective h2)

  cached :
      (fuel : ℕ) (tokens : AuthTokens) (w : W)
      → (get_tokens_with_cache h fuel w).0 ≡ ok tokens
      → IsCached tokens (get_tokens_with_cache h fuel w).1
  unfolding get_tokens_with_cache attempt
  cached fuel tokens w returned =
      let (r, tried, h1, t1) = bind-through (attempt (retrieve_tokens h)) _ w tokens returned in
      let v = (retrieve_tokens h w).1 in
      subst (IsCached tokens) (sym t1) (
        settled-IsCached fuel r tokens v
          (λ value e.
            subst (IsCached (auth_tokens value)) (sym (reading.at w))
              (retrieved-IsCached value w (ok-injective tried ∙ e)))
          h1)

  -- Where the store keeps what is set: tokens that were returned are returned again, without a
  -- challenge and without a change, in any state in which the store has under the key of the tokens
  -- what that call left and the app token has not expired.
  pub get_tokens_with_cache-again :
      (fuel other : ℕ) (tokens : AuthTokens) (w later : W)
      → (get_tokens_with_cache h fuel w).0 ≡ ok tokens
      → (h.st_get tokens_store_key later).0
        ≡ (h.st_get tokens_store_key (get_tokens_with_cache h fuel w).1).0
      → is_token_expired h tokens.app_token later ≡ false
      → get_tokens_with_cache h other later ≡ (ok tokens, later)
  unfolding get_tokens_with_cache retrieve_tokens ◌>>=◌ attempt lift gets pure raise
  get_tokens_with_cache-again fuel other tokens w later returned same valid =
      let (value, text, got, decoded, these) = cached fuel tokens w returned in
      let app = ap (λ (t : AuthTokens). is_token_expired h t.app_token later) these ∙ valid in
      rw (same ∙ got, laws.getting tokens_store_key later, decoded, app)
        (ap (λ (t : AuthTokens). (ok t, later)) these)
