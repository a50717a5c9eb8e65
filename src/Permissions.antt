-- ===== src/Permissions.antt =====
-- core/permissions/app_token.go: the tokens that an app shows to the daemon.
use space_daemon.Exec.{Exec, pure, ◌>>=◌}
use space_daemon.Outcome.{Result, ok, err, new}
use space_daemon.Prelude.{ℕ, String, Bool, true, List, [], ◌∷◌, ◌<>◌, ◌≡◌, refl}
use space_daemon.Prelude.Text.{split, lacks, split-lacks, split-append}
use Prim.Native.String.append

pub record AppToken : Type 0 where
  pub key : String
  pub secret : String
  pub is_master : Bool
  pub permissions : List String

abbrev pub token_key_length : ℕ
token_key_length = 20

abbrev pub token_secret_length : ℕ
token_secret_length = 30

-- The parameters are crypto/rand's `Read` into a new slice of the given length, and encoding/base64's
-- `RawURLEncoding.EncodeToString`.
unfoldable pub generate_random_token :
    {W : Type 0} → (ℕ → Exec W (List ℕ)) → (List ℕ → String) → Bool → List String → Exec W AppToken
generate_random_token read text is_master permissions = do
  k ← read token_key_length
  s ← read token_secret_length
  pure (record { key = text k; secret = text s; is_master = is_master; permissions = permissions })

unfoldable pub get_access_token : AppToken → String
get_access_token a = a.key <> ("." <> a.secret)

abbrev pub first_two : List String → Result (String × String)
first_two (k ∷ (s ∷ rest)) = ok (k, s)
first_two (k ∷ []) = err (new "invalid token format")
first_two [] = err (new "invalid token format")

unfoldable pub get_key_and_secret_from_access_token : String → Result (String × String)
unfolding split
get_key_and_secret_from_access_token access_token = first_two (split "." access_token)

-- The access token of an app token whose key and secret have no dot is read back as that key and that
-- secret.
pub get_key_and_secret-get_access_token :
    (a : AppToken)
    → lacks "." a.key ≡ true
    → lacks "." a.secret ≡ true
    → get_key_and_secret_from_access_token (get_access_token a) ≡ ok (a.key, a.secret)
unfolding get_key_and_secret_from_access_token get_access_token
get_key_and_secret-get_access_token a h k =
    rw
      (
        append.cons "." "" a.secret,
        append.nil a.secret,
        split-append "." a.key a.secret h,
        split-lacks "." a.secret k,
      )
      refl
