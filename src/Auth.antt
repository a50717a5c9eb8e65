-- ===== src/Auth.antt =====
-- grpc/auth: which calls of the API an app token gives access to.
pub mod Grants
mod Tests
use space_daemon.Exec.{Exec, pure, raise, lift, attempt, ◌>>=◌, ◌>>◌}
use space_daemon.Keychain.{Devices}
use space_daemon.Keychain.Tokens.{TokenCodec, get_app_token}
use space_daemon.Outcome.{Err, Result, ok, err, new}
use space_daemon.Permissions.{AppToken, get_key_and_secret_from_access_token}
use space_daemon.Prelude.{
  ℕ, String, Bool, true, false, not, List, [], ◌∷◌, Option, some, none, ◌<>◌, if◌then◌else◌, str_eq,
}
use space_daemon.Prelude.Text.{cut}

abbrev pub public_methods : List String
public_methods = "InitializeMasterAppToken" ∷ []

-- "/space.SpaceApi/" + p == fullMethodName for some p of the list
unfoldable pub names_method : String → List String → Bool
names_method full_method_name [] = false
names_method full_method_name (p ∷ ps) =
    let rest = names_method full_method_name ps in
    if str_eq ("/space.SpaceApi/" <> p) full_method_name then true else rest

unfoldable pub can_skip_auth : String → Bool
unfolding names_method
can_skip_auth full_method_name = names_method full_method_name public_methods

-- The parameter is strings.EqualFold. The header is the value of "authorization" in the metadata.
abbrev pub credentials : (String → String → Bool) → String → String × Option String → Result String
credentials equal_fold scheme (first, none) = err (new "Bad authorization string")
credentials equal_fold scheme (first, some rest) =
    if not (equal_fold first scheme)
    then err (new ("Request unauthenticated with " <> scheme))
    else ok rest

unfoldable pub auth_from_md : (String → String → Bool) → String → String → Result String
unfolding cut
auth_from_md equal_fold scheme header =
    if str_eq header ""
    then err (new ("Request unauthenticated with " <> scheme))
    else credentials equal_fold scheme (cut " " header)

-- `authorized` at the end of `validateToken`
unfoldable pub grants : AppToken → String → Bool
unfolding names_method
grants token full_method_name =
    if token.is_master then true else names_method full_method_name token.permissions

module _ {W : Type 0} (D : Devices W) (T : TokenCodec) where
  abbrev pub checked : String → String → AppToken → Result AppToken
  checked sec full_method_name app_tok =
      if not (str_eq app_tok.secret sec)
      then err (new "app token secret does not match")
      else if not (grants app_tok full_method_name)
      then err (new ("app token does not grant access to " <> full_method_name))
      else ok app_tok

  unfoldable pub validate_token : String → String → Exec W AppToken
  unfolding grants
  validate_token tok full_method_name = do
    pair ← lift (get_key_and_secret_from_access_token tok)
    app_tok ← get_app_token D T pair.0
    lift (checked pair.1 full_method_name app_tok)

  -- status.Errorf(codes.Unauthenticated, "invalid auth token: %v", err)
  abbrev pub unauthenticated : Result AppToken → Result (Option AppToken)
  unauthenticated (ok token_info) = ok (some token_info)
  unauthenticated (err e) = err (new "invalid auth token")

  -- The context that is returned is the one given, or that one with the token.
  unfoldable pub authorize : (String → String → Bool) → String → String → Exec W (Option AppToken)
  authorize equal_fold header full_method_name =
      if can_skip_auth full_method_name then pure none else do
        token ← lift (auth_from_md equal_fold "AppToken" header)
        token_info ← attempt (validate_token token full_method_name)
        lift (unauthenticated token_info)

-- `UnaryServerInterceptor`, and `StreamServerInterceptor` with the handler applied to its stream
unfoldable pub unary_server_interceptor :
    {W C A : Type 0} → (String → Exec W C) → String → (C → Exec W A) → Exec W A
unary_server_interceptor auth_func full_method handler = do
  new_ctx ← auth_func full_method
  handler new_ctx

unfoldable pub stream_server_interceptor :
    {W C A Stream : Type 0}
    → (String → Exec W C)
    → String
    → (C → Stream → Exec W A)
    → Stream
    → Exec W A
stream_server_interceptor auth_func full_method handler stream = do
  new_ctx ← auth_func full_method
  handler new_ctx stream
