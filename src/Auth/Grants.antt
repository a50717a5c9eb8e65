-- ===== src/Auth/Grants.antt =====
-- grpc/auth/app_token_auth: exactly which calls are authorized.
use space_daemon.Auth.{
  authorize, auth_from_md, can_skip_auth, checked, grants, names_method, unauthenticated,
  validate_token,
}
use space_daemon.Exec.{pure, lift, attempt, ◌>>=◌}
use space_daemon.Exec.Returns.{bind-ok}
use space_daemon.Keychain.{Devices, IsKeptRing}
use space_daemon.Keychain.TokenLaws.{IsCodec, get_app_token-store_app_token}
use space_daemon.Keychain.Tokens.{TokenCodec, get_app_token, store_app_token}
use space_daemon.Outcome.{Result, ok, err}
use space_daemon.Permissions.{
  AppToken, get_access_token, get_key_and_secret_from_access_token,
  get_key_and_secret-get_access_token,
}
use space_daemon.Prelude.{
  String, Bool, true, List, [], ◌∷◌, Option, some, none, ◌<>◌, ◌≡◌, ◌⊎◌, refl, subst, if◌then◌else◌,
  str_eq, eq_iff, eq_refl, Bool-cases, inl, inr,
}
use space_daemon.Prelude.Text.{lacks, cut, cut-append}

-- one of the permissions is the name of the method
abbrev pub Permitted : String → List String → Type 0
Permitted method [] = ⊥
Permitted method (p ∷ ps) = ("/space.SpaceApi/" <> p ≡ method) ⊎ Permitted method ps

Permitted-names_method :
    (method : String) (ps : List String) → names_method method ps ≡ true → Permitted method ps
unfolding names_method
Permitted-names_method method [] h = absurd (cc h)
Permitted-names_method method (p ∷ ps) h =
    elim (Bool-cases (str_eq ("/space.SpaceApi/" <> p) method)) [
      | inl e ↦ inl ((eq_iff _ method).0 e)
      | inr e ↦ inr (Permitted-names_method method ps (rw e at h))
    ]

module _ {W : Type 0} (D : Devices W) (T : TokenCodec) where
  -- The token `a` is stored under the key of the access token and has its secret, and it is the master
  -- token or one of its permissions names the method.
  pub record IsGranted (w : W) (access method : String) (a : AppToken) : Type 0 where
    pub key : String
    pub read : get_key_and_secret_from_access_token access ≡ ok (key, a.secret)
    pub stored : (get_app_token D T key w).0 ≡ ok a
    pub allowed : (a.is_master ≡ true) ⊎ Permitted method a.permissions

  allowed_by :
      (a : AppToken) (method : String)
      → grants a method ≡ true
      → (a.is_master ≡ true) ⊎ Permitted method a.permissions
  unfolding grants
  allowed_by a method h = elim (Bool-cases a.is_master) [
    | inl e ↦ inl e
    | inr e ↦ inr (Permitted-names_method method a.permissions (rw e at h))
  ]

  checked-ok :
      (sec method : String) (a b : AppToken)
      → checked D T sec method a ≡ ok b
      → (a ≡ b) × (a.secret ≡ sec) × (grants a method ≡ true)
  checked-ok sec method a b h = elim (Bool-cases (str_eq a.secret sec)) [
    | inl e ↦ elim (Bool-cases (grants a method)) [
      | inl g ↦ (cc (rw (e, g) at h), (eq_iff a.secret sec).0 e, g)
      | inr g ↦ absurd (cc (rw (e, g) at h))
    ]
    | inr e ↦ absurd (cc (rw e at h))
  ]

  validate_token-ok :
      (access method : String) (w : W) (b : AppToken)
      → (validate_token D T access method w).0 ≡ ok b
      → IsGranted w access method b
  unfolding validate_token lift
  validate_token-ok access method w b h =
      let (pair, read, first) =
        bind-ok (lift (get_key_and_secret_from_access_token access)) _ w b h in
      let (a, stored, second) = bind-ok (get_app_token D T pair.0) _ w b (rw first at h) in
      let (same, secret, g) = checked-ok pair.1 method a b (rw second at (rw first at h)) in
      subst (λ x. IsGranted w access method x) same
        (record {
          key = pair.0;
          read = rw secret read;
          stored = stored;
          allowed = allowed_by a method g;
        })

  unauthenticated-ok :
      (r : Result AppToken) (c : Option AppToken)
      → unauthenticated D T r ≡ ok c
      → (a : AppToken) × (r ≡ ok a) × (c ≡ some a)
  unauthenticated-ok (ok a) c h = (a, refl, cc h)
  unauthenticated-ok (err e) c h = absurd (cc h)

  module _ (equal_fold : String → String → Bool) (header method : String) (w : W) where
    abbrev pub OnlyGranted : Option AppToken → Type 0
    OnlyGranted c =
        (can_skip_auth method ≡ true)
        ⊎ ((access : String) × (a : AppToken) × (auth_from_md equal_fold "AppToken" header
              ≡ ok access)
            × IsGranted w access method a
            × (c ≡ some a))

    -- A call that is authorized is public, or its header carries the access token of a stored token whose
    -- secret it has and that grants the method: as the master token, or by one of its permissions. That
    -- token is the one that the handler's context gets.
    pub authorize-OnlyGranted :
        (c : Option AppToken) → (authorize D T equal_fold header method w).0 ≡ ok c → OnlyGranted c
    unfolding authorize attempt lift
    authorize-OnlyGranted c h = elim (Bool-cases (can_skip_auth method)) [
      | inl e ↦ inl e
      | inr e ↦
          let rest = rw e at h in
          let (access, read, first) =
            bind-ok (lift (auth_from_md equal_fold "AppToken" header)) _ w c rest in
          let (r, valid, second) =
            bind-ok (attempt (validate_token D T access method)) _ w c (rw first at rest) in
          let (a, found, given) = unauthenticated-ok r c (rw second at (rw first at rest)) in
          inr (access, a, read, validate_token-ok access method w a (cc (valid, found)), given)
    ]

-- the header that an app sends
abbrev pub header_of : AppToken → String
header_of tok = "AppToken" <> (" " <> get_access_token tok)

module _ {W : Type 0} (D : Devices W) (T : TokenCodec) (L : IsKeptRing D) (J : IsCodec T) where
  auth_from_md-header_of :
      (equal_fold : String → String → Bool) (tok : AppToken)
      → equal_fold "AppToken" "AppToken" ≡ true
      → auth_from_md equal_fold "AppToken" (header_of tok) ≡ ok (get_access_token tok)
  unfolding auth_from_md
  auth_from_md-header_of equal_fold tok f =
      let parts : cut " " (header_of tok) ≡ ("AppToken", some (get_access_token tok)) =
        cut-append " " "" "AppToken" (get_access_token tok) (unfold lacks in refl) in
      elim (Bool-cases (str_eq (header_of tok) "")) [
        | inl e ↦
            let none_left : cut " " "" ≡ ("", none) = unfold cut in refl in
            absurd (cc (parts, none_left, (eq_iff (header_of tok) "").0 e))
        | inr e ↦ rw (e, parts, f) refl
      ]

  validate_token-stored :
      (tok : AppToken) (method : String) (w : W)
      → lacks "." tok.key ≡ true
      → lacks "." tok.secret ≡ true
      → grants tok method ≡ true
      → (store_app_token D T tok w).0 ≡ ok tt
      → (validate_token D T (get_access_token tok) method (store_app_token D T tok w).1).0 ≡ ok tok
  unfolding validate_token ◌>>=◌ lift
  validate_token-stored tok method w k s g e =
      rw
        (
          get_key_and_secret-get_access_token tok k s,
          get_app_token-store_app_token D T L J tok w e,
          eq_refl tok.secret,
          g,
        )
        refl

  -- A token that was stored, whose key and secret have no dot, authorizes every call that it grants:
  -- the header with its access token leads to it, with a keyring and a JSON coding that keep what they
  -- are given.
  pub authorize-store_app_token :
      (equal_fold : String → String → Bool) (tok : AppToken) (method : String) (w : W)
      → equal_fold "AppToken" "AppToken" ≡ true
      → lacks "." tok.key ≡ true
      → lacks "." tok.secret ≡ true
      → grants tok method ≡ true
      → (store_app_token D T tok w).0 ≡ ok tt
      → (authorize D T equal_fold (header_of tok) method (store_app_token D T tok w).1).0
        ≡ ok (if can_skip_auth method then none else some tok)
  unfolding authorize attempt lift pure ◌>>=◌
  authorize-store_app_token equal_fold tok method w f k s g e =
      elim (Bool-cases (can_skip_auth method)) [
        | inl p ↦ rw p refl
        | inr p ↦
            rw
              (
                p,
                auth_from_md-header_of equal_fold tok f,
                validate_token-stored tok method w k s g e,
              )
              refl
      ]
