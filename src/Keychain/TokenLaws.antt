-- ===== src/Keychain/TokenLaws.antt =====
-- core/keychain/app_token.go: what storing a token leaves in the keyring.
use space_daemon.Exec.{Exec, pure, raise, lift, ◌>>=◌, when}
use space_daemon.Exec.Returns.{bind-ok}
use space_daemon.Keychain.{Devices, IsKeptRing}
use space_daemon.Keychain.Tokens.{
  TokenCodec, store_app_token, get_app_token, store_new, store_master, token_st_key,
  get_master_token_st_key, is_ok, is_stored,
}
use space_daemon.Outcome.{Err, Result, ok, err, master_token_already_exists}
use space_daemon.Permissions.{AppToken}
use space_daemon.Prelude.{
  String, Bool, true, false, ◌&&◌, ◌≡◌, ◌∙◌, refl, Bool-cases, inl, inr, if◌then◌else◌, str_eq,
  eq_iff,
}

-- A token that was encoded is decoded again.
pub record IsCodec (T : TokenCodec) : Type 0 where
  pub unmarshal-marshal :
      (t : AppToken) (text : String) → T.marshal_token t ≡ ok text → T.unmarshal_token text ≡ ok t

module _ {W : Type 0} (D : Devices W) (T : TokenCodec) (L : IsKeptRing D) where
  abbrev refused : Bool → Bool → Result (Unit {0}) × W → W → Result (Unit {0}) × W
  refused first second r w =
      if first
      then (err master_token_already_exists, w)
      else if second
      then (err master_token_already_exists, w)
      else r

  choose :
      (b : Bool) (e : Err) (m : Exec W (Unit {0})) (w : W)
      → (if b then raise e else m) w ≡ (if b then (err e, w) else m w)
  unfolding raise
  choose true e m w = refl
  choose false e m w = refl

  store_app_token_lem :
      (tok : AppToken) (w : W)
      → store_app_token D T tok w
        ≡ refused
            (is_stored (D.st_get get_master_token_st_key w).0 && tok.is_master)
            (is_ok (D.ring_get get_master_token_st_key w).0 && tok.is_master)
            (store_new D T tok w)
            w
  unfolding store_app_token ◌>>=◌
  store_app_token_lem tok w =
      rw
        (
          L.opened w,
          L.st_get_same get_master_token_st_key w,
          choose,
          L.get_same get_master_token_st_key w,
          choose (is_ok (D.ring_get get_master_token_st_key w).0 && tok.is_master)
              master_token_already_exists (store_new D T tok) w,
        )
        refl

  set_again :
      (k j text : String) (u : W)
      → (D.ring_get k u).0 ≡ ok text
      → (D.ring_set j text u).0 ≡ ok tt
      → (D.ring_get k (D.ring_set j text u).1).0 ≡ ok text
  set_again k j text u h e = elim (Bool-cases (str_eq j k)) [
    | inl same ↦ let q = (eq_iff j k).0 same in rw (← q) (L.get_set j text u e)
    | inr other ↦ L.get_set_ne j k text u (λ q. cc ((eq_iff j k).1 q, other)) ∙ h
  ]

  accepted :
      (b c : Bool) (r : Result (Unit {0}) × W) (w : W)
      → (refused b c r w).0 ≡ ok tt
      → (refused b c r w ≡ r) × (b ≡ false) × (c ≡ false)
  accepted true c r w h = absurd (cc h)
  accepted false true r w h = absurd (cc h)
  accepted false false r w h = (refl, refl, refl)

  -- what `store_new` leaves under the token's own name, and for a master token under the master's
  record IsStored (tok : AppToken) (u : W) : Type 0 where
    pub text : String
    pub encoded : T.marshal_token tok ≡ ok text
    pub own : (D.ring_get (token_st_key tok.key) u).0 ≡ ok text
    pub master : tok.is_master ≡ true → (D.ring_get get_master_token_st_key u).0 ≡ ok text

  store_master-IsStored :
      (tok : AppToken) (text : String) (u : W)
      → T.marshal_token tok ≡ ok text
      → (D.ring_get (token_st_key tok.key) u).0 ≡ ok text
      → (store_master D T tok text u).0 ≡ ok tt
      → IsStored tok (store_master D T tok text u).1
  store_master-IsStored tok text u encoded own e =
      let (a, st, same) = bind-ok (D.st_set get_master_token_st_key (T.bytes tok.key)) _ u tt e in
      let set = rw same at e in
      let kept =
        L.get_st_set get_master_token_st_key (token_st_key tok.key) (T.bytes tok.key) u ∙ own in
      rw same (record {
        text = text;
        encoded = encoded;
        own = set_again (token_st_key tok.key) get_master_token_st_key text _ kept set;
        master = λ m. L.get_set get_master_token_st_key text _ set;
      })

  when-IsStored :
      (tok : AppToken) (m : Bool) (text : String) (u : W)
      → tok.is_master ≡ m
      → T.marshal_token tok ≡ ok text
      → (D.ring_get (token_st_key tok.key) u).0 ≡ ok text
      → (when m (store_master D T tok text) u).0 ≡ ok tt
      → IsStored tok (when m (store_master D T tok text) u).1
  unfolding pure
  when-IsStored tok true text u q encoded own e = store_master-IsStored tok text u encoded own e
  when-IsStored tok false text u q encoded own e = record {
    text = text;
    encoded = encoded;
    own = own;
    master = λ m. absurd (cc (q, m));
  }

  store_new-IsStored :
      (tok : AppToken) (w : W)
      → (store_new D T tok w).0 ≡ ok tt
      → IsStored tok (store_new D T tok w).1
  unfolding lift
  store_new-IsStored tok w e =
      let (text, encoded, first) = bind-ok (lift (T.marshal_token tok)) _ w tt e in
      let (a, set, second) =
        bind-ok (D.ring_set (token_st_key tok.key) text) _ _ tt (rw first at e) in
      let last = rw second at (rw first at e) in
      rw (first, second)
        (when-IsStored tok tok.is_master text _ refl encoded
          (L.get_set (token_st_key tok.key) text w set) last)

  store_app_token-IsStored :
      (tok : AppToken) (w : W)
      → (store_app_token D T tok w).0 ≡ ok tt
      → IsStored tok (store_app_token D T tok w).1
  store_app_token-IsStored tok w e =
      let (same, b, c) =
        accepted (is_stored (D.st_get get_master_token_st_key w).0 && tok.is_master)
          (is_ok (D.ring_get get_master_token_st_key w).0 && tok.is_master) (store_new D T tok w) w
          (rw (store_app_token_lem tok w) at e) in
      rw (store_app_token_lem tok w, same)
        (store_new-IsStored tok w (rw (store_app_token_lem tok w, same) at e))

  -- A token that was stored is read under its key as it was, with a keyring and a JSON coding that keep
  -- what they are given.
  pub get_app_token-store_app_token :
      IsCodec T
      → (tok : AppToken) (w : W) → (store_app_token D T tok w).0 ≡ ok tt
      → (get_app_token D T tok.key (store_app_token D T tok w).1).0 ≡ ok tok
  unfolding get_app_token ◌>>=◌ lift
  get_app_token-store_app_token J tok w e =
      let h = store_app_token-IsStored tok w e in
      rw (L.opened (store_app_token D T tok w).1, h.own, J.unmarshal-marshal tok h.text h.encoded)
        refl

  present :
      (r : Result String) (text : String) (m : Bool) (x : Result (Unit {0}) × W) (b : Bool) (u : W)
      → r ≡ ok text
      → m ≡ true
      → refused b (is_ok r && m) x u ≡ (err master_token_already_exists, u)
  present r text m x true u h e = refl
  present r text m x false u h e = rw (h, e) refl

  -- Once a master token is stored, storing another one fails and changes nothing, in every state whose
  -- keyring has the master's entry as it was then, whatever became of the store.
  pub store_app_token-keeps_master :
      (tok other : AppToken) (w v : W)
      → tok.is_master ≡ true
      → other.is_master ≡ true
      → (store_app_token D T tok w).0 ≡ ok tt
      → (D.ring_get get_master_token_st_key v).0
        ≡ (D.ring_get get_master_token_st_key (store_app_token D T tok w).1).0
      → store_app_token D T other v ≡ (err master_token_already_exists, v)
  store_app_token-keeps_master tok other w v m n e kept =
      let h = store_app_token-IsStored tok w e in
      rw (store_app_token_lem other v)
        (present _ h.text other.is_master _ _ v (kept ∙ h.master m) n)
