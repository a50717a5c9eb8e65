-- ===== src/Outcome.antt =====
-- Go's `(value, error)` results. An error is one that the program makes from a text
-- (`errors.New`), one of the values that the program compares against, or one that code outside
-- the repository returned.
use space_daemon.Prelude.{String, ◌≡◌, refl}

pub data Err : Type 0 where
  -- errors.New, fmt.Errorf
  new : String → Err
  -- core/textile/sync/synchronizer.go
  max_retries_surpassed : Err
  -- core/keychain
  key_pair_not_found master_token_already_exists : Err
  -- the keyring library's ErrKeyNotFound
  keyring_key_not_found : Err
  -- an error of a library or a service
  external : String → Err
  -- A run-time panic of Go: nothing of the call is executed after it.
  panic : Err
  -- not of the program: a walk over a tree that is deeper than its fuel
  out_of_fuel : Err
  -- the call never returns
  never_returns : Err

pub data Result {ℓ} (A : Type ℓ) : Type ℓ where
  ok : A → Result A
  err : Err → Result A

-- The result of a call that returns only an `error`.
abbrev pub Failure : Type 0
Failure = Result (Unit {0})

module _ {ℓ κ} {A : Type ℓ} {B : Type κ} where
  infixl 10 ◌>>=◌
  -- `x, err := m` with `if err != nil { return nil, err }` behind it
  abbrev pub ◌>>=◌ : Result A → (A → Result B) → Result B
  ok value >>= next = next value
  err failure >>= next = err failure

  pub bind-ok :
      (r : Result A) (next : A → Result B) (b : B)
      → (r >>= next) ≡ ok b
      → (a : A) × (r ≡ ok a) × (next a ≡ ok b)
  bind-ok (ok a) next b h = (a, refl, h)
  bind-ok (err e) next b h = absurd (cc h)

pub ok-injective {ℓ} : {A : Type ℓ} {a b : A} → ok a ≡ ok b → a ≡ b
ok-injective h = cc h
