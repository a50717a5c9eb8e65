-- ===== src/Exec.antt =====
-- Methods that change an object and return `(value, error)`. What was written before an error is
-- returned stays written, so the state comes back beside the error too.
pub mod Follows
pub mod NoPanic
pub mod Returns
use space_daemon.Outcome.{Err, Result, ok, err, Failure}
use space_daemon.Prelude.{Bool}

abbrev pub Exec {ℓ κ} : Type ℓ → Type κ → Type (ℓ ⊔ κ)
Exec S A = S → Result A × S

module _ {ℓ κ} {S : Type ℓ} {A : Type κ} where
  unfoldable pub pure : A → Exec S A
  pure a s = (ok a, s)

  -- return err
  unfoldable pub raise : Err → Exec S A
  raise e s = (err e, s)

  unfoldable pub lift : Result A → Exec S A
  lift r s = (r, s)

  unfoldable pub gets : (S → A) → Exec S A
  gets view st = (ok (view st), st)

  -- `x, err := m` where the code goes on whatever the error is
  unfoldable pub attempt : Exec S A → Exec S (Result A)
  attempt action st = let (outcome, st') = action st in (ok outcome, st')

unfoldable pub modify {ℓ} : {S : Type ℓ} → (S → S) → Exec S (Unit {0})
modify f s = (ok tt, f s)

module _ {ℓ κ μ} {S : Type ℓ} {A : Type κ} {B : Type μ} where
  abbrev pub continue : Result A → (A → Exec S B) → Exec S B
  continue (ok value) next st = next value st
  continue (err failure) next st = (err failure, st)

  infixl 10 ◌>>=◌
  -- `unfolding` this unfolds the actions above too
  unfoldable pub ◌>>=◌ : Exec S A → (A → Exec S B) → Exec S B
  unfolding pure raise lift gets attempt modify
  ◌>>=◌ first next st = let (outcome, st') = first st in continue outcome next st'

  infixl 10 ◌>>◌
  abbrev pub ◌>>◌ : Exec S A → Exec S B → Exec S B
  first >> second = first >>= λ ignored. second

-- if b { m }
abbrev pub when {ℓ} : {S : Type ℓ} → Bool → Exec S (Unit {0}) → Exec S (Unit {0})
when Bool.true m = m
when Bool.false m = pure tt
