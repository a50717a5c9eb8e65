-- ===== src/Exec/NoPanic.antt =====
-- Actions that do not end in a run-time panic, with one rule for each way to build an action.
use space_daemon.Exec.{Exec, attempt, continue, lift, pure, ◌>>=◌}
use space_daemon.Outcome.{Result, ok, err, panic}
use space_daemon.Prelude.{Bool, true, false, if◌then◌else◌, ◌≡◌, ◌≢◌, refl}

pub record NoPanic {ℓ κ} {S : Type ℓ} {A : Type κ} (m : Exec S A) : Type (ℓ ⊔ κ) where
  pub at : (s : S) → (m s).0 ≢ err panic

module _ {ℓ κ} {S : Type ℓ} {A : Type κ} where
  pub NoPanic-pure : (a : A) → NoPanic (pure {S = S} a)
  unfolding pure
  NoPanic-pure a = record { at = λ s h. cc h }

  pub NoPanic-lift : (r : Result A) → r ≢ err panic → NoPanic (lift {S = S} r)
  unfolding lift
  NoPanic-lift r h = record { at = λ s e. h e }

  pub NoPanic-attempt : (m : Exec S A) → NoPanic (attempt m)
  unfolding attempt
  NoPanic-attempt m = record { at = λ s h. cc h }

  pub if-NoPanic :
      (b : Bool) (m n : Exec S A) → NoPanic m → NoPanic n → NoPanic (if b then m else n)
  if-NoPanic true m n hm hn = hm
  if-NoPanic false m n hm hn = hn

module _ {ℓ κ μ} {S : Type ℓ} {A : Type κ} {B : Type μ} where
  continue-NoPanic :
      (r : Result A) (f : A → Exec S B) (s : S)
      → r ≢ err panic
      → ((a : A) → r ≡ ok a → NoPanic (f a))
      → (continue r f s).0 ≢ err panic
  continue-NoPanic (ok a) f s h k = (k a refl).at s
  continue-NoPanic (err e) f s h k = λ e'. h (cc e')

  -- The second action may rely on what the first one has returned.
  pub NoPanic-bind :
      (m : Exec S A) (f : A → Exec S B)
      → NoPanic m
      → ((s : S) (a : A) → (m s).0 ≡ ok a → NoPanic (f a))
      → NoPanic (m >>= f)
  unfolding ◌>>=◌
  NoPanic-bind m f h k = record { at = λ s. continue-NoPanic (m s).0 f (m s).1 (h.at s) (k s) }
