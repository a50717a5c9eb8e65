-- ===== src/Exec/Returns.antt =====
-- What an action that returns a value has done.
use space_daemon.Exec.{Exec, continue, ◌>>=◌}
use space_daemon.Outcome.{Err, Result, ok, err}
use space_daemon.Prelude.{◌≡◌, refl, ap, sym, ◌∙◌}

module _ {ℓ κ μ} {S : Type ℓ} {A : Type κ} {B : Type μ} where
  continue-ok :
      (r : Result A) (f : A → Exec S B) (s : S) (b : B)
      → (continue r f s).0 ≡ ok b
      → (a : A) × (r ≡ ok a) × (continue r f s ≡ f a s)
  continue-ok (ok a) f s b h = (a, refl, refl)
  continue-ok (err e) f s b h = absurd (cc h)

  -- Where a sequence returns a value, its first action returned one, and the second did the rest.
  pub bind-ok :
      (m : Exec S A) (f : A → Exec S B) (s : S) (b : B)
      → ((m >>= f) s).0 ≡ ok b
      → (a : A) × ((m s).0 ≡ ok a) × ((m >>= f) s ≡ f a (m s).1)
  unfolding ◌>>=◌
  bind-ok m f s b h = continue-ok (m s).0 f (m s).1 b h

  -- The same, with what the second action returned.
  pub bind-step :
      (m : Exec S A) (f : A → Exec S B) (s : S) (b : B)
      → ((m >>= f) s).0 ≡ ok b
      → (a : A) × ((m s).0 ≡ ok a) × ((f a (m s).1).0 ≡ ok b)
  bind-step m f s b h = let (a, e, same) = bind-ok m f s b h in (a, e, ap (λ p. p.0) (sym same) ∙ h)

  -- The same, with the state that it leaves.
  pub bind-through :
      (m : Exec S A) (f : A → Exec S B) (s : S) (b : B)
      → ((m >>= f) s).0 ≡ ok b
      → (a : A) × ((m s).0 ≡ ok a) × ((f a (m s).1).0 ≡ ok b) × (((m >>= f) s).1 ≡ (f a (m s).1).1)
  bind-through m f s b h =
      let (a, e, same) = bind-ok m f s b h in
      (a, e, ap (λ p. p.0) (sym same) ∙ h, ap (λ p. p.1) same)

module _ {ℓ κ μ ν} {S : Type ℓ} {A : Type κ} {B : Type μ} (P : S → Type ν) where
  continue-leaves :
      (r : Result A) (f : A → Exec S B) (s : S)
      → ((e : Err) → r ≡ err e → P s)
      → ((a : A) → r ≡ ok a → P (f a s).1)
      → P (continue r f s).1
  continue-leaves (ok a) f s h k = k a refl
  continue-leaves (err e) f s h k = h e refl

  -- What holds of the state that a sequence leaves, whether its first action returned or raised.
  pub bind-leaves :
      (m : Exec S A) (f : A → Exec S B) (s : S)
      → ((e : Err) → (m s).0 ≡ err e → P (m s).1)
      → ((a : A) → (m s).0 ≡ ok a → P (f a (m s).1).1)
      → P ((m >>= f) s).1
  unfolding ◌>>=◌
  bind-leaves m f s h k = continue-leaves (m s).0 f (m s).1 h k
