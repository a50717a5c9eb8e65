-- ===== src/Sync/Steady.antt =====
-- The actions of core/textile/sync that leave the synchronizer as it is, and what others make of it.
use space_daemon.Exec.{Exec, pure, attempt, continue, ◌>>=◌, when}
use space_daemon.Exec.Follows.{Follows, IsPreorder, Follows-pure, Follows-attempt, Follows-bind}
use space_daemon.Outcome.{Result, ok, err}
use space_daemon.Prelude.{Bool, true, false, ◌≡◌, refl, sym, ◌∙◌, subst}
use space_daemon.Sync.Deps.{System, outside, inside}
use space_daemon.Sync.Queue.{Synchronizer}

module _ {W : Type 0} where
  abbrev pub Same : System W → System W → Type 0
  Same a b = b.sync ≡ a.sync

  same : IsPreorder Same
  same = record { same = λ s. refl; trans = λ h k. k ∙ h }

  abbrev pub Steady : {A : Type 0} → Exec (System W) A → Type 0
  Steady m = Follows Same m

  pub Steady-outside : {A : Type 0} (m : Exec W A) → Steady (outside m)
  unfolding outside
  Steady-outside m = record { at = λ s. refl }

  pub Steady-pure : {A : Type 0} (a : A) → Steady (pure a)
  Steady-pure = Follows-pure same

  pub Steady-attempt : {A : Type 0} (m : Exec (System W) A) → Steady m → Steady (attempt m)
  Steady-attempt = Follows-attempt same

  pub Steady-bind :
      {A B : Type 0} (m : Exec (System W) A) (f : A → Exec (System W) B)
      → Steady m
      → ((a : A) → Steady (f a))
      → Steady (m >>= f)
  Steady-bind = Follows-bind same

  pub Steady-when : (b : Bool) (m : Exec (System W) (Unit {0})) → Steady m → Steady (when b m)
  Steady-when true m h = h
  Steady-when false m h = Steady-pure tt

  -- where `P` holds of the synchronizer before and the action succeeds, `Q` holds of it after
  pub record Leaves {A : Type 0} (P Q : Synchronizer → Type 0) (m : Exec (System W) A)
      : Type 0 where
    pub at : (s : System W) (a : A) → P s.sync → (m s).0 ≡ ok a → Q (m s).1.sync

  module _ (P : Synchronizer → Type 0) where
    pub Leaves-Steady : {A : Type 0} (m : Exec (System W) A) → Steady m → Leaves P P m
    Leaves-Steady m h = record { at = λ s a p e. subst P (sym (h.at s)) p }

    pub Leaves-inside :
        (Q : Synchronizer → Type 0) (f : Synchronizer → Synchronizer)
        → ((s : Synchronizer) → P s → Q (f s))
        → Leaves P Q (inside f)
    unfolding inside
    Leaves-inside Q f h = record { at = λ s a p e. h s.sync p }

  module _ {A B : Type 0} {Q R : Synchronizer → Type 0} where
    onwards :
        (r : Result A) (s : System W) (f : A → Exec (System W) B)
        → ((a : A) → r ≡ ok a → Q s.sync)
        → ((a : A) → Leaves Q R (f a))
        → (b : B) → (continue r f s).0 ≡ ok b
        → R (continue r f s).1.sync
    onwards (ok a) s f h k b e = (k a).at s b (h a refl) e
    onwards (err x) s f h k b e = absurd (cc e)

    pub Leaves-bind :
        {P : Synchronizer → Type 0} (m : Exec (System W) A) (f : A → Exec (System W) B)
        → Leaves P Q m
        → ((a : A) → Leaves Q R (f a))
        → Leaves P R (m >>= f)
    unfolding ◌>>=◌
    Leaves-bind m f h k = record {
      at = λ s b p e. onwards (m s).0 (m s).1 f (λ a eq. h.at s a p eq) k b e;
    }

pub ruleset steady_rules = (Steady-outside, Steady-pure, Steady-attempt, Steady-bind, Steady-when)
