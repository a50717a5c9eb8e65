-- ===== src/Sync/Kept/Rules.antt =====
-- One rule for each way in which core/textile/sync builds a task, for what a task keeps.
use space_daemon.Exec.{Exec, pure, raise, attempt, lift, ◌>>=◌, when}
use space_daemon.Exec.Follows.{
  Follows, Follows-pure, Follows-raise, Follows-lift, Follows-attempt, Follows-if, Follows-bind,
}
use space_daemon.Outcome.{Err, Result}
use space_daemon.Prelude.{Bool, true, false, if◌then◌else◌}
use space_daemon.Sync.Deps.{System, outside, inside}
use space_daemon.Sync.Kept.{Kept, Kept-refl, KeptIn, KeptIn-preorder}
use space_daemon.Sync.Queue.{Synchronizer}

module _ {W : Type 0} where
  abbrev pub Keeps : {A : Type 0} → Exec (System W) A → Type 0
  Keeps m = Follows KeptIn m

  pub Keeps-outside : {A : Type 0} (m : Exec W A) → Keeps (outside m)
  unfolding outside
  Keeps-outside m = record { at = λ s. Kept-refl s.sync }

  pub Keeps-inside :
      (f : Synchronizer → Synchronizer) → ((s : Synchronizer) → Kept s (f s)) → Keeps (inside f)
  unfolding inside
  Keeps-inside f h = record { at = λ s. h s.sync }

  pub Keeps-pure : {A : Type 0} (a : A) → Keeps (pure a)
  Keeps-pure = Follows-pure KeptIn-preorder

  pub Keeps-raise : {A : Type 0} (e : Err) → Keeps (raise {A = A} e)
  Keeps-raise = Follows-raise KeptIn-preorder

  pub Keeps-lift : {A : Type 0} (r : Result A) → Keeps (lift r)
  Keeps-lift = Follows-lift KeptIn-preorder

  pub Keeps-attempt : {A : Type 0} (m : Exec (System W) A) → Keeps m → Keeps (attempt m)
  Keeps-attempt = Follows-attempt KeptIn-preorder

  pub Keeps-if :
      {A : Type 0} (b : Bool) (m n : Exec (System W) A)
      → Keeps m
      → Keeps n
      → Keeps (if b then m else n)
  Keeps-if = Follows-if KeptIn-preorder

  pub Keeps-bind :
      {A B : Type 0} (m : Exec (System W) A) (f : A → Exec (System W) B)
      → Keeps m
      → ((a : A) → Keeps (f a))
      → Keeps (m >>= f)
  Keeps-bind = Follows-bind KeptIn-preorder

  pub Keeps-when : (b : Bool) (m : Exec (System W) (Unit {0})) → Keeps m → Keeps (when b m)
  Keeps-when true m h = h
  Keeps-when false m h = Keeps-pure tt

pub ruleset exec_rules = (
  Keeps-outside, Keeps-inside, Keeps-pure, Keeps-raise, Keeps-lift, Keeps-attempt, Keeps-if,
  Keeps-when, Keeps-bind,
)
