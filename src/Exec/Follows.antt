-- ===== src/Exec/Follows.antt =====
-- What an action may do to the state, as a relation between the state before and the state after,
-- with one rule for each way to build an action.
use space_daemon.Exec.{Exec, pure, raise, lift, gets, attempt, ◌>>=◌}
use space_daemon.Outcome.{Err, Result, ok, err}
use space_daemon.Prelude.{◌≡◌, refl, ◌∙◌, Bool, true, false, if◌then◌else◌}

-- the relation `R` leads from every state to the one that `m` leaves, whether it returns or raises
pub record Follows {ℓ} {S A : Type ℓ} (R : S → S → Type ℓ) (m : Exec S A) : Type ℓ where
  pub at : (s : S) → R s (m s).1

-- what makes a relation one that a sequence of actions respects
pub record IsPreorder {ℓ} {S : Type ℓ} (R : S → S → Type ℓ) : Type ℓ where
  pub same : (s : S) → R s s
  pub trans : {s t u : S} → R s t → R t u → R s u

-- an action that leaves the state as it is
abbrev pub Unmoved : {S : Type 0} → S → S → Type 0
Unmoved s t = t ≡ s

pub unmoved : {S : Type 0} → IsPreorder (Unmoved {S = S})
unmoved = record { same = λ s. refl; trans = λ h k. k ∙ h }

module _ {ℓ} {S : Type ℓ} {R : S → S → Type ℓ} (P : IsPreorder R) where
  module _ {A : Type ℓ} where
    pub Follows-pure : (a : A) → Follows R (pure a)
    unfolding pure
    Follows-pure a = record { at = P.same }

    pub Follows-raise : (e : Err) → Follows R (raise {A = A} e)
    unfolding raise
    Follows-raise e = record { at = P.same }

    pub Follows-lift : (r : Result A) → Follows R (lift r)
    unfolding lift
    Follows-lift r = record { at = P.same }

    pub Follows-gets : (f : S → A) → Follows R (gets f)
    unfolding gets
    Follows-gets f = record { at = P.same }

    pub Follows-attempt : (m : Exec S A) → Follows R m → Follows R (attempt m)
    unfolding attempt
    Follows-attempt m h = record { at = h.at }

    pub Follows-if :
        (b : Bool) (m n : Exec S A) → Follows R m → Follows R n → Follows R (if b then m else n)
    Follows-if true m n hm hn = hm
    Follows-if false m n hm hn = hn

  module _ {A B : Type ℓ} where
    Follows-continue :
        (r : Result A) (f : A → Exec S B) → ((a : A) → Follows R (f a)) → Follows R (lift r >>= f)
    unfolding ◌>>=◌
    Follows-continue (ok a) f h = h a
    Follows-continue (err e) f h = Follows-raise e

    pub Follows-bind :
        (m : Exec S A) (f : A → Exec S B)
        → Follows R m
        → ((a : A) → Follows R (f a))
        → Follows R (m >>= f)
    unfolding ◌>>=◌
    Follows-bind m f hm hf = record {
      at = λ s. let (r, s') = m s in P.trans (hm.at s) ((Follows-continue r f hf).at s');
    }
