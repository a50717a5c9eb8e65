-- ===== src/Prelude/Cuts.antt =====
-- The first piece of a text that is cut at a separator does not have the separator.
use Prim.Native.String.append
use Prim.Native.String.{String, [], ◌∷◌, ◌++◌}
use mathlib.Core.Logic.{inl, inr}
use mathlib.Core.Option.{none, some}
use mathlib.Core.Path.{◌≡◌, refl, ap, sym, ◌∙◌}
use space_daemon.Prelude.Tests.{Bool-cases, Option-cases}
use space_daemon.Prelude.Text.{char_eq, strip, cut}

strip-longer : (p s t x : String) → strip p s ≡ some x → strip p (s ++ t) ≡ some (x ++ t)
unfolding strip
strip-longer [] s t x h = cc h
strip-longer (c ∷ p) [] t x h = absurd (cc h)
strip-longer (c ∷ p) (d ∷ s) t x h = elim (Bool-cases (char_eq c d)) [
  | inl e ↦ rw (append.cons d s t, e) (strip-longer p s t x (rw e at h))
  | inr e ↦ absurd (cc (rw e at h))
]

-- what is cut off stands at the start
cut-start : (sep s : String) → (t : String) × (s ≡ (cut sep s).0 ++ t)
unfolding cut
cut-start sep [] = ([], sym (append.nil []))
cut-start sep (c ∷ s) = elim (Option-cases (strip sep (c ∷ s))) [
  | inr found ↦ let (x, e) = found in rw e (c ∷ s, sym (append.nil (c ∷ s)))
  | inl e ↦
      let (t, rest) = cut-start sep s in
      rw e (t, ap (λ u. c ∷ u) rest ∙ sym (append.cons c (cut sep s).0 t))
]

pub cut-first : (sep s : String) → (cut sep (cut sep s).0).1 ≡ none
unfolding cut
cut-first sep [] = refl
cut-first sep (c ∷ s) = elim (Option-cases (strip sep (c ∷ s))) [
  | inr found ↦ let (x, e) = found in rw e refl
  | inl e ↦ rw e (elim (Option-cases (strip sep (c ∷ (cut sep s).0))) [
    | inl f ↦ rw f (cut-first sep s)
    | inr found ↦
        let (x, f) = found in
        let (t, whole) = cut-start sep s in
        let longer = strip-longer sep (c ∷ (cut sep s).0) t x f in
        let same = ap (λ u. c ∷ u) whole ∙ sym (append.cons c (cut sep s).0 t) in
        absurd (cc (sym e ∙ ap (strip sep) same ∙ longer))
  ])
]
