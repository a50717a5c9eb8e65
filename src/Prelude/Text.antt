-- ===== src/Prelude/Text.antt =====
-- What the program uses of Go's `strings` and `path` packages, over the native texts.
use Prim.Native.Char.{Char, code}
use Prim.Native.String.{String, [], ◌∷◌, ◌++◌}
use Prim.Native.String.append
use mathlib.Core.Bool.{Bool, true, false}
use mathlib.Core.Logic.{inl, inr}
use mathlib.Core.Option.{Option, some, none}
use native.Mathlib.Omega.{arith}
use mathlib.Core.List.{List}
use mathlib.Core.Path.{◌≡◌, refl}
use space_daemon.Prelude.Tests.{◌==◌, if◌then◌else◌, Bool-cases}

-- strings.Join
unfoldable pub join : String → List String → String
join sep List.[] = ""
join sep (List.◌∷◌ x List.[]) = x
join sep (List.◌∷◌ x (List.◌∷◌ y r)) = x ++ (sep ++ join sep (List.◌∷◌ y r))

abbrev pub char_eq : Char → Char → Bool
char_eq c d = code c == code d

-- the first piece, and the other pieces, of a text cut at each `sep`
abbrev pub add_char : Char → List String → List String
add_char c List.[] = List.◌∷◌ (c ∷ []) List.[]
add_char c (List.◌∷◌ p ps) = List.◌∷◌ (c ∷ p) ps

-- strings.Split for a separator of one character: at least one piece
unfoldable pub split : Char → String → List String
split sep [] = List.◌∷◌ "" List.[]
split sep (c ∷ s) =
    let rest = split sep s in if char_eq c sep then List.◌∷◌ "" rest else add_char c rest

-- the rest of a text that starts with the given one
unfoldable pub strip : String → String → Option String
strip [] s = some s
strip (c ∷ p) [] = none
strip (c ∷ p) (d ∷ s) = if char_eq c d then strip p s else none

abbrev pub cut_at : Char → Option String → String × Option String → String × Option String
cut_at c (some rest) r = ("", some rest)
cut_at c none (a, r) = (c ∷ a, r)

-- The text before the first place where the separator stands, and the text after it, if there is
-- one: strings.Split continues in the latter.
unfoldable pub cut : String → String → String × Option String
unfolding strip
cut sep [] = ("", none)
cut sep (c ∷ s) = cut_at c (strip sep (c ∷ s)) (cut sep s)

-- no character of the text is the given one
unfoldable pub lacks : Char → String → Bool
lacks c [] = true
lacks c (d ∷ s) = let rest = lacks c s in if char_eq c d then false else rest

-- the rest of a text from the first place where a character stands
unfoldable pub from_char : Char → String → Option String
from_char c [] = none
from_char c (d ∷ s) = let rest = from_char c s in if char_eq d c then some (d ∷ s) else rest

pub char_eq_refl : (c : Char) → char_eq c c ≡ true
char_eq_refl c = ground arith

pub lacks-append :
    (c : Char) (s t : String) → lacks c s ≡ true → lacks c t ≡ true → lacks c (s ++ t) ≡ true
unfolding lacks
lacks-append c [] t h k = rw (append.nil t) k
lacks-append c (d ∷ s) t h k = elim (Bool-cases (char_eq c d)) [
  | inl e ↦ ground (arith, h, e)
  | inr e ↦ rw (append.cons d s t, e) (lacks-append c s t (rw e at h) k)
]

-- Splitting at a character that the text lacks leaves it whole.
pub split-lacks : (c : Char) (s : String) → lacks c s ≡ true → split c s ≡ List.◌∷◌ s List.[]
unfolding lacks split
split-lacks c [] h = refl
split-lacks c (d ∷ s) h = elim (Bool-cases (char_eq c d)) [
  | inl e ↦ ground (arith, h, e)
  | inr e ↦
      let f : char_eq d c ≡ false = ground (arith, e) in rw (f, split-lacks c s (rw e at h)) refl
]

-- Splitting at a character finds the first place where it stands.
pub split-append :
    (c : Char) (s t : String) → lacks c s ≡ true → split c (s ++ (c ∷ t)) ≡ List.◌∷◌ s (split c t)
unfolding lacks split
split-append c [] t h = rw (append.nil (c ∷ t), char_eq_refl c) refl
split-append c (d ∷ s) t h = elim (Bool-cases (char_eq c d)) [
  | inl e ↦ ground (arith, h, e)
  | inr e ↦
      let f : char_eq d c ≡ false = ground (arith, e) in
      rw (append.cons d s (c ∷ t), f, split-append c s t (rw e at h)) refl
]

pub strip-append : (p s : String) → strip p (p ++ s) ≡ some s
unfolding strip
strip-append [] s = rw (append.nil s) refl
strip-append (c ∷ p) s = rw (append.cons c p s, char_eq_refl c) (strip-append p s)

-- What precedes a separator that starts with a character it lacks is cut off whole.
pub cut-append :
    (c : Char) (p s t : String) → lacks c s ≡ true → cut (c ∷ p) (s ++ ((c ∷ p) ++ t)) ≡ (s, some t)
unfolding lacks cut strip
cut-append c p [] t h =
    rw (append.nil ((c ∷ p) ++ t), append.cons c p t, char_eq_refl c, strip-append p t) refl
cut-append c p (d ∷ s) t h = elim (Bool-cases (char_eq c d)) [
  | inl e ↦ ground (arith, h, e)
  | inr e ↦ rw (append.cons d s ((c ∷ p) ++ t), e, cut-append c p s t (rw e at h)) refl
]

cut_at-none :
    (c : Char) (s : String) (o : Option String) (r : String × Option String)
    → (cut_at c o r).1 ≡ none
    → (r.1 ≡ none → r.0 ≡ s)
    → (cut_at c o r).0 ≡ c ∷ s
cut_at-none c s none (a, r) e h = rw (h e) refl
cut_at-none c s (some x) r e h = ground (arith, e)

-- A text without the separator is its own first piece.
pub cut-none : (sep s : String) → (cut sep s).1 ≡ none → (cut sep s).0 ≡ s
unfolding cut
cut-none sep [] h = refl
cut-none sep (c ∷ s) h = cut_at-none c s _ _ h (cut-none sep s)

split_dots : split "." "a.b..c" ≡ List.◌∷◌ "a" (List.◌∷◌ "b" (List.◌∷◌ "" (List.◌∷◌ "c" List.[])))
unfolding split
split_dots = refl
