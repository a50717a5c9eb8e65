-- ===== src/Crypto/Paths.antt =====
-- Taking a path apart at its slashes and putting it together again, piece by piece.
use Prim.Native.String.append
use Prim.Native.String.{[] as empty, ◌∷◌ as ◌::◌}
use text.Mathlib.TextEquality.{Char-path}
use space_daemon.Crypto.{path_items, slash_before}
use space_daemon.Outcome.{Result, ok}
use space_daemon.Prelude.{
  Char, code, ==_iff, String, ◌<>◌, Bool, true, false, List, [], ◌∷◌, str_eq, eq_iff, if◌then◌else◌,
  ◌≡◌, refl, ap, sym, ◌∙◌, inl, inr, arith, Bool-cases,
}
use space_daemon.Prelude.Text.{split, lacks, char_eq, add_char, split-lacks, split-append}

pub char_eq-path : (c d : Char) → char_eq c d ≡ true → c ≡ d
char_eq-path c d h = Char-path c d ((==_iff (code c) (code d)).0 h)

pub append-empty : (s : String) → s <> "" ≡ s
append-empty empty = append.nil ""
append-empty (c :: s) = append.cons c s "" ∙ ap (λ t. c :: t) (append-empty s)

pub not_empty : (c : Char) (s : String) → str_eq (c :: s) "" ≡ false
not_empty c s = elim (Bool-cases (str_eq (c :: s) "")) [
  | inl e ↦ absurd (cc ((eq_iff (c :: s) "").0 e))
  | inr e ↦ e
]

-- the pieces that stand between slashes
abbrev pub ArePieces : List String → Type 0
ArePieces [] = Unit
ArePieces (p ∷ ps) = (lacks "/" p ≡ true) × ArePieces ps

other_side : (c : Char) → char_eq c "/" ≡ false → char_eq "/" c ≡ false
other_side c h = ground (arith, h)

ArePieces-add_char :
    (c : Char) (ps : List String) → char_eq c "/" ≡ false → ArePieces ps → ArePieces (add_char c ps)
unfolding lacks
ArePieces-add_char c [] h k = (rw (other_side c h) refl, tt)
ArePieces-add_char c (p ∷ ps) h k = (rw (other_side c h) k.0, k.1)

pub split-ArePieces : (s : String) → ArePieces (split "/" s)
unfolding split lacks
split-ArePieces empty = (refl, tt)
split-ArePieces (c :: s) = elim (Bool-cases (char_eq c "/")) [
  | inl e ↦ rw e (refl, split-ArePieces s)
  | inr e ↦ rw e (ArePieces-add_char c (split "/" s) e (split-ArePieces s))
]

add_char-cons :
    (c : Char) (ps : List String) → (p : String) × (qs : List String) × (add_char c ps ≡ p ∷ qs)
add_char-cons c [] = (c :: empty, [], refl)
add_char-cons c (p ∷ ps) = (c :: p, ps, refl)

split-cons : (s : String) → (p : String) × (ps : List String) × (split "/" s ≡ p ∷ ps)
unfolding split
split-cons empty = ("", [], refl)
split-cons (c :: s) = elim (Bool-cases (char_eq c "/")) [
  | inl e ↦ rw e ("", split "/" s, refl)
  | inr e ↦ rw e (add_char-cons c (split "/" s))
]

slash_before-split : (s : String) → slash_before (split "/" s) ≡ "/"
slash_before-split s = let (p, ps, e) = split-cons s in rw e refl

-- what `path_items` makes where no piece fails
unfoldable pub joined : (String → String) → List String → String
joined name [] = ""
joined name (p ∷ ps) =
    let rest = joined name ps in if str_eq p "" then rest else name p <> (slash_before ps <> rest)

pub path_items-joined :
    (item : String → Result String) (name : String → String) (ps : List String)
    → ((p : String) → item p ≡ ok (name p))
    → path_items item ps ≡ ok (joined name ps)
unfolding path_items joined
path_items-joined item name [] h = refl
path_items-joined item name (p ∷ ps) h = elim (Bool-cases (str_eq p "")) [
  | inl e ↦ rw e (path_items-joined item name ps h)
  | inr e ↦ rw (e, h p, path_items-joined item name ps h) refl
]

-- names that can be told apart again in a path
pub record IsPathName (name : String → String) : Type 0 where
  pub lacking : (p : String) → lacks "/" p ≡ true → lacks "/" (name p) ≡ true
  pub filled : (p : String) → str_eq p "" ≡ false → str_eq (name p) "" ≡ false

-- Reading a path that starts with a name takes that name off.
path_items-first :
    (item : String → Result String) (n x rest others : String) (qs : List String)
    → lacks "/" n ≡ true
    → str_eq n "" ≡ false
    → item n ≡ ok x
    → path_items item (split "/" rest) ≡ ok others
    → path_items item (split "/" (n <> ("/" <> rest))) ≡ ok (x <> ("/" <> others))
unfolding path_items
path_items-first item n x rest others qs lacking filled read h =
    rw
      (
        append.cons "/" "" rest,
        append.nil rest,
        split-append "/" n rest lacking,
        filled,
        read,
        h,
        slash_before-split rest,
      )
      refl

path_items-last :
    (item : String → Result String) (n x : String)
    → lacks "/" n ≡ true
    → str_eq n "" ≡ false
    → item n ≡ ok x
    → path_items item (split "/" (n <> "")) ≡ ok (x <> "")
unfolding path_items
path_items-last item n x lacking filled read =
    rw (append-empty n, split-lacks "/" n lacking, filled, read) refl

-- Reading a path that was put together of such names comes upon the same pieces.
pub path_items-split :
    (item : String → Result String) (name result : String → String) (ps : List String)
    → IsPathName name
    → ((p : String) → item (name p) ≡ ok (result p))
    → ArePieces ps
    → path_items item (split "/" (joined name ps)) ≡ ok (joined result ps)
unfolding path_items joined split
path_items-split item name result [] h k a = refl
path_items-split item name result (p ∷ []) h k (a, b) = elim (Bool-cases (str_eq p "")) [
  | inl e ↦ rw e refl
  | inr e ↦
      rw (e, append.nil "")
        (path_items-last item (name p) (result p) (h.lacking p a) (h.filled p e) (k p))
]
path_items-split item name result (p ∷ (q ∷ qs)) h k (a, b) =
    let rest = path_items-split item name result (q ∷ qs) h k b in
    elim (Bool-cases (str_eq p "")) [
      | inl e ↦ rw e rest
      | inr e ↦ rw e (
          path_items-first item (name p) (result p) (joined name (q ∷ qs)) (joined result (q ∷ qs))
            qs (h.lacking p a) (h.filled p e) (k p) rest)
    ]

-- A path without its empty pieces: a slash at the start or behind another is left out.
unfoldable pub squeeze : Bool → String → String
squeeze after_slash empty = ""
squeeze after_slash (c :: s) =
    let behind_slash = squeeze true s in
    let behind_other = squeeze false s in
    if char_eq c "/"
    then (if after_slash then behind_slash else c :: behind_slash)
    else c :: behind_other

abbrev plain : String → String
plain p = p

abbrev with_first : List String → String
with_first [] = ""
with_first (p ∷ ps) = p <> (slash_before ps <> joined plain ps)

joined-add_char : (c : Char) (ps : List String) → joined plain (add_char c ps) ≡ c :: with_first ps
unfolding joined
joined-add_char c [] = rw (not_empty c "", append.nil "", append-empty (c :: empty)) refl
joined-add_char c (p ∷ ps) = rw (not_empty c p, append.cons c p _) refl

with_first-add_char :
    (c : Char) (ps : List String) → with_first (add_char c ps) ≡ c :: with_first ps
unfolding joined
with_first-add_char c [] = rw (append.nil "", append-empty (c :: empty)) refl
with_first-add_char c (p ∷ ps) = append.cons c p _

squeeze-split :
    (s : String)
    → (squeeze true s ≡ joined plain (split "/" s)) × (squeeze false s ≡ with_first (split "/" s))
unfolding squeeze split joined
squeeze-split empty = (refl, rw (append.nil "") refl)
squeeze-split (c :: s) =
    let (after, other) = squeeze-split s in
    elim (Bool-cases (char_eq c "/")) [
      | inl e ↦
          rw
            (
              e,
              after,
              slash_before-split s,
              append.nil,
              append.cons,
              append.nil,
              char_eq-path c "/" e,
            )
            (refl, refl)
      | inr e ↦
          rw (e, other, joined-add_char c (split "/" s), with_first-add_char c (split "/" s))
            (refl, refl)
    ]

pub joined-split : (s : String) → joined plain (split "/" s) ≡ squeeze true s
joined-split s = sym (squeeze-split s).0
