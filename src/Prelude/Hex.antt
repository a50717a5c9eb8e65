-- ===== src/Prelude/Hex.antt =====
-- Go's `encoding/hex`: `EncodeToString` and `DecodeString`, over bytes as numbers.
use Prim.Native.Char.{Char, code}
use Prim.Native.Nat.{ℕ, zero, suc, ◌+◌, ◌-◌, ◌*◌, ◌/◌, ◌%◌, ◌<◌}
use Prim.Native.String.{String, [], ◌∷◌}
use mathlib.Core.Bool.{Bool, true, false, not, ◌&&◌}
use mathlib.Core.List.{List}
use mathlib.Core.Option.{Option, none, some}
use mathlib.Core.Path.{◌≡◌, refl, ap}
use native.Mathlib.Omega.{arith}
use space_daemon.Prelude.Text.{char_eq, lacks}
use mathlib.Core.Logic.{inl, inr}
use space_daemon.Prelude.Tests.{leb, ◌==◌, ==_iff, if◌then◌else◌, Bool-cases}

abbrev hex_char : ℕ → Char
hex_char zero = "0"
hex_char (suc zero) = "1"
hex_char (suc (suc zero)) = "2"
hex_char (suc (suc (suc zero))) = "3"
hex_char (suc (suc (suc (suc zero)))) = "4"
hex_char (suc (suc (suc (suc (suc zero))))) = "5"
hex_char (suc (suc (suc (suc (suc (suc zero)))))) = "6"
hex_char (suc (suc (suc (suc (suc (suc (suc zero))))))) = "7"
hex_char (suc (suc (suc (suc (suc (suc (suc (suc zero)))))))) = "8"
hex_char (suc (suc (suc (suc (suc (suc (suc (suc (suc zero))))))))) = "9"
hex_char (suc (suc (suc (suc (suc (suc (suc (suc (suc (suc zero)))))))))) = "a"
hex_char (suc (suc (suc (suc (suc (suc (suc (suc (suc (suc (suc zero))))))))))) = "b"
hex_char (suc (suc (suc (suc (suc (suc (suc (suc (suc (suc (suc (suc zero)))))))))))) = "c"
hex_char (suc (suc (suc (suc (suc (suc (suc (suc (suc (suc (suc (suc (suc zero))))))))))))) = "d"
hex_char (suc (suc (suc (suc (suc (suc (suc (suc (suc (suc (suc (suc (suc (suc zero)))))))))))))) =
    "e"
hex_char _ = "f"

unfoldable pub encode : List ℕ → String
encode List.[] = []
encode (List.◌∷◌ b bs) = hex_char (b / 16) ∷ (hex_char (b % 16) ∷ encode bs)

abbrev digit : Char → Option ℕ
digit ch =
    let c = code ch in
    if leb b'0' c && leb c b'9'
    then some (c - 48)
    else if leb b'a' c && leb c b'f'
    then some (c - 87)
    else if leb b'A' c && leb c b'F'
    then some (c - 55)
    else none

abbrev pair : Option ℕ → Option ℕ → Option ℕ
pair (some h) (some l) = some (h * 16 + l)
pair (some h) none = none
pair none _ = none

abbrev prepend : Option ℕ → Option (List ℕ) → Option (List ℕ)
prepend (some b) (some bs) = some (List.◌∷◌ b bs)
prepend (some b) none = none
prepend none _ = none

-- `none` is an error: a character that is no digit, or an odd length
unfoldable pub decode : String → Option (List ℕ)
decode [] = some List.[]
decode (h ∷ []) = none
decode (h ∷ (l ∷ s)) = prepend (pair (digit h) (digit l)) (decode s)

abbrev matches : ℕ → Option ℕ → Bool
matches n none = false
matches n (some m) = m == n

matches_eq : (n : ℕ) (o : Option ℕ) → matches n o ≡ true → o ≡ some n
matches_eq n o h = ground arith

every_digit : (ℕ → Bool) → ℕ → Bool
every_digit test zero = true
every_digit test (suc k) = if test k then every_digit test k else false

digit_passes : (test : ℕ → Bool) (k d : ℕ) → d < k → every_digit test k ≡ true → test d ≡ true
unfolding every_digit
digit_passes test zero d below passed = ground (arith, below)
digit_passes test (suc k) d below passed = elim (Bool-cases (test k)) [
  | inl here ↦ elim (Bool-cases (d == k)) [
    | inl last ↦ rw ((==_iff d k).0 last) here
    | inr other ↦
        digit_passes test k d (ground (arith, below, other)) (ground (arith, passed, here))
  ]
  | inr not_here ↦ ground (arith, passed, not_here)
]

digit_table : every_digit (λ n. matches n (digit (hex_char n))) 16 ≡ true
unfolding every_digit
digit_table = refl

digit-hex_char : (n : ℕ) → n < 16 → digit (hex_char n) ≡ some n
digit-hex_char n h =
    matches_eq n (digit (hex_char n))
      (digit_passes (λ k. matches k (digit (hex_char k))) 16 n h digit_table)

abbrev pub AreBytes : List ℕ → Type 0
AreBytes List.[] = Unit
AreBytes (List.◌∷◌ b bs) = (b < 256) × AreBytes bs

-- What is encoded is decoded again, for bytes.
pub decode-encode : (bs : List ℕ) → AreBytes bs → decode (encode bs) ≡ some bs
unfolding encode decode
decode-encode List.[] h = refl
decode-encode (List.◌∷◌ b bs) h =
    rw
      (
        digit-hex_char (b / 16) (omega arith),
        digit-hex_char (b % 16) (omega arith),
        decode-encode bs h.1,
      )
      (ap (λ (n : ℕ). some (List.◌∷◌ n bs)) (omega arith))

not-true : (b : Bool) → not b ≡ true → b ≡ false
not-true b h = ground (arith, h)

no_underscore : every_digit (λ n. not (char_eq "_" (hex_char n))) 16 ≡ true
unfolding every_digit
no_underscore = refl

-- The encoding has no underscore, for bytes.
pub encode-lacks : (bs : List ℕ) → AreBytes bs → lacks "_" (encode bs) ≡ true
unfolding encode lacks
encode-lacks List.[] h = refl
encode-lacks (List.◌∷◌ b bs) h =
    let high = digit_passes _ 16 (b / 16) (omega arith) no_underscore in
    let low = digit_passes _ 16 (b % 16) (omega arith) no_underscore in
    rw (not-true _ high, not-true _ low) (encode-lacks bs h.1)
