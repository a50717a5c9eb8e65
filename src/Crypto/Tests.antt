-- ===== src/Crypto/Tests.antt =====
-- Ciphers that meet the laws and can be run: a "byte" is a character with a mark, which the cipher
-- flips.
use Prim.Native.String.{[] as empty, ◌∷◌ as ◌::◌}
use space_daemon.Crypto.{
  Ciphers, Keys, buffer, new_decrypt_reader, encrypt_path_items, decrypt_path_items,
}
use space_daemon.Crypto.Paths.{squeeze, char_eq-path, not_empty}
use space_daemon.Crypto.RoundTrip.{
  AreCiphers, AreSized, authenticated, new_decrypt_reader-authenticated,
}
use space_daemon.Crypto.Whole.{
  decrypt_path_items-encrypt_path_items, encrypt_path_items-squeeze, new_decrypt_reader-accepted,
}
use space_daemon.Outcome.{Result, ok, err, external, ◌>>=◌}
use space_daemon.Prelude.{
  none, ◌<◌, Char, String, Bool, true, false, not, ◌&&◌, List, [], ◌∷◌, ◌++◌, some, length,
  replicate, length-append, str_eq, if◌then◌else◌, ◌≡◌, refl, ap, subst, ◌↔◌, arith, Bool-cases,
  inl, inr,
}
use space_daemon.Prelude.Slices.{take, length-take}
use space_daemon.Prelude.Text.{char_eq, lacks}

abbrev pub Mark : Type 0
Mark = Bool × Char

abbrev flip : List Mark → List Mark
flip [] = []
flip ((b, c) ∷ rest) = (not b, c) ∷ flip rest

flip-flip : (m : List Mark) → flip (flip m) ≡ m
flip-flip [] = refl
flip-flip ((true, c) ∷ rest) = ap (λ l. (true, c) ∷ l) (flip-flip rest)
flip-flip ((false, c) ∷ rest) = ap (λ l. (false, c) ∷ l) (flip-flip rest)

abbrev padding : List Mark
padding = replicate 64 (true, "0")

abbrev code_of : List Mark → List Mark → List Mark
code_of key m = take 64 (m ++ (key ++ padding))

length-padding : length padding ≡ 64
length-padding = refl

code_of-length : (key m : List Mark) → length (code_of key m) ≡ 64
code_of-length key m =
    let outer = length-append m (key ++ padding) in
    let inner = length-append key padding in
    length-take 64 (m ++ (key ++ padding)) (omega (arith, outer, inner, length-padding))

abbrev same_bool : Bool → Bool → Bool
same_bool true b = b
same_bool false b = not b

abbrev same : List Mark → List Mark → Bool
same [] [] = true
same [] (y ∷ ys) = false
same (x ∷ xs) [] = false
same ((a, c) ∷ xs) ((b, d) ∷ ys) = same_bool a b && (char_eq c d && same xs ys)

same_bool-path : (a b : Bool) → same_bool a b ≡ true → a ≡ b
same_bool-path true true h = refl
same_bool-path true false h = absurd (cc h)
same_bool-path false true h = absurd (cc h)
same_bool-path false false h = refl

both_true : (a b : Bool) → (a && b) ≡ true → (a ≡ true) × (b ≡ true)
both_true true b h = (refl, h)
both_true false b h = absurd (cc h)

same-path : (xs ys : List Mark) → same xs ys ≡ true → xs ≡ ys
same-path [] [] h = refl
same-path [] (y ∷ ys) h = absurd (cc h)
same-path (x ∷ xs) [] h = absurd (cc h)
same-path ((a, c) ∷ xs) ((b, d) ∷ ys) h =
    let (bools, others) = both_true (same_bool a b) (char_eq c d && same xs ys) h in
    let (chars, lists) = both_true (char_eq c d) (same xs ys) others in
    let e = same_bool-path a b bools in
    let f = char_eq-path c d chars in let g = same-path xs ys lists in cc (e, f, g)

same_refl : (xs : List Mark) → same xs xs ≡ true
same_refl [] = refl
same_refl ((true, c) ∷ xs) = ground (arith, same_refl xs)
same_refl ((false, c) ∷ xs) = ground (arith, same_refl xs)

abbrev letter : Bool → Char
letter true = "t"
letter false = "f"

abbrev pub encode : List Mark → String
encode [] = ""
encode ((b, c) ∷ rest) =
    let slash = char_eq c "/" in
    letter b :: (letter slash :: ((if slash then "x" else c) :: encode rest))

abbrev pub decode : String → Result (List Mark)
decode empty = ok []
decode (b :: empty) = err (external "odd length")
decode (b :: (s :: empty)) = err (external "odd length")
decode (b :: (s :: (c :: rest))) =
    decode rest >>= λ others. ok ((char_eq b "t", if char_eq s "t" then "/" else c) ∷ others)

decode-letter : (b : Bool) → char_eq (letter b) "t" ≡ b
decode-letter true = refl
decode-letter false = refl

pub decode-encode : (m : List Mark) → decode (encode m) ≡ ok m
decode-encode [] = refl
decode-encode ((b, c) ∷ rest) = elim (Bool-cases (char_eq c "/")) [
  | inl e ↦ rw (e, decode-encode rest, decode-letter b, char_eq-path c "/" e) refl
  | inr e ↦ rw (e, decode-encode rest, decode-letter b) refl
]

letter-lacks : (b : Bool) → char_eq "/" (letter b) ≡ false
letter-lacks true = refl
letter-lacks false = refl

encode-lacks : (m : List Mark) → lacks "/" (encode m) ≡ true
unfolding lacks
encode-lacks [] = refl
encode-lacks ((b, c) ∷ rest) = elim (Bool-cases (char_eq c "/")) [
  | inl e ↦ rw (e, letter-lacks b) (encode-lacks rest)
  | inr e ↦
      let other : char_eq "/" c ≡ false = ground (arith, e) in
      rw (e, letter-lacks b, other) (encode-lacks rest)
]

abbrev pub bytes : String → List Mark
bytes empty = []
bytes (c :: s) = (false, c) ∷ bytes s

abbrev text : List Mark → String
text [] = ""
text ((b, c) ∷ rest) = c :: text rest

text-bytes : (s : String) → text (bytes s) ≡ s
text-bytes empty = refl
text-bytes (c :: s) = ap (λ t. c :: t) (text-bytes s)

abbrev pub marks : Ciphers Mark
marks = record {
  new_cipher = λ key. ok tt;
  ctr = λ key iv m. flip m;
  hmac = code_of;
  equal = same;
  encode_to_string = encode;
  decode_string = decode;
  temp_file = ok tt;
  bytes = bytes;
  text = text;
}

encode_filled : (m : List Mark) → 0 < length m → str_eq (encode m) "" ≡ false
encode_filled [] h = elim h [ ]
encode_filled ((b, c) ∷ rest) h = not_empty _ _

pub marks-AreCiphers : AreCiphers marks
marks-AreCiphers = record {
  new_cipher_32 = λ key h. refl;
  ctr_twice = λ key iv m. flip-flip m;
  hmac_64 = code_of-length;
  equal_iff = λ a b. (same-path a b, λ e. subst (λ l. same a l ≡ true) e (same_refl a));
  decode_encode = decode-encode;
  encode_lacks = encode-lacks;
  encode_filled = encode_filled;
  text_bytes = text-bytes;
}

abbrev pub key80 : List Mark
key80 = replicate 80 (true, "k")

abbrev pub keys : Keys Mark
keys = record {
  aes_key = replicate 32 (true, "k");
  iv = replicate 16 (true, "k");
  hmac_key = replicate 32 (true, "k");
}

pub keys-AreSized : AreSized keys
keys-AreSized = record { aes_32 = refl; iv_16 = refl; hmac_32 = refl }

decrypt_path_items-encrypt_path_items_example :
    (encrypt_path_items marks key80 "/docs//a.txt" (some (buffer (bytes "hello"))) >>= λ sent.
    decrypt_path_items marks key80 sent.0 sent.1)
    ≡ ok (squeeze true "/docs//a.txt", some (buffer (bytes "hello")))
decrypt_path_items-encrypt_path_items_example =
    decrypt_path_items-encrypt_path_items marks marks-AreCiphers key80 "/docs//a.txt"
      (bytes "hello") refl refl

squeezed : squeeze true "/docs//a.txt" ≡ "docs/a.txt"
unfolding squeeze
squeezed = refl

encrypt_path_items-squeeze_example :
    (a b : String) × (encrypt_path_items marks key80 "/a/b" none ≡ ok (a, none))
    × (encrypt_path_items marks key80 "a//b" none ≡ ok (b, none))
    × ((a ≡ b) ↔ (squeeze true "/a/b" ≡ squeeze true "a//b"))
encrypt_path_items-squeeze_example =
    encrypt_path_items-squeeze marks marks-AreCiphers key80 "/a/b" "a//b" refl refl

abbrev sent : List Mark
sent = flip (bytes "hi") ++ code_of keys.hmac_key (flip (bytes "hi"))

sent_is_read : new_decrypt_reader marks (buffer sent) keys ≡ ok (buffer (bytes "hi"))
unfolding new_decrypt_reader
sent_is_read = refl

new_decrypt_reader-authenticated_example :
    new_decrypt_reader marks (buffer sent) keys ≡ authenticated marks keys sent
new_decrypt_reader-authenticated_example = new_decrypt_reader-authenticated marks keys sent

new_decrypt_reader-accepted_example :
    (written : List Mark) × (sent ≡ written ++ code_of keys.hmac_key written)
    × (buffer (bytes "hi") ≡ buffer (flip written))
new_decrypt_reader-accepted_example =
    new_decrypt_reader-accepted marks marks-AreCiphers keys keys-AreSized sent (buffer (bytes "hi"))
      sent_is_read
