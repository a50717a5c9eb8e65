-- ===== src/Crypto/Blocks.antt =====
-- core/textile/bucket/crypto/decrypter.go: reading a message block by block.
use space_daemon.Crypto.{last_block, hmac_size, scan_blocks}
use space_daemon.Outcome.{ok}
use space_daemon.Prelude.{
  ℕ, zero, suc, ◌-◌, ◌+◌, ◌<◌, ◌≤◌, List, ◌++◌, none, length, ltb, ◌≡◌, refl, ap, ◌∙◌, inl, inr,
  arith, Bool-cases,
}
use space_daemon.Prelude.Slices.{take, drop, append_assoc, take-add, drop-add, length-drop}

module _ {Byte : Type 0} where
  moved :
      (a n : ℕ) (written left : List Byte)
      → a ≤ n
      → (written ++ take a left) ++ take (n - a) (drop a left) ≡ written ++ take n left
  moved a n written left h =
      let e : a + (n - a) ≡ n = omega arith in
      append_assoc written (take a left) (take (n - a) (drop a left))
      ∙ ap (λ l. written ++ l) (take-add a (n - a) left ∙ ap (λ k. take k left) e)

  rest_moved : (a n : ℕ) (left : List Byte) → a ≤ n → drop (n - a) (drop a left) ≡ drop n left
  rest_moved a n left h =
      let e : a + (n - a) ≡ n = omega arith in drop-add a (n - a) left ∙ ap (λ k. drop k left) e

  last_block-none :
      (written left : List Byte)
      → hmac_size ≤ length left
      → last_block written left none
        ≡ ok (written ++ take (length left - hmac_size) left, drop (length left - hmac_size) left)
  last_block-none written left h = ground (arith, h)

  -- Taking a block off first changes nothing.
  last_block-moved :
      (a : ℕ) (written left : List Byte)
      → a + hmac_size ≤ length left
      → last_block (written ++ take a left) (drop a left) none ≡ last_block written left none
  last_block-moved a written left h =
      let n = length left - hmac_size in
      let counted = length-drop a left in
      let e : length (drop a left) - hmac_size ≡ n - a = omega (arith, counted, h) in
      rw
        (
          last_block-none (written ++ take a left) (drop a left) (omega (arith, counted, h)),
          last_block-none written left (omega (arith, h)),
          e,
          moved a n written left (omega (arith, h)),
          rest_moved a n left (omega (arith, h)),
        )
        refl

  pub scan_blocks-whole :
      (block fuel : ℕ) (written left : List Byte)
      → hmac_size < block
      → length left < fuel
      → scan_blocks block fuel written left none ≡ last_block written left none
  unfolding scan_blocks
  scan_blocks-whole block zero written left room enough = ground (arith, enough)
  scan_blocks-whole block (suc fuel) written left room enough =
      elim (Bool-cases (ltb (length left) block)) [
        | inl short ↦ rw short refl
        | inr long ↦
            let counted = length-drop (block - hmac_size) left in
            let fits : block ≤ length left = ground (arith, long) in
            rw
              (
                long,
                scan_blocks-whole block fuel (written ++ take (block - hmac_size) left)
                    (drop (block - hmac_size) left) room
                    (omega (arith, counted, fits, room, enough)),
                last_block-moved (block - hmac_size) written left (omega (arith, fits, room)),
              )
              refl
      ]
