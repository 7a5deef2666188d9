-- ===== src/Detection/Fingerprint.antt =====
-- `windowFingerprint`: the digest of a window by the 32-bit hash FNV-1a.
use Prim.Native.Nat.{bit_xor, ◌^◌}
use spawnea.Prelude.{
  ℕ, zero, suc, ◌+◌, ◌*◌, ◌/◌, ◌%◌, ◌≡◌, ◌<◌, ◌-◌, refl, List, [], ◌∷◌, ◌++◌, arith, ltb,
  if◌then◌else◌, length,
}
use spawnea.Prelude.Units.{Text, decimal}
use spawnea.Rules.{join_lines}

-- One round: the exclusive or, then `Math.imul`; the number is read without its sign.
unfoldable pub hash_unit : ℕ → ℕ → ℕ
hash_unit hash c = bit_xor hash c * 0x01000193 % 2 ^ 32

unfoldable pub hash_text : ℕ → Text → ℕ
unfolding hash_unit
hash_text hash [] = hash
hash_text hash (c ∷ s) = hash_text (hash_unit hash c) s

hex_digit : ℕ → ℕ
hex_digit n = if ltb n 10 then n + b'0' else n - 10 + b'a'

-- The last digits of a number, in base 16.
hex_digits : ℕ → ℕ → Text → Text
unfolding hex_digit
hex_digits zero n acc = acc
hex_digits (suc count) n acc = hex_digits count (n / 16) (hex_digit (n % 16) ∷ acc)

-- `n.toString(16).padStart(8, '0')` of a number of 32 bits, which has no more than eight digits.
unfoldable pub hex_word : ℕ → Text
unfolding hex_digits
hex_word n = hex_digits 8 n []

unfoldable pub window_fingerprint : List Text → Text
unfolding hash_text hex_word
window_fingerprint lines =
    decimal (length lines) ++ b':' ∷ hex_word (hash_text 0x811c9dc5 (join_lines lines))

pub hash_text_bound : (hash : ℕ) (s : Text) → hash < 2 ^ 32 → hash_text hash s < 2 ^ 32
unfolding hash_text hash_unit
hash_text_bound hash [] h = h
hash_text_bound hash (c ∷ s) h = hash_text_bound (hash_unit hash c) s (omega arith)

known : hash_text 0x811c9dc5 (b'a' ∷ []) ≡ 0xe40c292c
unfolding hash_text hash_unit
known = refl
