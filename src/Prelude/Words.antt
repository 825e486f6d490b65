-- ===== src/Prelude/Words.antt =====
-- Little-endian words: the bytes of a word, and the word that `|` and `<<` put together from them.
use rymos.Prelude.Bytes.{length}
use Prim.Native.Nat.{
  ℕ, zero, suc, ◌+◌, ◌*◌, ◌/◌, ◌%◌, ◌^◌, ◌≤◌, ◌<◌, max, bit_or, digits, bit_or-bitwise,
}
use mathlib.Core.Path.{◌≡◌, refl, sym, ap, ◌∙◌}
use mathlib.Core.List.{List, [], ◌∷◌}
use native.Mathlib.Omega.{arith}
use native.Mathlib.Numerals.{towards_suc}
use native.Mathlib.Nat.{two-pow-succ}

-- The recursion that `bit_or` stands for.
abbrev or_digits : ℕ → ℕ → ℕ → ℕ
or_digits n a b = digits (λ b. b) max n a b

or_digits-zero : (n b : ℕ) → or_digits n 0 b ≡ b
or_digits-zero zero b = refl
or_digits-zero (suc n) b = refl

-- The count of digits to go does not matter, as long as it is large enough.
or_digits_count : (m n a b : ℕ) → a ≤ m → a ≤ n → or_digits m a b ≡ or_digits n a b
or_digits_count m n zero b p q = or_digits-zero m b ∙ sym (or_digits-zero n b)
or_digits_count zero n (suc a) b p q = absurd (omega arith)
or_digits_count (suc m) zero (suc a) b p q = absurd (omega arith)
or_digits_count (suc m) (suc n) (suc a) b p q =
    omega (arith, or_digits_count m n (suc a / 2) (b / 2) (omega arith) (omega arith))

zero-bit_or : (b : ℕ) → bit_or 0 b ≡ b
zero-bit_or b = bit_or-bitwise 0 b

bit_or_step : (a b : ℕ) → bit_or a b ≡ bit_or (a / 2) (b / 2) * 2 + max (a % 2) (b % 2)
bit_or_step zero b = omega (arith, zero-bit_or b, zero-bit_or (b / 2))
bit_or_step (suc a) b = omega (
  arith,
  bit_or-bitwise (suc a) b,
  bit_or-bitwise (suc a / 2) (b / 2),
  or_digits_count a (suc a / 2) (suc a / 2) (b / 2) (omega arith) (omega arith),
)

-- `x | (y << k)` is a sum where `x` has at most `k` bits.
pub bit_or_shift : (k x y : ℕ) → x < 2 ^ k → bit_or x (y * 2 ^ k) ≡ x + y * 2 ^ k
bit_or_shift zero x y h =
    let none_set : x ≡ 0 = omega arith in rw none_set (omega (arith, zero-bit_or (y * 2 ^ 0)))
bit_or_shift (suc k) x y h =
    let z : ℕ = y * 2 ^ k in
    let doubled : y * 2 ^ suc k ≡ z * 2 = rw (two-pow-succ k) (omega arith) in
    let half : z * 2 / 2 ≡ z = omega arith in
    let step : bit_or x (z * 2) ≡ bit_or (x / 2) z * 2 + max (x % 2) (z * 2 % 2) =
      rw half at (bit_or_step x (z * 2)) in
    rw doubled (omega (arith, step, bit_or_shift k (x / 2) y (omega (arith, two-pow-succ k))))

-- `value.to_le_bytes()` of a word of `w` bytes.
abbrev pub le_bytes : ℕ → ℕ → List ℕ
le_bytes zero v = []
le_bytes (suc w) v = v % 256 ∷ le_bytes w (v / 256)

pub length-le_bytes : (w v : ℕ) → length (le_bytes w v) ≡ w
length-le_bytes zero v = refl
length-le_bytes (suc w) v = omega (arith, length-le_bytes w (v / 256))

-- The four bytes of `read_le32_from_slice`.
unfoldable pub le32 : ℕ → ℕ → ℕ → ℕ → ℕ
le32 b0 b1 b2 b3 = bit_or (bit_or (bit_or b0 (b1 * 2 ^ 8)) (b2 * 2 ^ 16)) (b3 * 2 ^ 24)

-- `read_le32_from_slice`; it indexes four bytes, and a shorter slice panics.
unfoldable pub read_le32_from_slice : List ℕ → ℕ
unfolding le32
read_le32_from_slice (b0 ∷ b1 ∷ b2 ∷ b3 ∷ rest) = le32 b0 b1 b2 b3
read_le32_from_slice _ = 0

le32_sum :
    (b0 b1 b2 b3 : ℕ)
    → b0 < 256
    → b1 < 256
    → b2 < 256
    → le32 b0 b1 b2 b3 ≡ b0 + b1 * 2 ^ 8 + b2 * 2 ^ 16 + b3 * 2 ^ 24
unfolding le32
le32_sum b0 b1 b2 b3 h0 h1 h2 = rw (
  bit_or_shift 8 b0 b1 h0,
  bit_or_shift 16 (b0 + b1 * 2 ^ 8) b2 (omega arith),
  bit_or_shift 24 (b0 + b1 * 2 ^ 8 + b2 * 2 ^ 16) b3 (omega arith),
)

-- A 32-bit word is read back from its bytes.
pub read_le32_from_slice-le_bytes : (v : ℕ) → v < 2 ^ 32 → read_le32_from_slice (le_bytes 4 v) ≡ v
unfolding read_le32_from_slice
read_le32_from_slice-le_bytes v h =
    le32_sum (v % 256) (v / 256 % 256) (v / 256 / 256 % 256) (v / 256 / 256 / 256 % 256)
      (omega arith) (omega arith) (omega arith)
    ∙ omega arith

-- The loop of `read_le64_from_slice` from the bit `shift` on.
unfoldable pub or_bytes : ℕ → ℕ → List ℕ → ℕ
or_bytes value shift [] = value
or_bytes value shift (b ∷ bs) = or_bytes (bit_or value (b * 2 ^ shift)) (shift + 8) bs

unfoldable pub read_le64_from_slice : List ℕ → ℕ
unfolding or_bytes
read_le64_from_slice = or_bytes 0 0

pow-add_eight : (s : ℕ) → 2 ^ (s + 8) ≡ 256 * 2 ^ s
pow-add_eight s = simp towards_suc (omega arith)

mul_le_255 : (b p : ℕ) → b < 256 → b * p ≤ 255 * p
mul_le_255 b p h = grind arith

or_bytes-le_bytes :
    (w s value v : ℕ)
    → value < 2 ^ s
    → v < 256 ^ w
    → or_bytes value s (le_bytes w v) ≡ value + v * 2 ^ s
unfolding or_bytes
or_bytes-le_bytes zero s value v h l =
    let none_left : v ≡ 0 = omega arith in rw none_left (omega arith)
or_bytes-le_bytes (suc w) s value v h l =
    let split : v * 2 ^ s ≡ (v % 256 + v / 256 * 256) * 2 ^ s =
      ap (λ (t : ℕ). t * 2 ^ s) (omega arith) in
    ap (λ t. or_bytes t (s + 8) (le_bytes w (v / 256))) (bit_or_shift s value (v % 256) h)
    ∙ or_bytes-le_bytes w (s + 8) (value + v % 256 * 2 ^ s) (v / 256)
        (omega (arith, pow-add_eight s, mul_le_255 (v % 256) (2 ^ s) (omega arith))) (omega arith)
    ∙ rw (pow-add_eight s) (omega (arith, split))

-- A 64-bit word is read back from its bytes.
pub read_le64_from_slice-le_bytes : (v : ℕ) → v < 2 ^ 64 → read_le64_from_slice (le_bytes 8 v) ≡ v
unfolding read_le64_from_slice
read_le64_from_slice-le_bytes v h =
    or_bytes-le_bytes 8 0 0 v (omega arith) (omega arith) ∙ omega arith
