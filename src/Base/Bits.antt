-- ===== src/Base/Bits.antt =====
-- The top bit of a word: `&` and `|` with 2 ^ k and `&` with 2 ^ k - 1, on words of k + 1 bits.
use Prim.Native.Nat.{
  ℕ, zero, suc, ◌+◌, ◌-◌, ◌*◌, ◌/◌, ◌%◌, ◌^◌, ◌≤◌, ◌<◌, min, max, bit_and, bit_or, digits,
  bit_and-bitwise, bit_or-bitwise,
}
use mathlib.Core.Path.{◌≡◌, refl, ap, ◌∙◌}
use native.Mathlib.Omega.{arith}
use native.Mathlib.Nat.{one-le-pow, two-pow-succ}

module _ (z : ℕ → ℕ) (f : ℕ → ℕ → ℕ) where
  -- Any count of digits that reaches the end of the first number gives the same result.
  digits_enough : (n m a b : ℕ) → a ≤ n → a ≤ m → digits z f n a b ≡ digits z f m a b
  digits_enough zero zero a b p q = refl
  digits_enough zero (suc m) zero b p q = refl
  digits_enough zero (suc m) (suc a) b p q = absurd (omega arith)
  digits_enough (suc n) zero zero b p q = refl
  digits_enough (suc n) zero (suc a) b p q = absurd (omega arith)
  digits_enough (suc n) (suc m) zero b p q = refl
  digits_enough (suc n) (suc m) (suc a) b p q =
      omega (arith, digits_enough n m (suc a / 2) (b / 2) (omega arith) (omega arith))

-- The last digit of `a & b`, and the rest.
and_last : (a b : ℕ) → bit_and a b ≡ bit_and (a / 2) (b / 2) * 2 + min (a % 2) (b % 2)
and_last zero b = omega (arith, bit_and-bitwise 0 b, bit_and-bitwise 0 (b / 2))
and_last (suc a) b = omega (
  arith,
  bit_and-bitwise (suc a) b,
  bit_and-bitwise (suc a / 2) (b / 2),
  digits_enough (λ b. zero) min a (suc a / 2) (suc a / 2) (b / 2) (omega arith) (omega arith),
)

-- The last digit of `a | b`, and the rest.
or_last : (a b : ℕ) → bit_or a b ≡ bit_or (a / 2) (b / 2) * 2 + max (a % 2) (b % 2)
or_last zero b = omega (arith, bit_or-bitwise 0 b, bit_or-bitwise 0 (b / 2))
or_last (suc a) b = omega (
  arith,
  bit_or-bitwise (suc a) b,
  bit_or-bitwise (suc a / 2) (b / 2),
  digits_enough (λ b. b) max a (suc a / 2) (suc a / 2) (b / 2) (omega arith) (omega arith),
)

abbrev top : ℕ → ℕ → ℕ → ℕ
top k q r = q * 2 ^ k + r

half_top :
    (k q r : ℕ)
    → q < 2
    → (top (suc k) q r / 2 ≡ top k q (r / 2))
      × (top (suc k) q r % 2 ≡ r % 2)
      × (2 ^ suc k / 2 ≡ 2 ^ k)
      × (2 ^ suc k % 2 ≡ 0)
      × ((2 ^ suc k - 1) / 2 ≡ 2 ^ k - 1)
      × ((2 ^ suc k - 1) % 2 ≡ 1)
half_top k zero r h = omega (arith, two-pow-succ k, one-le-pow k 2)
half_top k (suc zero) r h = omega (arith, two-pow-succ k, one-le-pow k 2)
half_top k (suc (suc q)) r h = absurd (omega arith)

and_top_split : (k q r : ℕ) → q < 2 → r < 2 ^ k → bit_and (top k q r) (2 ^ k) ≡ q * 2 ^ k
and_top_split zero zero zero hq hr = refl
and_top_split zero (suc zero) zero hq hr = refl
and_top_split zero q (suc r) hq hr = absurd (omega arith)
and_top_split zero (suc (suc q)) zero hq hr = absurd (omega arith)
and_top_split (suc k) q r hq hr =
    let (a, b, c, d, _, _) = half_top k q r hq in
    let step : bit_and (top (suc k) q r) (2 ^ suc k) ≡ bit_and (top k q (r / 2)) (2 ^ k) * 2 + 0 =
      rw (and_last (top (suc k) q r) (2 ^ suc k), a, b, c, d) (omega arith) in
    omega
      (arith, step, and_top_split k q (r / 2) hq (omega (arith, two-pow-succ k)), two-pow-succ k)

or_top_split : (k q r : ℕ) → q < 2 → r < 2 ^ k → bit_or (top k q r) (2 ^ k) ≡ 2 ^ k + r
or_top_split zero zero zero hq hr = refl
or_top_split zero (suc zero) zero hq hr = refl
or_top_split zero q (suc r) hq hr = absurd (omega arith)
or_top_split zero (suc (suc q)) zero hq hr = absurd (omega arith)
or_top_split (suc k) q r hq hr =
    let (a, b, c, d, _, _) = half_top k q r hq in
    let step : bit_or (top (suc k) q r) (2 ^ suc k) ≡ bit_or (top k q (r / 2)) (2 ^ k) * 2 + r % 2 =
      rw (or_last (top (suc k) q r) (2 ^ suc k), a, b, c, d) (omega arith) in
    omega (arith, step, or_top_split k q (r / 2) hq (omega (arith, two-pow-succ k)), two-pow-succ k)

and_low_split : (k q r : ℕ) → q < 2 → r < 2 ^ k → bit_and (top k q r) (2 ^ k - 1) ≡ r
and_low_split zero zero zero hq hr = refl
and_low_split zero (suc zero) zero hq hr = refl
and_low_split zero q (suc r) hq hr = absurd (omega arith)
and_low_split zero (suc (suc q)) zero hq hr = absurd (omega arith)
and_low_split (suc k) q r hq hr =
    let (a, b, _, _, c, d) = half_top k q r hq in
    let step : bit_and (top (suc k) q r) (2 ^ suc k - 1)
        ≡ bit_and (top k q (r / 2)) (2 ^ k - 1) * 2 + r % 2 =
      rw (and_last (top (suc k) q r) (2 ^ suc k - 1), a, b, c, d) (omega arith) in
    omega (arith, step, and_low_split k q (r / 2) hq (omega (arith, two-pow-succ k)))

-- On 64-bit words.
module _ (x : ℕ) (small : x < 2 ^ 64) where
  parts : x ≡ top 63 (x / 2 ^ 63) (x % 2 ^ 63)
  parts = omega arith

  pub bit_and-msb : bit_and x (2 ^ 63) ≡ x / 2 ^ 63 * 2 ^ 63
  bit_and-msb =
      ap (λ t. bit_and t (2 ^ 63)) parts ∙ and_top_split 63 _ _ (omega arith) (omega arith)

  pub bit_or-msb : bit_or x (2 ^ 63) ≡ 2 ^ 63 + x % 2 ^ 63
  bit_or-msb = ap (λ t. bit_or t (2 ^ 63)) parts ∙ or_top_split 63 _ _ (omega arith) (omega arith)

  pub bit_and-mask : bit_and x (2 ^ 63 - 1) ≡ x % 2 ^ 63
  bit_and-mask =
      ap (λ t. bit_and t (2 ^ 63 - 1)) parts ∙ and_low_split 63 _ _ (omega arith) (omega arith)
