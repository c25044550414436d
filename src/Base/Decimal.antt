-- ===== src/Base/Decimal.antt =====
-- Decimal digits as the standard streams write and read them.
use cs451_2020_project.Base.Tests.{ltb, leb, if◌then◌else◌, Bool-cases}
use Prim.Native.Nat.{ℕ, zero, suc, ◌+◌, ◌-◌, ◌*◌, ◌/◌, ◌%◌, ◌^◌, ◌<◌}
use mathlib.Core.Path.{◌≡◌, refl, ap, ◌∙◌}
use mathlib.Core.Logic.{inl, inr}
use mathlib.Core.Bool.{Bool, true, false, ◌&&◌}
use mathlib.Core.List.{List, [], ◌∷◌}
use native.Mathlib.Nat.{pow-suc}
use native.Mathlib.Omega.{arith}

unfoldable pub digits : ℕ → ℕ → List ℕ → List ℕ
digits zero n acc = acc
digits (suc fuel) n acc =
    let acc' = (b'0' + n % 10) ∷ acc in
    let rest = digits fuel (n / 10) acc' in if ltb n 10 then acc' else rest

-- `operator<<`; a number below 2 ^ 64 has at most 20 digits.
unfoldable pub print_number : ℕ → List ℕ
unfolding digits
print_number n = digits 20 n []

-- The number that digits continue, and the one that they are.
unfoldable pub read_from : ℕ → List ℕ → ℕ
read_from n [] = n
read_from n (c ∷ cs) = read_from (n * 10 + (c - b'0')) cs

unfoldable pub is_digit : ℕ → Bool
is_digit c = leb b'0' c && leb c b'9'

unfoldable pub all_digits : List ℕ → Bool
unfolding is_digit
all_digits [] = true
all_digits (c ∷ cs) = is_digit c && all_digits cs

-- Reading on from the digits of a number is reading on from the number.
read_from-digits :
    (fuel n : ℕ) (acc : List ℕ)
    → n < 10 ^ suc fuel
    → read_from 0 (digits (suc fuel) n acc) ≡ read_from n acc
unfolding digits read_from
read_from-digits zero n acc h = ground (arith, pow-suc 10 0)
read_from-digits (suc fuel) n acc h = elim (Bool-cases (ltb n 10)) [
  | inl e ↦ rw e (ap (λ k. read_from k acc) (ground arith))
  | inr e ↦
      let below : n / 10 < 10 ^ suc fuel = omega (arith, pow-suc 10 (suc fuel)) in
      let last : n / 10 * 10 + (b'0' + n % 10 - b'0') ≡ n = omega arith in
      rw e (
        read_from-digits fuel (n / 10) ((b'0' + n % 10) ∷ acc) below
        ∙ ap (λ k. read_from k acc) last)
]

pub read-print_number : (n : ℕ) → n < 2 ^ 64 → read_from 0 (print_number n) ≡ n
unfolding print_number read_from
read-print_number n h = read_from-digits 19 n [] (omega arith)

all_digits-digits :
    (fuel n : ℕ) (acc : List ℕ) → all_digits acc ≡ true → all_digits (digits fuel n acc) ≡ true
unfolding digits all_digits
all_digits-digits zero n acc h = h
all_digits-digits (suc fuel) n acc h =
    ground (arith, all_digits-digits fuel (n / 10) ((b'0' + n % 10) ∷ acc), h)

pub all_digits-print_number : (n : ℕ) → all_digits (print_number n) ≡ true
unfolding print_number all_digits
all_digits-print_number n = all_digits-digits 20 n [] refl

-- Whether a text is empty.
abbrev pub is_empty : List ℕ → Bool
is_empty [] = true
is_empty (c ∷ cs) = false

is_empty-digits : (fuel n c : ℕ) (acc : List ℕ) → is_empty (digits fuel n (c ∷ acc)) ≡ false
unfolding digits
is_empty-digits zero n c acc = refl
is_empty-digits (suc fuel) n c acc = elim (Bool-cases (ltb n 10)) [
  | inl e ↦ rw e refl
  | inr e ↦ rw e (is_empty-digits fuel (n / 10) (b'0' + n % 10) (c ∷ acc))
]

pub is_empty-print_number : (n : ℕ) → is_empty (print_number n) ≡ false
unfolding print_number digits
is_empty-print_number n = elim (Bool-cases (ltb n 10)) [
  | inl e ↦ rw e refl
  | inr e ↦ rw e (is_empty-digits 19 (n / 10) (b'0' + n % 10) [])
]
