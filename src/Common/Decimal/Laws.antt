-- ===== src/Common/Decimal/Laws.antt =====
-- Reading a decimal text back.
use Prim.Native.Nat.{ℕ, zero, suc, ◌+◌, ◌-◌, ◌*◌, ◌/◌, ◌%◌, ◌^◌, ◌<◌, ◌≤◌}
use mathlib.Core.Path.{◌≡◌, sym, ap, ◌∙◌}
use mathlib.Core.Logic.{inl, inr}
use mathlib.Core.List.{[], ◌∷◌}
use native.Mathlib.Omega.{arith}
use icebreaker.Common.Tests.{◌==◌, Bool-cases}
use icebreaker.Common.Lists.{All}
use icebreaker.Common.Texts.{Text}
use icebreaker.Common.Decimal.{digits, decimal}

-- The number that a text of digits means, after one already read.
read_from : ℕ → Text → ℕ
read_from n [] = n
read_from n (c ∷ s) = read_from (n * 10 + (c - b'0')) s

abbrev power_of_ten : ℕ → ℕ
power_of_ten zero = 1
power_of_ten (suc n) = 10 * power_of_ten n

read_from-digits :
    (fuel n : ℕ) (out : Text)
    → n < power_of_ten fuel
    → read_from 0 (digits (suc fuel) n out) ≡ read_from n out
unfolding digits read_from
read_from-digits zero n out le = elim (Bool-cases (n / 10 == 0)) [
  | inl t ↦ rw (digits, t) (ap (λ (m : ℕ). read_from m out) (omega (arith, le)))
  | inr f ↦ absurd (ground (arith, f, le))
]
read_from-digits (suc fuel) n out le = elim (Bool-cases (n / 10 == 0)) [
  | inl t ↦ rw (digits, t) (ap (λ (m : ℕ). read_from m out) (ground (arith, t)))
  | inr f ↦
      rw (digits, f)
        (read_from-digits fuel (n / 10) ((b'0' + n % 10) ∷ out) (omega (arith, le))
          ∙ ap (λ (m : ℕ). read_from m out) (omega arith))
]

-- Different 32-bit numbers have different decimal texts.
pub decimal-injective : (n m : ℕ) → n < 2 ^ 32 → m < 2 ^ 32 → decimal n ≡ decimal m → n ≡ m
unfolding decimal read_from
decimal-injective n m a b e =
    let left = read_from-digits 19 n [] (omega (arith, a)) in
    let right = read_from-digits 19 m [] (omega (arith, b)) in
    sym left ∙ (ap (read_from 0) e ∙ right)

digits-ge :
    (fuel n : ℕ) (out : Text) → All (λ c. b'0' ≤ c) out → All (λ c. b'0' ≤ c) (digits fuel n out)
unfolding digits
digits-ge zero n out h = h
digits-ge (suc fuel) n out h = elim (Bool-cases (n / 10 == 0)) [
  | inl t ↦ rw (digits, t) (omega arith, h)
  | inr f ↦ rw (digits, f) (digits-ge fuel (n / 10) ((b'0' + n % 10) ∷ out) (omega arith, h))
]

-- No character of a decimal text comes before the digits.
pub decimal-ge : (n : ℕ) → All (λ c. b'0' ≤ c) (decimal n)
unfolding decimal
decimal-ge n = digits-ge 20 n [] tt
