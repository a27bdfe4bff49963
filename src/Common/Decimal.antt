-- ===== src/Common/Decimal.antt =====
-- The decimal text of a number, as `to_string` writes it.
pub mod Laws
use Prim.Native.Nat.{ℕ, zero, suc, ◌+◌, ◌/◌, ◌%◌}
use mathlib.Core.Bool.{true, false}
use mathlib.Core.List.{[], ◌∷◌}
use icebreaker.Common.Tests.{◌==◌}
use icebreaker.Common.Texts.{Text}

-- The digits of `n` before `out`. Twenty rounds are enough for a 64-bit number.
unfoldable pub digits : ℕ → ℕ → Text → Text
digits zero n out = out
digits (suc fuel) n out = elim (n / 10 == 0) [
  | true ↦ (b'0' + n % 10) ∷ out
  | false ↦ digits fuel (n / 10) ((b'0' + n % 10) ∷ out)
]

unfoldable pub decimal : ℕ → Text
unfolding digits
decimal n = digits 20 n []
