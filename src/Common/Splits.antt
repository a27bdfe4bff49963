-- ===== src/Common/Splits.antt =====
-- Two ways to cut one list.
use mathlib.Core.Path.{◌≡◌, refl, sym}
use mathlib.Core.Logic.{◌⊎◌, inl, inr}
use mathlib.Core.List.{List, [], ◌∷◌, ◌++◌}
use native.Mathlib.Omega.{arith}

module _ {ℓ} {A : Type ℓ} where
  -- One of the two cuts is further on.
  pub append-eq-append :
      (a b c d : List A)
      → a ++ b ≡ c ++ d
      → ((m : List A) × (c ≡ a ++ m) × (b ≡ m ++ d)) ⊎ ((m : List A) × (a ≡ c ++ m) × (d ≡ m ++ b))
  append-eq-append [] b c d e = inl (c, refl, e)
  append-eq-append (x ∷ a) b [] d e = inr (x ∷ a, refl, sym e)
  append-eq-append (x ∷ a) b (y ∷ c) d e = ground (arith, append-eq-append a b c d)
