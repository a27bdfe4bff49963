-- ===== src/KeyDerivation/Laws.antt =====
-- Which keys are derived from the same input.
use icebreaker.Common.{
  Text, codes, decimal, decimal-injective, decimal-ge, All, ℕ, ◌^◌, ◌≤◌, ◌<◌, ◌≡◌, ◌≢◌, [], ◌∷◌,
  ◌++◌, arith,
}
use icebreaker.KeyDerivation.{key_info_prefix, key_info, hmac_info}

-- A text of digits has no dash after something else.
dash-late : (m d e : Text) → All (λ c. b'0' ≤ c) d → d ≢ m ++ (b'-' ∷ e)
dash-late [] [] e h eq = ground (arith, eq)
dash-late [] (c ∷ d) e h eq = ground (arith, eq, h)
dash-late (x ∷ m) [] e h eq = ground (arith, eq)
dash-late (x ∷ m) (c ∷ d) e h eq = dash-late m d e h.1 (ground (arith, eq))

-- Cut at the last dash.
last_dash-eq :
    (x y d e : Text)
    → All (λ c. b'0' ≤ c) d
    → All (λ c. b'0' ≤ c) e
    → x ++ (b'-' ∷ d) ≡ y ++ (b'-' ∷ e)
    → (x ≡ y) × (d ≡ e)
last_dash-eq [] [] d e h k eq = ground (arith, eq)
last_dash-eq [] (c ∷ y) d e h k eq = absurd (dash-late y d e h (ground (arith, eq)))
last_dash-eq (c ∷ x) [] d e h k eq = absurd (dash-late x e d k (ground (arith, eq)))
last_dash-eq (a ∷ x) (c ∷ y) d e h k eq =
    let (same, rest) = last_dash-eq x y d e h k (ground (arith, eq)) in
    ground (arith, eq, same, rest)

strip_left : (p s t : Text) → p ++ s ≡ p ++ t → s ≡ t
strip_left [] s t e = e
strip_left (c ∷ p) s t e = strip_left p s t (ground (arith, e))

-- The input that HKDF expands for a keypair determines its key ID and its 32-bit version, and is
-- neither the input for a request-signing key of any purpose nor that for API keys.
pub key_info-separate :
    (key_id key_id' purpose : Text) (version version' : ℕ)
    → version < 2 ^ 32
    → version' < 2 ^ 32
    → ((key_info key_id version ≡ key_info key_id' version')
        → (key_id ≡ key_id') × (version ≡ version'))
      × ((key_info key_id version ≢ hmac_info purpose)
          × (key_info key_id version ≢ codes "icebreaker-v1-api-key-auth"))
unfolding key_info hmac_info
key_info-separate key_id key_id' purpose version version' a b = (
  λ e.
      let (same, digits') =
        last_dash-eq key_id key_id' (decimal version) (decimal version') (decimal-ge version)
          (decimal-ge version')
          (strip_left key_info_prefix (key_id ++ (b'-' ∷ decimal version))
            (key_id' ++ (b'-' ∷ decimal version')) e) in
      (same, decimal-injective version version' a b digits'),
  (λ e. ground (arith, e), λ e. ground (arith, e)),
)
