-- ===== src/RateLimit/Tests.antt =====
-- Runs of the limiter, and the theorems about it at concrete inputs.
use icebreaker.Common.{
  Text, codes, empty, text_eq, All, ℕ, ◌+◌, ◌*◌, ◌≤◌, max, ◌≡◌, refl, List, [], ◌∷◌, arith,
}
use icebreaker.RateLimit.{
  RateLimitConfig, emission_interval, burst_tolerance, new_tat, allow_at, check, clear,
}
use icebreaker.RateLimit.Trace
use icebreaker.RateLimit.Trace.{Call, request, forget, granted, attempts, Within, Spaced, Remembers}
use icebreaker.RateLimit.Bound.{granted-le}
use icebreaker.RateLimit.Limits.{granted_of_Spaced}

-- Ten requests each second, with a burst of two.
abbrev ten : RateLimitConfig
ten = record { max_requests = 10; period = 1_000; burst = 2 }

abbrev no_burst : RateLimitConfig
no_burst = record { max_requests = 10; period = 1_000; burst = 0 }

abbrev a : Text
a = codes "a"

abbrev at_once : List (ℕ × Call)
at_once =
    (5, request a)
    ∷ (6, request a)
    ∷ (7, request (codes "b"))
    ∷ (8, request a)
    ∷ (9, request a)
    ∷ []

abbrev apart : List (ℕ × Call)
apart = (5, request a) ∷ (105, request a) ∷ (205, forget (codes "b")) ∷ (900, request a) ∷ []

limiter : Unit {0}
unfolding granted attempts Trace.grants Trace.step check new_tat allow_at emission_interval
    burst_tolerance text_eq clear
limiter = tt

granted_tests :
    (granted ten a at_once empty ≡ 2)
    × (granted ten a apart empty ≡ 3)
    × (granted no_burst a apart empty ≡ 1)
    × (granted ten a ((5, request a) ∷ (6, request a) ∷ (7, forget a) ∷ (8, request a) ∷ []) empty
        ≡ 3)
unfolding limiter
granted_tests = (refl, refl, refl, refl)

within : All (Within a 5 (5 + 10)) at_once
within = ground arith

granted-le_example :
    granted ten a at_once empty * emission_interval ten
    ≤ max (emission_interval ten) (10 + burst_tolerance ten)
granted-le_example = granted-le ten a 5 10 at_once empty within

spaced : Spaced a (emission_interval ten) 0 apart
unfolding emission_interval text_eq
spaced = ground arith

granted_of_Spaced_example : granted ten a apart empty ≡ attempts a apart
unfolding emission_interval burst_tolerance
granted_of_Spaced_example = granted_of_Spaced ten a apart 0 empty (omega arith) refl spaced

Spaced-zero : Spaced a 0 0 at_once
unfolding text_eq
Spaced-zero = ground arith

remembers : All (λ call. Remembers a call.1) apart
unfolding text_eq
remembers = ground arith
