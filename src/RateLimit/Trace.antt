-- ===== src/RateLimit/Trace.antt =====
-- Sequences of calls on one limiter, each with the clock reading at which it holds the lock.
use icebreaker.Common.{
  Text, text_eq, ℕ, ◌+◌, ◌≤◌, ◌≡◌, Bool, true, false, List, [], ◌∷◌, if◌then◌else◌,
}
use icebreaker.RateLimit.{RateLimitConfig, State, check, clear}

pub data Call : Type 0 where
  request : (key : Text) → Call
  forget : (key : Text) → Call

unfoldable pub step : RateLimitConfig → ℕ → Call → State → State
step c now (request key) s = (check c now key s).1
step c now (forget key) s = clear key s

abbrev pub count : Bool → ℕ
count true = 1
count false = 0

-- 1 when the call is a request of `k` that is let through
unfoldable pub grants : RateLimitConfig → Text → ℕ → Call → State → ℕ
grants c k now (request key) s = if text_eq key k then count (check c now key s).0 else 0
grants c k now (forget key) s = 0

-- How many requests of `k` are let through in the run.
unfoldable pub granted : RateLimitConfig → Text → List (ℕ × Call) → State → ℕ
granted c k [] s = 0
granted c k ((now, call) ∷ calls) s = grants c k now call s + granted c k calls (step c now call s)

abbrev attempt : Text → Call → ℕ
attempt k (request key) = if text_eq key k then 1 else 0
attempt k (forget key) = 0

-- How many requests of `k` there are.
unfoldable pub attempts : Text → List (ℕ × Call) → ℕ
attempts k [] = 0
attempts k ((now, call) ∷ calls) = attempt k call + attempts k calls

-- The call does not clear the state of `k`.
abbrev pub Remembers : Text → Call → Type 0
Remembers k (request key) = Unit
Remembers k (forget key) = text_eq key k ≡ false

-- The call lies in the time from `t₀` up to `t₁` and does not clear `k`.
abbrev pub Within : Text → ℕ → ℕ → ℕ × Call → Type 0
Within k t₀ t₁ (now, call) = (t₀ ≤ now) × (now ≤ t₁) × Remembers k call

-- Each request of `k` comes at least `gap` after the one before it, the first not before `from`.
abbrev pub Spaced : Text → ℕ → ℕ → List (ℕ × Call) → Type 0
Spaced k gap from [] = Unit
Spaced k gap from ((now, request key) ∷ calls) =
    (text_eq key k ≡ true → from ≤ now)
    × Spaced k gap (if text_eq key k then now + gap else from) calls
Spaced k gap from ((now, forget key) ∷ calls) = (text_eq key k ≡ false) × Spaced k gap from calls
