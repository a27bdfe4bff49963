-- ===== src/RateLimit/Limits.antt =====
-- Who is never limited, and the configurations at the ends of the scale.
use mathlib.Core.Path.{refl}
use icebreaker.Common.{
  Text, text_eq, text_eq_iff, text_eq_refl, Bool-cases, inl, inr, All, insert, ℕ, ◌+◌, ◌≤◌, ◌<◌,
  ◌⊎◌, min, ◌≡◌, ◌∙◌, true, none, some, List, [], ◌∷◌, arith,
}
use icebreaker.RateLimit.{
  RateLimitConfig, GcraState, State, new_tat, emission_interval, burst_tolerance, check, clear,
}
use icebreaker.RateLimit.Trace.{
  Call, request, forget, step, grants, granted, attempts, Spaced, Remembers,
}
use icebreaker.RateLimit.Bound.{
  check-ne, clear-ne, check_congr, check-first, check-limited, check-allowed, new_tat-ge,
}

module _ (c : RateLimitConfig) (k : Text) where
  -- The arrival time of the key, if it has one, has been reached at `from`.
  abbrev IsReady : ℕ → State → Type 0
  IsReady from s = (s k ≡ none) ⊎ ((g : GcraState) × (s k ≡ some g) × (g.tat ≤ from))

  -- A request of a ready key is let through, and the key is ready an interval later.
  check-IsReady :
      (now from : ℕ) (s : State)
      → emission_interval c ≤ burst_tolerance c
      → from ≤ now
      → IsReady from s
      → ((check c now k s).0 ≡ true) × IsReady (now + emission_interval c) (check c now k s).1
  unfolding new_tat
  check-IsReady now from s fits le (inl h) =
      let g : GcraState = record { tat = now + emission_interval c } in
      rw (check-first c k now s h) (refl, inr (g, rw text_eq_refl, omega arith))
  check-IsReady now from s fits le (inr (g, h, reached)) =
      let g' : GcraState = record { tat = new_tat c now g } in
      rw (check-allowed c k now s g h (ground arith))
        (refl, inr (g', rw text_eq_refl, ground arith))

  granted-Spaced :
      (calls : List (ℕ × Call)) (from : ℕ) (s : State)
      → emission_interval c ≤ burst_tolerance c
      → IsReady from s
      → Spaced k (emission_interval c) from calls
      → granted c k calls s ≡ attempts k calls
  unfolding granted attempts grants step
  granted-Spaced [] from s fits r w = refl
  granted-Spaced ((now, forget j) ∷ calls) from s fits r (ne, w) =
      omega (arith, granted-Spaced calls from (clear j s) fits (rw (clear-ne c k j s ne) r) w)
  granted-Spaced ((now, request j) ∷ calls) from s fits r (late, w) =
      elim (Bool-cases (text_eq j k)) [
        | inr other ↦
            let s' = (check c now j s).1 in
            let r' : IsReady from s' = rw (check-ne c k now j s other) r in
            rw (other, step) (omega (arith, granted-Spaced calls from s' fits r' (rw other at w)))
        | inl same ↦
            let (passed, r') = check-IsReady now from s fits (late same) r in
            let s' = (check c now k s).1 in
            rw (same, step, check_congr c k now j s ((text_eq_iff j k).0 same), passed)
              (omega
                (arith, granted-Spaced calls (now + emission_interval c) s' fits r' (rw same at w)))
      ]

-- Without tolerance a key that has an entry is limited for good.
granted-locked :
    (c : RateLimitConfig) (k : Text) (calls : List (ℕ × Call)) (s : State) (g : GcraState)
    → 0 < emission_interval c
    → burst_tolerance c ≡ 0
    → s k ≡ some g
    → All (λ call. Remembers k call.1) calls
    → granted c k calls s ≡ 0
unfolding granted grants step
granted-locked c k [] s g pos zero_burst h w = refl
granted-locked c k ((now, forget j) ∷ calls) s g pos zero_burst h (r, w) =
    omega (arith, granted-locked c k calls (clear j s) g pos zero_burst (clear-ne c k j s r ∙ h) w)
granted-locked c k ((now, request j) ∷ calls) s g pos zero_burst h (_, w) =
    elim (Bool-cases (text_eq j k)) [
      | inr other ↦
          let s' = (check c now j s).1 in
          let h' = check-ne c k now j s other ∙ h in
          rw (other, step) (omega (arith, granted-locked c k calls s' g pos zero_burst h' w))
      | inl same ↦
          rw
            (
              same,
              step,
              check_congr c k now j s ((text_eq_iff j k).0 same),
              check-limited c k now s g h (omega (arith, new_tat-ge c k now g)),
            )
            (omega (arith, granted-locked c k calls s g pos zero_burst h w))
    ]

-- A key with no entry whose requests come at least an emission interval apart is never limited,
-- if the burst tolerance is no shorter than that interval and the key is not cleared.
pub granted_of_Spaced :
    (c : RateLimitConfig) (k : Text) (calls : List (ℕ × Call)) (from : ℕ) (s : State)
    → emission_interval c ≤ burst_tolerance c
    → s k ≡ none
    → Spaced k (emission_interval c) from calls
    → granted c k calls s ≡ attempts k calls
granted_of_Spaced c k calls from s fits h w = granted-Spaced c k calls from s fits (inl h) w

-- With `max_requests` 0 no request is ever limited: whatever the period and the burst, a key with
-- no entry is granted all its requests, provided that the clock does not go back between them
-- and the key is not cleared.
pub granted-zero_max_requests :
    (period burst : ℕ) (k : Text) (calls : List (ℕ × Call)) (from : ℕ) (s : State)
    → s k ≡ none
    → Spaced k 0 from calls
    → granted (record { max_requests = 0; period = period; burst = burst }) k calls s
      ≡ attempts k calls
unfolding emission_interval burst_tolerance
granted-zero_max_requests period burst k calls from s h w =
    granted-Spaced (record { max_requests = 0; period = period; burst = burst }) k calls from s
      (omega arith) (inl h) w

no_tolerance : (c : RateLimitConfig) → c.burst ≡ 0 → burst_tolerance c ≡ 0
unfolding burst_tolerance
no_tolerance c b = rw b (omega arith)

-- With a burst of 0 and a positive emission interval a key with no entry is granted its first
-- request and none after it, however late they come, until its state is cleared.
pub granted-zero_burst :
    (c : RateLimitConfig) (k : Text) (calls : List (ℕ × Call)) (s : State)
    → 0 < emission_interval c
    → c.burst ≡ 0
    → s k ≡ none
    → All (λ call. Remembers k call.1) calls
    → granted c k calls s ≡ min 1 (attempts k calls)
unfolding granted attempts grants step
granted-zero_burst c k [] s pos b h w = omega arith
granted-zero_burst c k ((now, forget j) ∷ calls) s pos b h (r, w) =
    omega (arith, granted-zero_burst c k calls (clear j s) pos b (clear-ne c k j s r ∙ h) w)
granted-zero_burst c k ((now, request j) ∷ calls) s pos b h (_, w) =
    elim (Bool-cases (text_eq j k)) [
      | inr other ↦
          let s' = (check c now j s).1 in
          rw (other, step)
            (omega
              (arith, granted-zero_burst c k calls s' pos b (check-ne c k now j s other ∙ h) w))
      | inl same ↦
          let g : GcraState = record { tat = now + emission_interval c } in
          rw
            (
              same,
              step,
              check_congr c k now j s ((text_eq_iff j k).0 same),
              check-first c k now s h,
            )
            (omega (
              arith,
              granted-locked c k calls (insert k g s) g pos (no_tolerance c b) (rw text_eq_refl) w,
            ))
    ]
