-- ===== src/RateLimit/Bound.antt =====
-- How many requests the limiter lets through.
use native.Mathlib.Decide.{dec_lt}
use icebreaker.Common.{
  Text, text_eq, text_eq_iff, text_eq_refl, Bool-cases, Option-cases, inl, inr, ◌⊎◌, All, insert, ℕ,
  ◌+◌, ◌*◌, ◌≤◌, ◌<◌, max, ◌≡◌, ◌∙◌, ltb, lt→ltb, le→ltb, true, false, none, some, List, [], ◌∷◌,
  arith,
}
use icebreaker.RateLimit.{
  RateLimitConfig, GcraState, State, new_tat, allow_at, emission_interval, burst_tolerance,
  check_entry, check, clear,
}
use icebreaker.RateLimit.Trace.{count, Call, request, forget, step, grants, granted, Within}

module _ (c : RateLimitConfig) (k : Text) where
  pub check-ne :
      (now : ℕ) (j : Text) (s : State) → text_eq j k ≡ false → (check c now j s).1 k ≡ s k
  unfolding check check_entry
  check-ne now j s h = ground arith

  pub clear-ne : (j : Text) (s : State) → text_eq j k ≡ false → clear j s k ≡ s k
  unfolding clear
  clear-ne j s h = rw h

  pub check_congr : (now : ℕ) (j : Text) (s : State) → j ≡ k → check c now j s ≡ check c now k s
  check_congr now j s p = cc

  pub check-first :
      (now : ℕ) (s : State)
      → s k ≡ none
      → check c now k s ≡ (true, insert k (record { tat = now + emission_interval c }) s)
  unfolding check
  check-first now s h = rw (h, check)

  -- Subtracting the tolerance from the arrival time is adding it to the clock.
  limited-eq : (now t : ℕ) → ltb now (allow_at c now t) ≡ ltb (now + burst_tolerance c) t
  unfolding allow_at
  limited-eq now t = ground arith

  pub new_tat-ge :
      (now : ℕ) (g : GcraState)
      → (g.tat + emission_interval c ≤ new_tat c now g)
        × (now + emission_interval c ≤ new_tat c now g)
  unfolding new_tat
  new_tat-ge now g = ground arith

  pub check-limited :
      (now : ℕ) (s : State) (g : GcraState)
      → s k ≡ some g
      → now + burst_tolerance c < new_tat c now g
      → check c now k s ≡ (false, s)
  unfolding check check_entry
  check-limited now s g h over = rw (h, check, limited-eq, lt→ltb _ _ over)

  pub check-allowed :
      (now : ℕ) (s : State) (g : GcraState)
      → s k ≡ some g
      → new_tat c now g ≤ now + burst_tolerance c
      → check c now k s ≡ (true, insert k (record { tat = new_tat c now g }) s)
  unfolding check check_entry
  check-allowed now s g h fits = rw (h, check, limited-eq, le→ltb _ _ fits)

  -- From an arrival time on, each request let through adds an interval to it.
  granted-entry :
      (t₀ t₁ : ℕ) (calls : List (ℕ × Call)) (s : State) (g : GcraState)
      → s k ≡ some g
      → All (Within k t₀ t₁) calls
      → g.tat + granted c k calls s * emission_interval c ≤ max g.tat (t₁ + burst_tolerance c)
  unfolding granted grants step
  granted-entry t₀ t₁ [] s g h w = omega arith
  granted-entry t₀ t₁ ((now, forget j) ∷ calls) s g h ((a, b, r), w) =
      omega (arith, granted-entry t₀ t₁ calls (clear j s) g (clear-ne j s r ∙ h) w)
  granted-entry t₀ t₁ ((now, request j) ∷ calls) s g h ((a, b, _), w) =
      elim (Bool-cases (text_eq j k)) [
        | inr other ↦
            let s' = (check c now j s).1 in
            rw (other, step)
              (omega (arith, granted-entry t₀ t₁ calls s' g (check-ne now j s other ∙ h) w))
        | inl same ↦ elim (dec_lt (now + burst_tolerance c) (new_tat c now g)) [
          | yes over ↦
              rw
                (
                  same,
                  step,
                  check_congr now j s ((text_eq_iff j k).0 same),
                  check-limited now s g h over,
                )
                (omega (arith, granted-entry t₀ t₁ calls s g h w))
          | no fits ↦
              let g' : GcraState = record { tat = new_tat c now g } in
              rw
                (
                  same,
                  step,
                  check_congr now j s ((text_eq_iff j k).0 same),
                  check-allowed now s g h (omega arith),
                )
                (omega (
                  arith,
                  new_tat-ge now g,
                  granted-entry t₀ t₁ calls (insert k g' s) g' (rw text_eq_refl) w,
                ))
        ]
      ]

  -- One request of the key before the rest of the run.
  granted-request :
      (now t₀ t₁ : ℕ) (calls : List (ℕ × Call)) (s : State)
      → t₀ ≤ now
      → now ≤ t₁
      → All (Within k t₀ t₁) calls
      → t₀ + granted c k calls s * emission_interval c
        ≤ max (t₀ + emission_interval c) (t₁ + burst_tolerance c)
      → (s k ≡ none) ⊎ ((g : GcraState) × (s k ≡ some g))
      → t₀
          + (count (check c now k s).0 + granted c k calls (check c now k s).1)
            * emission_interval c
        ≤ max (t₀ + emission_interval c) (t₁ + burst_tolerance c)
  granted-request now t₀ t₁ calls s a b w ih (inl h) =
      let g : GcraState = record { tat = now + emission_interval c } in
      rw (check-first now s h)
        (omega (arith, granted-entry t₀ t₁ calls (insert k g s) g (rw text_eq_refl) w))
  granted-request now t₀ t₁ calls s a b w ih (inr (g, h)) =
      elim (dec_lt (now + burst_tolerance c) (new_tat c now g)) [
        | yes over ↦ rw (check-limited now s g h over) (omega (arith, ih))
        | no fits ↦
            let g' : GcraState = record { tat = new_tat c now g } in
            rw (check-allowed now s g h (omega arith)) (
              omega (
                arith,
                new_tat-ge now g,
                granted-entry t₀ t₁ calls (insert k g' s) g' (rw text_eq_refl) w,
              ))
      ]

  granted-window :
      (t₀ t₁ : ℕ) (calls : List (ℕ × Call)) (s : State)
      → t₀ ≤ t₁
      → All (Within k t₀ t₁) calls
      → t₀ + granted c k calls s * emission_interval c
        ≤ max (t₀ + emission_interval c) (t₁ + burst_tolerance c)
  unfolding granted grants step
  granted-window t₀ t₁ [] s le w = omega arith
  granted-window t₀ t₁ ((now, forget j) ∷ calls) s le ((a, b, r), w) =
      omega (arith, granted-window t₀ t₁ calls (clear j s) le w)
  granted-window t₀ t₁ ((now, request j) ∷ calls) s le ((a, b, _), w) =
      elim (Bool-cases (text_eq j k)) [
        | inr other ↦
            rw (other, step) (omega (arith, granted-window t₀ t₁ calls (check c now j s).1 le w))
        | inl same ↦
            rw (same, step, check_congr now j s ((text_eq_iff j k).0 same))
              (granted-request now t₀ t₁ calls s a b w (granted-window t₀ t₁ calls s le w)
                (Option-cases (s k)))
      ]

-- In a time of `width` nanoseconds in which its state is not cleared, a key with any history is
-- granted n requests only if n emission intervals fit into `width` plus the burst tolerance, or
-- n is at most 1.
pub granted-le :
    (c : RateLimitConfig) (k : Text) (t₀ width : ℕ) (calls : List (ℕ × Call)) (s : State)
    → All (Within k t₀ (t₀ + width)) calls
    → granted c k calls s * emission_interval c
      ≤ max (emission_interval c) (width + burst_tolerance c)
granted-le c k t₀ width calls s w =
    omega (arith, granted-window c k t₀ (t₀ + width) calls s (omega arith) w)
