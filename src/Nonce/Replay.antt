-- ===== src/Nonce/Replay.antt =====
-- The replay bound of the in-memory store.
use icebreaker.Common.{
  Text, text_eq, text_eq_iff, text_eq_refl, All, inl, inr, ◌∙◌, Bool-cases, insert, ℕ, ◌+◌, ◌-◌,
  ◌≤◌, ◌<◌, min, ◌≡◌, false, Option, none, some, List, [], ◌∷◌, arith,
}
use icebreaker.Nonce.{
  NonceEntry, Entries, u32_max, entry_of, allowed, denied, check_existing, check_new,
  check_and_record, cleanup, get_use_count,
}
use native.Mathlib.Decide.{dec_lt}
use icebreaker.Nonce.Trace.{
  count_allowed, Call, check, clean, step, grants, granted, attempts, InWindow,
}

-- One call leaves what it does not concern.
pub check-ne :
    (now : ℕ) (j : Text) (max_uses : Option ℕ) (ttl : ℕ) (s : Entries) (k : Text)
    → text_eq j k ≡ false
    → (check_and_record now j max_uses ttl s).1 k ≡ s k
unfolding check_and_record check_existing check_new
check-ne now j none ttl s k h = ground arith
check-ne now j (some limit) ttl s k h = ground arith

pub cleanup-live :
    (now : ℕ) (s : Entries) (k : Text) (e : NonceEntry)
    → s k ≡ some e
    → now < e.expires_at
    → cleanup now s k ≡ some e
unfolding cleanup
cleanup-live now s k e h lt = rw h (ground arith)

module _ (now : ℕ) (k : Text) (limit ttl : ℕ) (s : Entries) where
  pub check-below :
      (e : NonceEntry)
      → s k ≡ some e
      → now < e.expires_at
      → limit < u32_max
      → e.uses < limit
      → check_and_record now k (some limit) ttl s
        ≡ (allowed (e.uses + 1) (some limit), insert k (entry_of (e.uses + 1) (now + ttl)) s)
  unfolding check_and_record check_existing check_new
  check-below e h live fits below = rw (h, check_and_record) (ground arith)

  pub check-spent :
      (e : NonceEntry)
      → s k ≡ some e
      → now < e.expires_at
      → limit < u32_max
      → limit ≤ e.uses
      → check_and_record now k (some limit) ttl s ≡ (denied e.uses limit, s)
  unfolding check_and_record check_existing check_new
  check-spent e h live fits spent = rw (h, check_and_record) (ground arith)

  pub check-fresh :
      get_use_count now k s ≡ none
      → 0 < limit
      → check_and_record now k (some limit) ttl s
        ≡ (allowed 1 (some limit), insert k (entry_of 1 (now + ttl)) s)
  unfolding check_and_record check_existing check_new get_use_count
  check-fresh h pos = ground arith

-- What is not live stays so.
fresh_later :
    (t₀ now : ℕ) (s : Entries) (k : Text)
    → t₀ ≤ now
    → get_use_count t₀ k s ≡ none
    → get_use_count now k s ≡ none
unfolding get_use_count
fresh_later t₀ now s k a h = ground arith

fresh-cleanup :
    (now t₀ : ℕ) (s : Entries) (k : Text)
    → get_use_count t₀ k s ≡ none
    → get_use_count t₀ k (cleanup now s) ≡ none
unfolding get_use_count cleanup
fresh-cleanup now t₀ s k h = ground arith

fresh-check :
    (now t₀ : ℕ) (j : Text) (max_uses : Option ℕ) (ttl : ℕ) (s : Entries) (k : Text)
    → text_eq j k ≡ false
    → get_use_count t₀ k s ≡ none
    → get_use_count t₀ k (check_and_record now j max_uses ttl s).1 ≡ none
unfolding get_use_count
fresh-check now t₀ j max_uses ttl s k other h =
    rw (check-ne now j max_uses ttl s k other, get_use_count) h

module _ (k : Text) (limit ttl t₀ : ℕ) (fits : limit < u32_max) where
  same_check :
      (j : Text) (max_uses : Option ℕ) (ttl' : ℕ) (s : Entries) (now : ℕ)
      → j ≡ k
      → max_uses ≡ some limit
      → check_and_record now j max_uses ttl' s ≡ check_and_record now k (some limit) ttl' s
  same_check j max_uses ttl' s now p q = cc

  -- One check of `k` before the rest of the run.
  granted-check :
      (calls : List (ℕ × Call)) (s : Entries) (e : NonceEntry)
      → s k ≡ some e
      → t₀ + ttl ≤ e.expires_at
      → e.uses ≤ limit
      → (now ttl' : ℕ) → t₀ ≤ now
      → now < t₀ + ttl
      → ttl ≤ ttl'
      → ((s' : Entries) (e' : NonceEntry)
          → s' k ≡ some e'
          → t₀ + ttl ≤ e'.expires_at
          → e'.uses ≤ limit
          → granted k calls s' ≡ min (limit - e'.uses) (attempts k calls))
      → count_allowed (check_and_record now k (some limit) ttl' s).0
          + granted k calls (check_and_record now k (some limit) ttl' s).1
        ≡ min (limit - e.uses) (1 + attempts k calls)
  granted-check calls s e h long room now ttl' a b lasts ih = elim (dec_lt e.uses limit) [
    | yes below ↦ rw (check-below now k limit ttl' s e h (omega arith) fits below) (
        omega (
          arith,
          ih (insert k (entry_of (e.uses + 1) (now + ttl')) s) (entry_of (e.uses + 1) (now + ttl'))
              (rw text_eq_refl) (omega arith) (omega arith),
        ))
    | no spent ↦
        rw (check-spent now k limit ttl' s e h (omega arith) fits (omega arith))
          (omega (arith, ih s e h long room))
  ]

  -- From a live entry the run grants what is left of the limit.
  granted-live :
      (calls : List (ℕ × Call)) (s : Entries) (e : NonceEntry)
      → s k ≡ some e
      → t₀ + ttl ≤ e.expires_at
      → e.uses ≤ limit
      → All (InWindow k limit ttl t₀) calls
      → granted k calls s ≡ min (limit - e.uses) (attempts k calls)
  unfolding granted attempts grants step
  granted-live [] s e h long room w = omega arith
  granted-live ((now, clean) ∷ calls) s e h long room ((a, b, _), w) =
      let kept = cleanup-live now s k e h (omega arith) in
      omega (arith, granted-live calls (cleanup now s) e kept long room w)
  granted-live ((now, check j max_uses ttl') ∷ calls) s e h long room ((a, b, u), w) =
      elim (Bool-cases (text_eq j k)) [
        | inr other ↦
            let s' = (check_and_record now j max_uses ttl' s).1 in
            let same_entry = check-ne now j max_uses ttl' s k other ∙ h in
            rw (other, step) (omega (arith, granted-live calls s' e same_entry long room w))
        | inl same ↦
            let (limited, lasts) = u ((text_eq_iff j k).0 same) in
            rw (same, step, same_check j max_uses ttl' s now ((text_eq_iff j k).0 same) limited)
              (granted-check calls s e h long room now ttl' (omega arith) (omega arith) lasts
                (λ s' e' h' long' room'. granted-live calls s' e' h' long' room' w))
      ]

  -- In a window of length `ttl` in which every check of nonce `k` has limit `limit` and a TTL of
  -- at least `ttl`, exactly min(limit, number of checks) of them are allowed, whatever other
  -- nonces are checked and whenever cleanup runs, if `k` has no live entry at the start and the
  -- limit is positive and below `u32::MAX`.
  pub granted-eq-min :
      (calls : List (ℕ × Call)) (s : Entries)
      → 0 < limit
      → get_use_count t₀ k s ≡ none
      → All (InWindow k limit ttl t₀) calls
      → granted k calls s ≡ min limit (attempts k calls)
  unfolding granted attempts grants step
  granted-eq-min [] s pos fresh w = omega arith
  granted-eq-min ((now, clean) ∷ calls) s pos fresh ((a, b, _), w) =
      let still = fresh-cleanup now t₀ s k fresh in
      omega (arith, granted-eq-min calls (cleanup now s) pos still w)
  granted-eq-min ((now, check j max_uses ttl') ∷ calls) s pos fresh ((a, b, u), w) =
      elim (Bool-cases (text_eq j k)) [
        | inr other ↦
            let s' = (check_and_record now j max_uses ttl' s).1 in
            let still = fresh-check now t₀ j max_uses ttl' s k other fresh in
            rw (other, step) (omega (arith, granted-eq-min calls s' pos still w))
        | inl same ↦
            let (limited, lasts) = u ((text_eq_iff j k).0 same) in
            let e = entry_of 1 (now + ttl') in
            rw
              (
                same,
                step,
                same_check j max_uses ttl' s now ((text_eq_iff j k).0 same) limited,
                check-fresh now k limit ttl' s (fresh_later t₀ now s k a fresh) pos,
              )
              (omega
                (arith, granted-live calls (insert k e s) e (rw text_eq_refl) (omega arith) pos w))
      ]
