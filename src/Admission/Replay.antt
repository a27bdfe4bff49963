-- ===== src/Admission/Replay.antt =====
-- How often a proxy with the in-memory store admits one token.
use icebreaker.Common.{
  Text, text_eq, text_eq_iff, text_eq_refl, All, insert, ℕ, ◌+◌, ◌-◌, ◌*◌, ◌/◌, ◌^◌, ◌≤◌, ◌<◌, ◌≡◌,
  refl, true, false, Option, none, some, List, [], ◌∷◌, arith, Bool-cases, Option-cases, inl, inr,
  ◌∙◌,
}
use mathlib.Core.Bool.{false≢true}
use native.Mathlib.Decide.{dec_lt}
use icebreaker.Errors.{Result, ok, err, token_expired}
use icebreaker.Nonce.{
  NonceEntry, Entries, u32_max, entry_of, check_and_record, cleanup, get_use_count, in_memory_store,
}
use icebreaker.Nonce.Replay.{check-ne, cleanup-live, check-below, check-spent, check-fresh}
use icebreaker.Token.Payload.{TokenPayload, ReplayProtection}
use icebreaker.Token.Expiration.{ClockSkewConfig}
use icebreaker.Admission.{
  Clock, ErrorDisplay, second, ttl_from_expiry, on_check, check_with_ttl, check_store, check_replay,
}
use icebreaker.Admission.Trace.{
  Event, present, clean, count_ok, bears, clock_at, answer_to, after, passes, passed, From, Limited,
}

module _ (clock_skew : ClockSkewConfig) (offset : ℕ) ⦃d : ErrorDisplay⦄ (k : Text) where
  with_ttl-ne :
      (t : ℕ) (replay : ReplayProtection) (ttl : Result ℕ) (s : Entries)
      → text_eq replay.nonce k ≡ false
      → (check_with_ttl in_memory_store (clock_at clock_skew offset t) replay ttl s).1 k ≡ s k
  unfolding check_with_ttl in_memory_store
  with_ttl-ne t replay (err e) s h = refl
  with_ttl-ne t replay (ok ttl) s h = check-ne t replay.nonce replay.max_uses ttl s k h

  store-ne :
      (t : ℕ) (replay : ReplayProtection) (expires_at : Option ℕ) (s : Entries)
      → text_eq replay.nonce k ≡ false
      → (check_store in_memory_store clock_skew
            (clock_at clock_skew offset t)
            replay
            expires_at
            s).1
          k
        ≡ s k
  unfolding check_store
  store-ne t replay none s h = refl
  store-ne t replay (some expires_at) s h =
      with_ttl-ne t replay
        (ttl_from_expiry replay.nonce_ttl_seconds expires_at clock_skew ((t + offset) / second)) s h

  -- A token with another nonce leaves the entry of `k`.
  answer-ne :
      (t : ℕ) (payload : TokenPayload) (s : Entries)
      → bears k payload.replay_protection ≡ false
      → (answer_to clock_skew offset t payload s).1 k ≡ s k
  unfolding answer_to check_replay
  answer-ne t payload s h = elim (Option-cases payload.replay_protection) [
    | inl none' ↦ rw none' refl
    | inr (replay, e) ↦ rw e (store-ne t replay payload.expires_at s (rw e at h))
  ]

module _ (clock_skew : ClockSkewConfig) (offset : ℕ) ⦃d : ErrorDisplay⦄ (k : Text)
    (limit expires_at : ℕ) (fits : limit < u32_max)
    (bounded : expires_at + clock_skew.tolerance_seconds < 2 ^ 64) where
  -- The second at which the token is no longer admitted.
  abbrev deadline : ℕ
  deadline = expires_at + clock_skew.tolerance_seconds

  ttl_before :
      (t : ℕ)
      → (t + offset) / second < deadline
      → ttl_from_expiry none expires_at clock_skew ((t + offset) / second)
        ≡ ok ((deadline - (t + offset) / second) * second)
  unfolding ttl_from_expiry
  ttl_before t h = ground arith

  ttl_after :
      (t : ℕ)
      → deadline ≤ (t + offset) / second
      → ttl_from_expiry none expires_at clock_skew ((t + offset) / second) ≡ err token_expired
  unfolding ttl_from_expiry
  ttl_after t h = ground arith

  -- The replay protection of the token.
  abbrev protection : ReplayProtection
  protection = record { nonce = k; max_uses = some limit; nonce_ttl_seconds = none }

  protection_eq :
      (replay : ReplayProtection)
      → replay.nonce ≡ k
      → replay.max_uses ≡ some limit
      → replay.nonce_ttl_seconds ≡ none
      → replay ≡ protection
  protection_eq replay p q r = λ i. record { nonce = p i; max_uses = q i; nonce_ttl_seconds = r i }

  store-eq :
      (clock : Clock) (replay : ReplayProtection) (expiry : Option ℕ) (s : Entries)
      → replay ≡ protection
      → expiry ≡ some expires_at
      → check_store in_memory_store clock_skew clock replay expiry s
        ≡ check_with_ttl in_memory_store clock protection
            (ttl_from_expiry none expires_at clock_skew clock.unix)
            s
  unfolding check_store
  store-eq clock replay expiry s p q = rw (p, q) refl

  -- The answer to the token itself.
  answer-eq :
      (t : ℕ) (payload : TokenPayload) (s : Entries)
      → bears k payload.replay_protection ≡ true
      → Limited k limit expires_at (t, present payload)
      → answer_to clock_skew offset t payload s
        ≡ check_with_ttl in_memory_store
            (clock_at clock_skew offset t)
            protection
            (ttl_from_expiry none expires_at clock_skew ((t + offset) / second))
            s
  unfolding answer_to check_replay
  answer-eq t payload s h l = elim (Option-cases payload.replay_protection) [
    | inl none' ↦ absurd (false≢true (rw none' at h))
    | inr (replay, e) ↦
        let named = (text_eq_iff replay.nonce k).0 (rw e at h) in
        let (limited, no_ttl, expiring) = l replay e named in
        rw e (
          store-eq (clock_at clock_skew offset t) replay payload.expires_at s
            (protection_eq replay named limited no_ttl) expiring)
  ]

  -- Past the deadline the token is expired, and the store is not asked.
  answer-late :
      (t : ℕ) (payload : TokenPayload) (s : Entries)
      → bears k payload.replay_protection ≡ true
      → Limited k limit expires_at (t, present payload)
      → deadline ≤ (t + offset) / second
      → answer_to clock_skew offset t payload s ≡ (err token_expired, s)
  unfolding check_with_ttl
  answer-late t payload s h l late = answer-eq t payload s h l ∙ rw (ttl_after t late) refl

  -- Before it the store counts the use, and keeps it until the deadline.
  answer-early :
      (t : ℕ) (payload : TokenPayload) (s : Entries)
      → bears k payload.replay_protection ≡ true
      → Limited k limit expires_at (t, present payload)
      → (t + offset) / second < deadline
      → (ttl : ℕ) × (deadline * second ≤ t + ttl + offset)
        × (answer_to clock_skew offset t payload s
            ≡ (let (r, s') = check_and_record t k (some limit) ttl s in (on_check (ok r), s')))
  unfolding check_with_ttl in_memory_store
  answer-early t payload s h l early = (
    (deadline - (t + offset) / second) * second,
    omega arith,
    answer-eq t payload s h l ∙ rw (ttl_before t early) refl,
  )

  cleanup-none : (t : ℕ) (s : Entries) → s k ≡ none → cleanup t s k ≡ none
  unfolding cleanup
  cleanup-none t s h = rw h refl

  unseen : (t : ℕ) (s : Entries) → s k ≡ none → get_use_count t k s ≡ none
  unfolding get_use_count
  unseen t s h = rw h refl

  -- From the deadline on the token never passes.
  passed-late :
      (t₀ : ℕ) (events : List (ℕ × Event)) (s : Entries)
      → deadline ≤ (t₀ + offset) / second
      → From t₀ events
      → All (Limited k limit expires_at) events
      → passed clock_skew offset k events s ≡ 0
  unfolding passed passes after
  passed-late t₀ [] s late times l = refl
  passed-late t₀ ((t, clean) ∷ events) s late (a, times) (_, l) =
      omega (arith, passed-late t events (cleanup t s) (omega arith) times l)
  passed-late t₀ ((t, present payload) ∷ events) s late (a, times) (p, l) =
      let rest =
        passed-late t events (answer_to clock_skew offset t payload s).1 (omega arith) times l in
      elim (Bool-cases (bears k payload.replay_protection)) [
        | inr other ↦ rw other (omega (arith, rest))
        | inl own ↦
            rw (own, after, answer-late t payload s own p (omega arith))
              (omega (arith, passed-late t events s (omega arith) times l))
      ]

  -- The entry of the token counts at most its limit, and outlives the token.
  abbrev Kept : NonceEntry → Type 0
  Kept e = (e.uses ≤ limit) × (deadline * second ≤ e.expires_at + offset)

  passed-own :
      (t : ℕ) (payload : TokenPayload) (events : List (ℕ × Event)) (s : Entries) (e : NonceEntry)
      → s k ≡ some e
      → Kept e
      → (t + offset) / second < deadline
      → bears k payload.replay_protection ≡ true
      → Limited k limit expires_at (t, present payload)
      → ((s' : Entries) (e' : NonceEntry)
          → s' k ≡ some e'
          → Kept e'
          → passed clock_skew offset k events s' ≤ limit - e'.uses)
      → count_ok (answer_to clock_skew offset t payload s).0
          + passed clock_skew offset k events (answer_to clock_skew offset t payload s).1
        ≤ limit - e.uses
  unfolding on_check
  passed-own t payload events s e h (room, long) early own p ih =
      let (ttl, lasts, answer) = answer-early t payload s own p early in
      elim (dec_lt e.uses limit) [
        | yes below ↦
            let e' = entry_of (e.uses + 1) (t + ttl) in
            rw (answer, check-below t k limit ttl s e h (omega arith) fits below)
              (omega (arith, ih (insert k e' s) e' (rw text_eq_refl) (omega arith, lasts)))
        | no spent ↦
            rw (answer, check-spent t k limit ttl s e h (omega arith) fits (omega arith))
              (omega (arith, ih s e h (room, long)))
      ]

  -- From an entry that is kept, at most what is left of the limit passes.
  passed-live :
      (t₀ : ℕ) (events : List (ℕ × Event)) (s : Entries) (e : NonceEntry)
      → s k ≡ some e
      → Kept e
      → From t₀ events
      → All (Limited k limit expires_at) events
      → passed clock_skew offset k events s ≤ limit - e.uses
  unfolding passed passes after
  passed-live t₀ [] s e h kept times l = omega arith
  passed-live t₀ ((t, clean) ∷ events) s e h kept (a, times) (p, l) =
      elim (dec_lt ((t + offset) / second) deadline) [
        | no late ↦ omega (arith, passed-late t events (cleanup t s) (omega arith) times l)
        | yes early ↦
            let same = cleanup-live t s k e h (omega (arith, kept.1)) in
            omega (arith, passed-live t events (cleanup t s) e same kept times l)
      ]
  passed-live t₀ ((t, present payload) ∷ events) s e h kept (a, times) (p, l) =
      elim (dec_lt ((t + offset) / second) deadline) [
        | no late ↦ omega (
          arith,
          passed-late t ((t, present payload) ∷ events) s (omega arith) (omega arith, times) (p, l),
        )
        | yes early ↦ elim (Bool-cases (bears k payload.replay_protection)) [
          | inr other ↦
              let s' = (answer_to clock_skew offset t payload s).1 in
              let same = answer-ne clock_skew offset k t payload s other ∙ h in
              rw other (omega (arith, passed-live t events s' e same kept times l))
          | inl own ↦ rw own (
              passed-own t payload events s e h kept early own p
                (λ s' e' h' kept'. passed-live t events s' e' h' kept' times l))
        ]
      ]

  -- Over the whole life of the proxy a token with a positive limit on its uses, below `u32::MAX`,
  -- with an expiry and no nonce TTL of its own passes the replay check at most as often as its
  -- limit says, if the in-memory store holds no entry for its nonce at the start, both clocks
  -- advance together and never backwards, and expiry plus tolerance fits 64 bits; other tokens and
  -- cleanups may come in between.
  pub passed-le :
      (t₀ : ℕ) (events : List (ℕ × Event)) (s : Entries)
      → 0 < limit
      → s k ≡ none
      → From t₀ events
      → All (Limited k limit expires_at) events
      → passed clock_skew offset k events s ≤ limit
  unfolding passed passes after on_check
  passed-le t₀ [] s pos h times l = omega arith
  passed-le t₀ ((t, clean) ∷ events) s pos h (a, times) (p, l) =
      omega (arith, passed-le t events (cleanup t s) pos (cleanup-none t s h) times l)
  passed-le t₀ ((t, present payload) ∷ events) s pos h (a, times) (p, l) =
      elim (dec_lt ((t + offset) / second) deadline) [
        | no late ↦ omega (
          arith,
          passed-late t ((t, present payload) ∷ events) s (omega arith) (omega arith, times) (p, l),
        )
        | yes early ↦ elim (Bool-cases (bears k payload.replay_protection)) [
          | inr other ↦
              let s' = (answer_to clock_skew offset t payload s).1 in
              let same = answer-ne clock_skew offset k t payload s other ∙ h in
              rw other (omega (arith, passed-le t events s' pos same times l))
          | inl own ↦
              let (ttl, lasts, answer) = answer-early t payload s own p early in
              let e = entry_of 1 (t + ttl) in
              rw (own, after, answer, check-fresh t k limit ttl s (unseen t s h) pos)
                (omega (
                  arith,
                  passed-live t events (insert k e s) e (rw text_eq_refl) (omega arith, lasts) times
                      l,
                ))
        ]
      ]
