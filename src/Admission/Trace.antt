-- ===== src/Admission/Trace.antt =====
-- Runs of the replay check on the in-memory store, with both clocks advancing. An event stands where
-- it holds the store's lock, at the time that it read before it waited for the lock: that no wait
-- puts events out of the order of their times is the hypothesis From.
use icebreaker.Common.{
  Text, text_eq, ℕ, ◌+◌, ◌/◌, ◌≤◌, ◌≡◌, Bool, false, Option, none, some, List, [], ◌∷◌,
  if◌then◌else◌,
}
use icebreaker.Errors.{Result, ok, err}
use icebreaker.Nonce.{Entries, cleanup, in_memory_store}
use icebreaker.Token.Payload.{TokenPayload, ReplayProtection}
use icebreaker.Token.Expiration.{ClockSkewConfig}
use icebreaker.Admission.{Clock, ErrorDisplay, second, check_replay}

-- What happens at the proxy: a token passes all checks before that of its replay protection, or
-- the store is cleaned up.
pub data Event : Type 0 where
  present : TokenPayload → Event
  clean : Event

abbrev pub count_ok : Result (Unit {0}) → ℕ
count_ok (ok _) = 1
count_ok (err e) = 0

-- The replay protection of the token has this nonce.
abbrev pub bears : Text → Option ReplayProtection → Bool
bears k none = false
bears k (some replay) = text_eq replay.nonce k

module _ (clock_skew : ClockSkewConfig) (offset : ℕ) ⦃d : ErrorDisplay⦄ where
  -- Both clocks advance together: the Unix clock shows whole seconds of the instant plus `offset`.
  abbrev pub clock_at : ℕ → Clock
  clock_at t = record { instant = t; unix = (t + offset) / second }

  unfoldable pub answer_to : ℕ → TokenPayload → Entries → Result (Unit {0}) × Entries
  answer_to t payload s = check_replay (some in_memory_store) clock_skew (clock_at t) payload s

  unfoldable pub after : ℕ → Event → Entries → Entries
  unfolding answer_to
  after t (present payload) s = (answer_to t payload s).1
  after t clean s = cleanup t s

  unfoldable pub passes : Text → ℕ → Event → Entries → ℕ
  unfolding answer_to
  passes k t (present payload) s =
      if bears k payload.replay_protection then count_ok (answer_to t payload s).0 else 0
  passes k t clean s = 0

  -- How many times a token with nonce `k` passes in the run.
  unfoldable pub passed : Text → List (ℕ × Event) → Entries → ℕ
  unfolding passes after
  passed k [] s = 0
  passed k ((t, e) ∷ events) s = passes k t e s + passed k events (after t e s)

-- The times of the run do not run backwards.
abbrev pub From : ℕ → List (ℕ × Event) → Type 0
From t [] = Unit
From t ((t', e) ∷ events) = (t ≤ t') × From t' events

-- Every token of the run with nonce `k` has this limit and expiry, and no nonce TTL of its own.
abbrev pub Limited : Text → ℕ → ℕ → ℕ × Event → Type 0
Limited k limit expires_at (t, clean) = Unit
Limited k limit expires_at (t, present payload) =
    (replay : ReplayProtection)
    → payload.replay_protection ≡ some replay
    → replay.nonce ≡ k
    → (replay.max_uses ≡ some limit)
      × (replay.nonce_ttl_seconds ≡ none)
      × (payload.expires_at ≡ some expires_at)
