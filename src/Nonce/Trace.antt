-- ===== src/Nonce/Trace.antt =====
-- Sequences of calls on one in-memory store: checks of any nonce and cleanups, in the order in which
-- they hold the lock, each with its clock reading. A call reads the clock before it waits for the
-- lock, so that the readings need not be in order.
use icebreaker.Common.{
  Text, text_eq, ℕ, ◌+◌, ◌≤◌, ◌<◌, ◌≡◌, Option, some, List, [], ◌∷◌, if◌then◌else◌,
}
use icebreaker.Nonce.{CheckResult, allowed, denied, Entries, check_and_record, cleanup}

pub data Call : Type 0 where
  check : (nonce : Text) (max_uses : Option ℕ) (ttl : ℕ) → Call
  clean : Call

unfoldable pub step : ℕ → Call → Entries → Entries
step now (check nonce max_uses ttl) s = (check_and_record now nonce max_uses ttl s).1
step now clean s = cleanup now s

abbrev pub count_allowed : CheckResult → ℕ
count_allowed (allowed current_uses max_uses) = 1
count_allowed (denied current_uses max_uses) = 0

-- 1 when the call is a check of `k` that is allowed
unfoldable pub grants : Text → ℕ → Call → Entries → ℕ
grants k now (check nonce max_uses ttl) s =
    if text_eq nonce k then count_allowed (check_and_record now nonce max_uses ttl s).0 else 0
grants k now clean s = 0

-- How many checks of `k` are allowed in the run.
unfoldable pub granted : Text → List (ℕ × Call) → Entries → ℕ
granted k [] s = 0
granted k ((now, c) ∷ calls) s = grants k now c s + granted k calls (step now c s)

abbrev pub attempt : Text → Call → ℕ
attempt k (check nonce max_uses ttl) = if text_eq nonce k then 1 else 0
attempt k clean = 0

-- How many checks of `k` there are.
unfoldable pub attempts : Text → List (ℕ × Call) → ℕ
attempts k [] = 0
attempts k ((now, c) ∷ calls) = attempt k c + attempts k calls

-- The call is a cleanup, a check of another nonce, or a check of `k` with this limit and at least
-- this TTL.
abbrev pub Uses : Text → ℕ → ℕ → Call → Type 0
Uses k limit ttl (check nonce max_uses ttl') = nonce ≡ k → (max_uses ≡ some limit) × (ttl ≤ ttl')
Uses k limit ttl clean = Unit

-- A call within `ttl` of time `t₀`.
abbrev pub InWindow : Text → ℕ → ℕ → ℕ → ℕ × Call → Type 0
InWindow k limit ttl t₀ (now, c) = (t₀ ≤ now) × (now < t₀ + ttl) × Uses k limit ttl c
