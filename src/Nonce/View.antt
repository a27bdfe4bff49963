-- ===== src/Nonce/View.antt =====
-- The in-memory store against its abstract contract: what `get_use_count` shows of each nonce.
use icebreaker.Common.{
  Text, text_eq, text_eq_iff, text_eq_refl, ℕ, ◌+◌, ◌≤◌, ◌<◌, ◌≡◌, ◌≢◌, true, ◌&&◌, insert, remove,
  Option, none, some, arith, if◌then◌else◌,
}
use icebreaker.Nonce.{
  CheckResult, NonceEntry, Entries, is_allowed, is_denied, saturating_suc, exceeds, allowed, denied,
  check_existing, check_new, check_and_record, cleanup, get_use_count,
}

-- The contract of one check, on the live count alone: the answer, and the count after it.
unfoldable pub contract : Option ℕ → Option ℕ → CheckResult × Option ℕ
contract max_uses (some uses) = elim (exceeds (saturating_suc uses) max_uses) [
  | some limit ↦ (denied uses limit, some uses)
  | none ↦ (allowed (saturating_suc uses) max_uses, some (saturating_suc uses))
]
contract max_uses none = elim (exceeds 1 max_uses) [
  | some limit ↦ (denied 0 0, none)
  | none ↦ (allowed 1 max_uses, some 1)
]

module _ (now ttl : ℕ) (k : Text) (max_uses : Option ℕ) (s : Entries)
    (pos : max_uses ≢ some 0) where
  check-eq-contract :
      (check_and_record now k max_uses ttl s).0 ≡ (contract max_uses (get_use_count now k s)).0
  unfolding contract check_and_record check_existing check_new get_use_count
  check-eq-contract = ground arith

  view-check :
      (t : ℕ) (j : Text)
      → now ≤ t
      → t < now + ttl
      → get_use_count t j (check_and_record now k max_uses ttl s).1 ≡ (
          if text_eq k j && is_allowed (check_and_record now k max_uses ttl s).0
          then (contract max_uses (get_use_count now k s)).1
          else get_use_count t j s)
  unfolding contract check_and_record check_existing check_new get_use_count is_allowed
  view-check t j a b = ground (arith, text_eq_iff k j)

-- With a limit that is absent or positive, a check answers by the contract from the live count
-- of its nonce; until its TTL has passed, an allowed check shows the contract's new count for its
-- nonce, and every other nonce, and a denied check's own, shows what it would have shown.
pub check_and_record-contract :
    (now ttl : ℕ) (k : Text) (max_uses : Option ℕ) (s : Entries) (t : ℕ) (j : Text)
    → max_uses ≢ some 0
    → now ≤ t
    → t < now + ttl
    → ((check_and_record now k max_uses ttl s).0 ≡ (contract max_uses (get_use_count now k s)).0)
      × (get_use_count t j (check_and_record now k max_uses ttl s).1 ≡ (
          if text_eq k j && is_allowed (check_and_record now k max_uses ttl s).0
          then (contract max_uses (get_use_count now k s)).1
          else get_use_count t j s))
check_and_record-contract now ttl k max_uses s t j pos a b =
    (check-eq-contract now ttl k max_uses s pos, view-check now ttl k max_uses s pos t j a b)

-- A cleanup that ran before a check, with a limit that is absent or positive, changes neither
-- the answer nor any count that is read from then on.
pub check_and_record-cleanup :
    (earlier now ttl : ℕ) (k : Text) (max_uses : Option ℕ) (s : Entries) (t : ℕ) (j : Text)
    → max_uses ≢ some 0
    → earlier ≤ now
    → now ≤ t
    → ((check_and_record now k max_uses ttl (cleanup earlier s)).0
        ≡ (check_and_record now k max_uses ttl s).0)
      × (get_use_count t j (check_and_record now k max_uses ttl (cleanup earlier s)).1
          ≡ get_use_count t j (check_and_record now k max_uses ttl s).1)
unfolding check_and_record check_existing check_new get_use_count cleanup
check_and_record-cleanup earlier now ttl k max_uses s t j pos a b =
    (ground arith, ground (arith, text_eq_iff k j))

-- With limit 0 a nonce that the map does not hold is denied, while one whose record has expired
-- is allowed.
pub check_and_record-zero_limit :
    (now ttl : ℕ) (k : Text) (s : Entries) (e : NonceEntry)
    → e.expires_at ≤ now
    → (is_denied (check_and_record now k (some 0) ttl (remove k s)).0 ≡ true)
      × (is_allowed (check_and_record now k (some 0) ttl (insert k e s)).0 ≡ true)
unfolding check_and_record check_existing check_new is_allowed is_denied
check_and_record-zero_limit now ttl k s e h = ground (arith, text_eq_refl k)
