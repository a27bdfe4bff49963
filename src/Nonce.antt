-- ===== src/Nonce.antt =====
-- crates/icebreaker-nonce/src/store.rs: the nonce stores. `Instant` and `Duration` are numbers of
-- nanoseconds; the clock reading is the argument `now` of each operation. The write lock makes an
-- operation one step on the map.
pub mod Trace
pub mod Replay
pub mod View
mod Tests
use icebreaker.Common.{
  Text, Map, retain, insert, ℕ, ◌+◌, ◌-◌, ◌^◌, min, Bool, true, false, Option, none, some, ltb, leb,
  ◌==◌, if◌then◌else◌,
}
use icebreaker.Errors.{Result, ok}

pub data CheckResult : Type 0 where
  allowed : (current_uses : ℕ) (max_uses : Option ℕ) → CheckResult
  denied : (current_uses max_uses : ℕ) → CheckResult

unfoldable pub is_allowed : CheckResult → Bool
is_allowed (allowed current_uses max_uses) = true
is_allowed (denied current_uses max_uses) = false

unfoldable pub is_denied : CheckResult → Bool
is_denied (allowed current_uses max_uses) = false
is_denied (denied current_uses max_uses) = true

-- The trait: a backend with state `S`, called with the time, the nonce, the limit and the TTL.
pub record NonceStore (S : Type 0) : Type 0 where
  pub check_and_record : ℕ → Text → Option ℕ → ℕ → S → Result CheckResult × S
  pub get_use_count : ℕ → Text → S → Result (Option ℕ)

-- `NoOpNonceStore`
unfoldable pub no_op_store : NonceStore (Unit {0})
no_op_store = record {
  check_and_record = λ now nonce max_uses ttl s. (ok (allowed 1 max_uses), s);
  get_use_count = λ now nonce s. ok none;
}

pub record NonceEntry : Type 0 where
  pub uses : ℕ
  pub expires_at : ℕ

abbrev pub Entries : Type 0
Entries = Map NonceEntry

abbrev pub u32_max : ℕ
u32_max = 2 ^ 32 - 1

-- `u32::saturating_add(1)`
abbrev pub saturating_suc : ℕ → ℕ
saturating_suc n = min (n + 1) u32_max

-- `new_count > max` of a limit that may be absent
abbrev pub exceeds : ℕ → Option ℕ → Option ℕ
exceeds n none = none
exceeds n (some limit) = if ltb limit n then some limit else none

abbrev pub entry_of : ℕ → ℕ → NonceEntry
entry_of uses expires_at = record { uses = uses; expires_at = expires_at }

-- The branch of `check_and_record` for an entry that is there. The sum `now + ttl` has no bound
-- here; the code panics where an `Instant` cannot hold it.
unfoldable pub check_existing :
    ℕ → Text → Option ℕ → ℕ → NonceEntry → Entries → CheckResult × Entries
check_existing now nonce max_uses ttl entry entries =
    let expires_at = now + ttl in
    let new_count = saturating_suc entry.uses in
    if leb entry.expires_at now
    then (allowed 1 max_uses, insert nonce (entry_of 1 expires_at) entries)
    else elim (exceeds new_count max_uses) [
      | some limit ↦ (denied entry.uses limit, entries)
      | none ↦ (allowed new_count max_uses, insert nonce (entry_of new_count expires_at) entries)
    ]

-- The branch for a nonce that is not there.
unfoldable pub check_new : ℕ → Text → Option ℕ → ℕ → Entries → CheckResult × Entries
check_new now nonce none ttl entries =
    (allowed 1 none, insert nonce (entry_of 1 (now + ttl)) entries)
check_new now nonce (some limit) ttl entries =
    if limit == 0
    then (denied 0 0, entries)
    else (allowed 1 (some limit), insert nonce (entry_of 1 (now + ttl)) entries)

unfoldable pub check_and_record : ℕ → Text → Option ℕ → ℕ → Entries → CheckResult × Entries
unfolding check_existing check_new
check_and_record now nonce max_uses ttl entries = elim (entries nonce) [
  | none ↦ check_new now nonce max_uses ttl entries
  | some entry ↦ check_existing now nonce max_uses ttl entry entries
]

-- `cleanup`, and one round of the background task
unfoldable pub cleanup : ℕ → Entries → Entries
cleanup now entries = retain (λ entry. ltb now entry.expires_at) entries

abbrev live_uses : ℕ → Option NonceEntry → Option ℕ
live_uses now none = none
live_uses now (some entry) = if ltb now entry.expires_at then some entry.uses else none

unfoldable pub get_use_count : ℕ → Text → Entries → Option ℕ
get_use_count now nonce entries = live_uses now (entries nonce)

-- `impl NonceStore for InMemoryNonceStore`
unfoldable pub in_memory_store : NonceStore Entries
unfolding check_and_record get_use_count
in_memory_store = record {
  check_and_record = λ now nonce max_uses ttl entries.
      let (r, entries') = check_and_record now nonce max_uses ttl entries in (ok r, entries');
  get_use_count = λ now nonce entries. ok (get_use_count now nonce entries);
}
