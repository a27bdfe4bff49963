-- ===== src/Nonce/Tests.antt =====
-- Runs of the in-memory store, and the theorems about it at concrete inputs.
use icebreaker.Common.{
  Text, codes, empty, ℕ, ◌≡◌, refl, min, none, some, List, [], ◌∷◌, arith, text_eq, All, ◌&&◌,
  if◌then◌else◌,
}
use icebreaker.Nonce.{Entries, allowed, denied, is_allowed, check_and_record, get_use_count}
use icebreaker.Nonce.Trace.{Call, check, clean, granted, attempts, InWindow}
use icebreaker.Nonce.Replay.{granted-eq-min}
use icebreaker.Nonce.View.{contract, check_and_record-contract}

abbrev fresh : Entries
fresh = empty

abbrev tok : Text
tok = codes "n1"

some_inj : (a b : ℕ) → some a ≡ some b → a ≡ b
some_inj a b p = ground arith

once : Entries
once = (check_and_record 5 tok (some 1) 60 fresh).1

single_use :
    let s = (check_and_record 5 tok (some 1) 60 fresh).1 in
    ((check_and_record 6 tok (some 1) 60 s).0 ≡ denied 1 1)
    × ((check_and_record 65 tok (some 1) 60 s).0 ≡ allowed 1 (some 1))
    × (get_use_count 64 tok s ≡ some 1)
    × (get_use_count 65 tok s ≡ none)
unfolding check_and_record get_use_count text_eq
single_use = (refl, refl, refl, refl)

abbrev calls : List (ℕ × Call)
calls =
    (5, check tok (some 2) 60)
    ∷ (6, clean)
    ∷ (7, check (codes "n2") (some 9) 60)
    ∷ (8, check tok (some 2) 60)
    ∷ (9, check tok (some 2) 60)
    ∷ []

window : All (InWindow tok 2 60 5) calls
window = ground arith

granted-eq-min_example : granted tok calls fresh ≡ min 2 (attempts tok calls)
unfolding get_use_count
granted-eq-min_example =
    granted-eq-min tok 2 60 5 (omega arith) calls fresh (omega arith) refl window

contract_example :
    ((check_and_record 7 tok (some 2) 60 once).0 ≡ (contract (some 2) (get_use_count 7 tok once)).0)
    × (get_use_count 20 tok (check_and_record 7 tok (some 2) 60 once).1 ≡ (
        if text_eq tok tok && is_allowed (check_and_record 7 tok (some 2) 60 once).0
        then (contract (some 2) (get_use_count 7 tok once)).1
        else get_use_count 20 tok once))
contract_example =
    check_and_record-contract 7 60 tok (some 2) once 20 tok (λ p. omega (arith, some_inj 2 0 p))
      (omega arith) (omega arith)
