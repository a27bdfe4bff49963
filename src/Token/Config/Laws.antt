-- ===== src/Token/Config/Laws.antt =====
-- Which multi-processor configurations are accepted.
use icebreaker.Common.{
  ℕ, ◌+◌, ◌≤◌, ◌≡◌, ◌≢◌, ◌↔◌, false, none, if◌then◌else◌, arith, inl, inr, Bool-cases,
}
use icebreaker.Token.Config.{
  Processors, nil, cons, is_multi, is_body_processor, validate_from, validate,
}

-- No processor of the list is itself a multi processor.
abbrev pub Flat : Processors → Type 0
Flat nil = Unit
Flat (cons p ps) = (is_multi p ≡ false) × Flat ps

-- How many processors of the list change the body.
abbrev pub count_bodies : Processors → ℕ
count_bodies nil = 0
count_bodies (cons p ps) = (if is_body_processor p then 1 else 0) + count_bodies ps

validate_from_iff :
    (i n : ℕ) (ps : Processors)
    → (validate_from i n ps ≡ none) ↔ (Flat ps × (n + count_bodies ps ≤ 1))
unfolding validate_from
validate_from_iff i n nil = ground arith
validate_from_iff i n (cons p ps) = elim (Bool-cases (is_body_processor p)) [
  | inl body ↦ rw body (ground (arith, validate_from_iff (i + 1) (n + 1) ps))
  | inr header ↦ rw header (ground (arith, validate_from_iff (i + 1) n ps))
]

-- A multi-processor configuration is accepted exactly if it is not empty, no processor in it is
-- itself a multi processor, and at most one of them changes the body.
pub validate-eq-none_iff :
    (ps : Processors) → (validate ps ≡ none) ↔ ((ps ≢ nil) × Flat ps × (count_bodies ps ≤ 1))
unfolding validate
validate-eq-none_iff nil = ground arith
validate-eq-none_iff (cons p ps) = ground (arith, validate_from_iff 0 0 (cons p ps))
