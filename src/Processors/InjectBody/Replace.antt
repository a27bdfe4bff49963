-- ===== src/Processors/InjectBody/Replace.antt =====
-- What the replacement of the placeholder gives, and when it ends.
use icebreaker.Common.{
  Text, strip_prefix, length, ℕ, zero, suc, ◌≤◌, ◌<◌, ◌≡◌, ◌∙◌, refl, sym, ap, true, false, none,
  some, [], ◌∷◌, ◌++◌, arith, append_assoc, append-nil, length-append, Option-cases, Bool-cases,
  inl, inr,
}
use icebreaker.Body.Pattern.{contains_pattern, contains_pattern_iff}
use icebreaker.Processors.InjectBody.{contains_bytes, replace_loop, replace_placeholder}

-- The body is read from the left: where the placeholder stands, the replacement is put for it, and
-- any other byte is kept.
pub data Replaced (placeholder replacement : Text) : Text → Text → Type 0 where
  end : Replaced placeholder replacement [] []
  hit :
      (whole rest out : Text)
      → strip_prefix placeholder whole ≡ some rest
      → Replaced placeholder replacement rest out
      → Replaced placeholder replacement whole (replacement ++ out)
  miss :
      (c : ℕ) (rest out : Text)
      → strip_prefix placeholder (c ∷ rest) ≡ none
      → Replaced placeholder replacement rest out
      → Replaced placeholder replacement (c ∷ rest) (c ∷ out)

strip_prefix-cut : (p s rest : Text) → strip_prefix p s ≡ some rest → s ≡ p ++ rest
unfolding strip_prefix
strip_prefix-cut [] s rest e = ground arith
strip_prefix-cut (a ∷ p) [] rest e = absurd (ground arith)
strip_prefix-cut (a ∷ p) (c ∷ s) rest e = ground (arith, strip_prefix-cut p s rest)

strip_prefix-length :
    (a : ℕ) (p s rest : Text) → strip_prefix (a ∷ p) s ≡ some rest → length rest < length s
strip_prefix-length a p s rest e =
    rw (strip_prefix-cut (a ∷ p) s rest e) (omega (arith, length-append p rest))

module _ (a : ℕ) (p replacement : Text) where
  -- With a round for each byte the loop ends, and puts out the replaced body.
  replace_loop_lem :
      (fuel : ℕ) (body result : Text)
      → length body ≤ fuel
      → (out : Text) × (replace_loop fuel (a ∷ p) replacement body result ≡ some (result ++ out))
        × Replaced (a ∷ p) replacement body out
  unfolding replace_loop
  replace_loop_lem zero [] result le = ([], ap some (sym (append-nil result)), end)
  replace_loop_lem (suc fuel) [] result le = ([], ap some (sym (append-nil result)), end)
  replace_loop_lem zero (c ∷ s) result le = absurd (omega arith)
  replace_loop_lem (suc fuel) (c ∷ s) result le =
      elim (Option-cases (strip_prefix (a ∷ p) (c ∷ s))) [
        | inl none' ↦
            let (out, e, r) = replace_loop_lem fuel s (result ++ (c ∷ [])) (omega arith) in
            (
              c ∷ out,
              rw (replace_loop, none') (e ∙ ap some (append_assoc result (c ∷ []) out)),
              miss c s out none' r,
            )
        | inr (rest, p') ↦
            let shorter = strip_prefix-length a p (c ∷ s) rest p' in
            let (out, e, r) =
              replace_loop_lem fuel rest (result ++ replacement) (omega (arith, shorter)) in
            (
              replacement ++ out,
              rw (replace_loop, p') (e ∙ ap some (append_assoc result replacement out)),
              hit (c ∷ s) rest out p' r,
            )
      ]

Replaced-same :
    (a : ℕ) (p replacement s : Text)
    → contains_pattern s (a ∷ p) ≡ false
    → Replaced (a ∷ p) replacement s s
Replaced-same a p replacement [] e = end
Replaced-same a p replacement (c ∷ s) e = elim (Option-cases (strip_prefix (a ∷ p) (c ∷ s))) [
  | inl none' ↦
      let tail : contains_pattern s (a ∷ p) ≡ false =
        elim (Bool-cases (contains_pattern s (a ∷ p))) [
          | inr f ↦ f
          | inl t ↦
              let (before, after, e') = (contains_pattern_iff s (a ∷ p)).0 t in
              let found : contains_pattern (c ∷ s) (a ∷ p) ≡ true =
                (contains_pattern_iff (c ∷ s) (a ∷ p)).1
                  (c ∷ before, after, ap (λ (t : Text). c ∷ t) e') in
              ground (arith, e, found)
        ] in
      miss c s s none' (Replaced-same a p replacement s tail)
  | inr (rest, p') ↦
      let found : contains_pattern (c ∷ s) (a ∷ p) ≡ true =
        (contains_pattern_iff (c ∷ s) (a ∷ p)).1
          ([], rest, strip_prefix-cut (a ∷ p) (c ∷ s) rest p') in
      absurd (ground (arith, e, found))
]

-- For a placeholder that is not empty the replacement of every body comes to an end, and its result
-- is the body read from the left with the secret put for the placeholder wherever it stands and
-- every other byte kept.
pub replace_placeholder_lem :
    (a : ℕ) (p body secret : Text)
    → (out : Text) × (replace_placeholder (a ∷ p) body secret ≡ some out)
      × Replaced (a ∷ p) secret body out
unfolding replace_placeholder contains_bytes
replace_placeholder_lem a p body secret = elim (Bool-cases (contains_pattern body (a ∷ p))) [
  | inl t ↦
      let (out, e, r) = replace_loop_lem a p secret (length body) body [] (omega arith) in
      (out, rw (replace_placeholder, contains_bytes, t) e, r)
  | inr f ↦
      (body, rw (replace_placeholder, contains_bytes, f) refl, Replaced-same a p secret body f)
]

-- The loop makes no way with an empty placeholder: on a body that is not empty no number of rounds
-- brings it to an end.
pub replace_loop-empty :
    (fuel c : ℕ) (body secret result : Text) → replace_loop fuel [] secret (c ∷ body) result ≡ none
unfolding replace_loop strip_prefix
replace_loop-empty zero c body secret result = refl
replace_loop-empty (suc fuel) c body secret result =
    replace_loop-empty fuel c body secret (result ++ secret)
