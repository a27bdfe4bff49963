-- ===== src/Body/Pattern.antt =====
-- `contains_pattern` of crates/icebreaker-proxy/src/body/overlap_buffer.rs, and what it decides.
use mathlib.Core.List.{tail-eq_of_cons-eq}
use icebreaker.Common.{
  Text, text_eq, text_eq_iff, length, take, drop, any, is_empty, take-append-drop, length-append,
  text_eq_refl, sym, ap, ◌∙◌, ℕ, suc, ◌≤◌, ◌<◌, ◌≡◌, ◌↔◌, inl, inr, refl, Bool, true, ◌||◌, List,
  [], ◌∷◌, ◌++◌, arith, ltb, leb, if◌then◌else◌, Bool-cases,
}

-- `haystack.windows(n)` for a positive `n`
unfoldable pub windows : ℕ → Text → List Text
windows n [] = []
windows n (c ∷ s) =
    let rest = windows n s in if leb n (length (c ∷ s)) then take n (c ∷ s) ∷ rest else []

unfoldable pub contains_pattern : Text → Text → Bool
contains_pattern haystack needle =
    if is_empty needle || ltb (length haystack) (length needle)
    then is_empty needle
    else any (λ window. text_eq window needle) (windows (length needle) haystack)

-- `p` stands somewhere in `s`.
abbrev pub Occurs : Text → Text → Type 0
Occurs p s = (before : Text) × (after : Text) × (s ≡ before ++ (p ++ after))

take-append : (p q : Text) → take (length p) (p ++ q) ≡ p
take-append [] q = refl
take-append (c ∷ p) q = rw (take-append p q)

Occurs-cons : (p : Text) (c : ℕ) (s : Text) → Occurs p s → Occurs p (c ∷ s)
Occurs-cons p c s (before, after, e) = (c ∷ before, after, ap (λ (t : Text). c ∷ t) e)

pub Occurs-length-le : (p s : Text) → Occurs p s → length p ≤ length s
Occurs-length-le p s (before, after, e) =
    rw e (omega (arith, length-append before (p ++ after), length-append p after))

Occurs-of_take : (p s : Text) → take (length p) s ≡ p → Occurs p s
Occurs-of_take p s e = (
  [],
  drop (length p) s,
  sym (take-append-drop (length p) s) ∙ ap (λ (t : Text). t ++ drop (length p) s) e,
)

windows-Occurs :
    (p s : Text) → any (λ window. text_eq window p) (windows (length p) s) ≡ true → Occurs p s
unfolding windows
windows-Occurs p [] h = cc
windows-Occurs p (c ∷ s) h = elim (Bool-cases (text_eq (take (length p) (c ∷ s)) p)) [
  | inl here ↦ Occurs-of_take p (c ∷ s) ((text_eq_iff _ _).0 here)
  | inr later ↦ Occurs-cons p c s (windows-Occurs p s (ground arith))
]

Occurs-windows :
    (p s before after : Text)
    → s ≡ before ++ (p ++ after)
    → 0 < length p
    → any (λ window. text_eq window p) (windows (length p) s) ≡ true
unfolding windows
Occurs-windows p [] before after e pos =
    absurd (omega (arith, Occurs-length-le p [] (before, after, e)))
Occurs-windows p (c ∷ s) [] after e pos =
    let fits : length p ≤ suc (length s) = Occurs-length-le p (c ∷ s) ([], after, e) in
    let first : text_eq (take (length p) (c ∷ s)) p ≡ true =
      rw e (rw take-append (text_eq_refl p)) in
    ground arith
Occurs-windows p (c ∷ s) (b ∷ before) after e pos =
    let fits : length p ≤ suc (length s) = Occurs-length-le p (c ∷ s) (b ∷ before, after, e) in
    let rest = Occurs-windows p s before after (tail-eq_of_cons-eq e) pos in ground arith

-- The search finds exactly the patterns that occur.
pub contains_pattern_iff : (s p : Text) → (contains_pattern s p ≡ true) ↔ Occurs p s
unfolding contains_pattern
contains_pattern_iff s [] = (λ _. ([], s, refl), λ _. refl)
contains_pattern_iff s (c ∷ p) = (found, missed)
  where
    found : contains_pattern s (c ∷ p) ≡ true → Occurs (c ∷ p) s
    found h = windows-Occurs (c ∷ p) s (ground arith)

    missed : Occurs (c ∷ p) s → contains_pattern s (c ∷ p) ≡ true
    missed (before, after, e) =
        let fits = Occurs-length-le (c ∷ p) s (before, after, e) in
        let seen = Occurs-windows (c ∷ p) s before after e (omega arith) in ground arith
