-- ===== src/Token/Authority/Laws.antt =====
-- What `split_host_port` returns.
use native.Mathlib.Decide.{ℕ_discrete as dec_eq}
use mathlib.Core.List.{append_assoc}
use icebreaker.Common.{
  split_first, Text, codes, any, ℕ, ◌<◌, ◌+◌, ◌*◌, ◌-◌, ◌^◌, ◌≡◌, ◌∙◌, refl, ◌≢◌, ap, false, none,
  some, [], ◌∷◌, ◌++◌, arith, ◌==◌, inl, inr, Option-cases,
}
use icebreaker.Token.Authority.{
  split_last, parse_digits, parse_u16, split_bracketed, split_plain, split_host_port,
}

tests :
    (split_host_port (codes "a.b:80") ≡ (codes "a.b", some 80))
    × (split_host_port (codes "a.b:+80") ≡ (codes "a.b", some 80))
    × (split_host_port (codes "a.b:65536") ≡ (codes "a.b:65536", none))
    × (split_host_port (codes "[::1]:8080") ≡ (codes "[::1]", some 8080))
    × (split_host_port (codes "[::1]x") ≡ (codes "[::1]", none))
    × (split_host_port (codes "::1:80") ≡ (codes "::1:80", none))
    × (split_host_port (codes "a:") ≡ (codes "a:", none))
unfolding split_host_port split_bracketed split_plain parse_u16 parse_digits
tests = (refl, refl, refl, refl, refl, refl, refl)

split_first-cut :
    (b : ℕ) (s before after : Text)
    → split_first b s ≡ some (before, after)
    → s ≡ before ++ b ∷ after
unfolding split_first
split_first-cut b [] before after h = cc
split_first-cut b (c ∷ s) before after h = elim (Option-cases (split_first b s)) [
  | inl e ↦ ground (arith, e)
  | inr ((x, y), e) ↦ ground (arith, e, split_first-cut b s x y)
]

split_last-cut :
    (b : ℕ) (s before after : Text)
    → split_last b s ≡ some (before, after)
    → s ≡ before ++ b ∷ after
unfolding split_last
split_last-cut b [] before after h = cc
split_last-cut b (c ∷ s) before after h = elim (Option-cases (split_last b s)) [
  | inl e ↦ ground (arith, e)
  | inr ((x, y), e) ↦ ground (arith, e, split_last-cut b s x y)
]

parse_digits-lt : (n : ℕ) (s : Text) (p : ℕ) → n < 2 ^ 16 → parse_digits n s ≡ some p → p < 2 ^ 16
unfolding parse_digits
parse_digits-lt n [] p h e = ground arith
parse_digits-lt n (c ∷ s) p h e = ground (arith, parse_digits-lt (n * 10 + (c - b'0')) s p)

parse_u16-lt : (s : Text) (p : ℕ) → parse_u16 s ≡ some p → p < 2 ^ 16
unfolding parse_u16
parse_u16-lt [] p e = cc
parse_u16-lt (c ∷ s) p e = ground (arith, parse_digits-lt 0 s p, parse_digits-lt 0 (c ∷ s) p)

bracketed-eq-some :
    (s host : Text) (port : ℕ)
    → split_bracketed (b'[' ∷ s) s ≡ (host, some port)
    → (digits : Text) × (b'[' ∷ s ≡ host ++ b':' ∷ digits) × (parse_u16 digits ≡ some port)
unfolding split_bracketed
bracketed-eq-some s host port h = elim (Option-cases (split_first b']' s)) [
  | inl e ↦ absurd (ground (arith, e))
  | inr ((inside, []), e) ↦ absurd (ground (arith, e))
  | inr ((inside, c ∷ after), e) ↦
      let parts : (host ≡ b'[' ∷ (inside ++ b']' ∷ []))
          × (c ≡ b':')
          × (parse_u16 after ≡ some port) =
        ground (arith, e) in
      (
        after,
        rw (parts.0, append_assoc inside (b']' ∷ []) (b':' ∷ after))
            (ap (λ (t : Text). b'[' ∷ t)
              (split_first-cut b']' s inside (c ∷ after) e
                ∙ ap (λ (d : ℕ). inside ++ b']' ∷ d ∷ after) parts.1)),
        parts.2,
      )
]

plain-eq-some :
    (s host : Text) (port : ℕ)
    → split_plain s ≡ (host, some port)
    → (digits : Text) × (s ≡ host ++ b':' ∷ digits) × (parse_u16 digits ≡ some port)
unfolding split_plain
plain-eq-some s host port h = elim (Option-cases (split_last b':' s)) [
  | inl e ↦ absurd (ground (arith, e))
  | inr ((before, digits), e) ↦
      (digits, ground (arith, e, split_last-cut b':' s before digits), ground (arith, e))
]

-- A port that is returned was written behind a colon that follows the host, and fits 16 bits.
pub split_host_port-eq-some :
    (authority host : Text) (port : ℕ)
    → split_host_port authority ≡ (host, some port)
    → (digits : Text) × (authority ≡ host ++ b':' ∷ digits)
      × (parse_u16 digits ≡ some port)
      × (port < 2 ^ 16)
unfolding split_host_port
split_host_port-eq-some [] host port h = absurd (ground arith)
split_host_port-eq-some (c ∷ s) host port h = elim (dec_eq c b'[') [
  | yes bracket ↦
      let (digits, cut, read) = bracketed-eq-some s host port (ground (arith, bracket)) in
      (digits, rw bracket cut, read, parse_u16-lt digits port read)
  | no plain ↦
      let (digits, cut, read) = plain-eq-some (c ∷ s) host port (ground arith) in
      (digits, cut, read, parse_u16-lt digits port read)
]

-- No byte of a text is `b`.
abbrev pub Lacks : ℕ → Text → Type 0
Lacks b s = any (λ c. c == b) s ≡ false

split_last-Lacks : (b : ℕ) (s : Text) → Lacks b s → split_last b s ≡ none
unfolding split_last
split_last-Lacks b [] h = refl
split_last-Lacks b (c ∷ s) h = ground (arith, split_last-Lacks b s)

split_last-join : (b : ℕ) (s t : Text) → Lacks b t → split_last b (s ++ b ∷ t) ≡ some (s, t)
unfolding split_last
split_last-join b [] t h = ground (arith, split_last-Lacks b t h)
split_last-join b (c ∷ s) t h = ground (arith, split_last-join b s t h)

parse_digits-Lacks : (n : ℕ) (s : Text) (p : ℕ) → parse_digits n s ≡ some p → Lacks b':' s
unfolding parse_digits
parse_digits-Lacks n [] p h = refl
parse_digits-Lacks n (c ∷ s) p h = ground (arith, parse_digits-Lacks (n * 10 + (c - b'0')) s p)

parse_u16-Lacks : (s : Text) (p : ℕ) → parse_u16 s ≡ some p → Lacks b':' s
unfolding parse_u16
parse_u16-Lacks [] p h = cc
parse_u16-Lacks (c ∷ s) p h =
    ground (arith, parse_digits-Lacks 0 s p, parse_digits-Lacks 0 (c ∷ s) p)

-- A host that is not empty, does not begin with `[` and has no colon comes back from
-- `host:port`, with the number that the digits stand for.
pub split_host_port-join :
    (c : ℕ) (host digits : Text) (port : ℕ)
    → c ≢ b'['
    → Lacks b':' (c ∷ host)
    → parse_u16 digits ≡ some port
    → split_host_port ((c ∷ host) ++ b':' ∷ digits) ≡ (c ∷ host, some port)
unfolding split_host_port split_plain
split_host_port-join c host digits port bare h read =
    ground (arith, split_last-join b':' (c ∷ host) digits (parse_u16-Lacks digits port read))

-- A host without a colon and with no bracket in front comes back whole, with no port.
pub split_host_port-bare :
    (c : ℕ) (host : Text)
    → c ≢ b'['
    → Lacks b':' (c ∷ host)
    → split_host_port (c ∷ host) ≡ (c ∷ host, none)
unfolding split_host_port split_plain
split_host_port-bare c host bare h = ground (arith, split_last-Lacks b':' (c ∷ host) h)
