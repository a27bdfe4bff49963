-- ===== src/Token/Allowlist/Laws.antt =====
-- What the allowlists of a token let through.
use mathlib.Core.Bool.{false≢true}
use icebreaker.Common.{
  Text, text_eq, text_eq_iff, text_eq_refl, any, any_iff, Any, Any-map, map, codes, ℕ, ◌≡◌, ◌≢◌,
  ◌↔◌, ◌⊎◌, inl, inr, refl, sym, ◌∙◌, Bool, true, false, Option, none, some, List, [], ◌∷◌, ◌++◌,
  arith, Bool-cases, if◌then◌else◌, is_empty, is_none, ◌&&◌,
}
use icebreaker.Errors.{TokenizerError, ◌>>=◌, Result, ok, err, host_not_allowed, path_not_allowed}
use icebreaker.Token.Authority.{split_host_port, parse_u16}
use icebreaker.Token.Authority.Laws.{Lacks, split_host_port-join, split_host_port-bare}
use icebreaker.Token.Regex.{
  or_config_error, RegexCrate, Build, built, refused, compile_anchored_regex, pattern_size_limit,
}
use icebreaker.Token.Payload.{TokenPayload}
use icebreaker.Token.Allowlist.{
  port_matches, entry_matches, pattern_matches, validate_host, validate_method, validate_path,
  eq_ignore_ascii_case, to_ascii_lowercase,
}

-- An entry names the host of the request, and either no port or the port of the request.
abbrev pub EntryGrants : Text → Text → Type 0
EntryGrants host entry =
    ((split_host_port entry).0 ≡ (split_host_port host).0)
    × (((split_host_port entry).1 ≡ none) ⊎ ((split_host_port entry).1 ≡ (split_host_port host).1))

port_matches_iff : (p q : Option ℕ) → (port_matches p q ≡ true) ↔ ((p ≡ none) ⊎ (p ≡ q))
port_matches_iff none q = ground arith
port_matches_iff (some p) none = ground arith
port_matches_iff (some p) (some q) = ground arith

entry_matches_iff :
    (host entry : Text)
    → (entry_matches entry (split_host_port host) ≡ true) ↔ EntryGrants host entry
unfolding entry_matches
entry_matches_iff host entry =
    let (eh, ep) = split_host_port entry in
    let (rh, rp) = split_host_port host in
    let (same, equal) = text_eq_iff eh rh in
    let (fits, fit) = port_matches_iff ep rp in
    ((λ e. (same (ground arith), fits (ground arith))), λ (p, q). rw (equal p) (fit q))

some_inj : (p q : Text) → some p ≡ some q → p ≡ q
some_inj p q e = ground arith

unconstrained :
    (payload : TokenPayload)
    → (is_empty payload.allowed_paths && is_none payload.allowed_path_pattern) ≡ true
    → (payload.allowed_paths ≡ []) × (payload.allowed_path_pattern ≡ none)
unconstrained payload h = ground arith

constrained :
    (payload : TokenPayload)
    → (is_empty payload.allowed_paths && is_none payload.allowed_path_pattern) ≡ false
    → ¬ ((payload.allowed_paths ≡ []) × (payload.allowed_path_pattern ≡ none))
constrained payload h (a, b) = ground arith

ok_inj : {a b : Bool} → ok a ≡ ok b → a ≡ b
ok_inj e = ground arith

module _ ⦃r : RegexCrate⦄ where
  -- The pattern compiles, and the text matches it.
  abbrev pub PatternGrants : Option Text → Text → Type 0
  PatternGrants pattern s =
      (p : Text) × (re : r.Regex) × (pattern ≡ some p)
      × (compile_anchored_regex p pattern_size_limit ≡ built re)
      × (r.is_match re s ≡ true)

  build_cases :
      (what : Text) (b : Build r.Regex) (s : Text)
      → (or_config_error what b >>= λ re. ok (r.is_match re s)) ≡ ok true
      → (re : r.Regex) × (b ≡ built re) × (r.is_match re s ≡ true)
  build_cases what (built re) s e = (re, refl, ok_inj e)
  build_cases what (refused message) s e = absurd (ground arith)

  pattern_matches_iff :
      (what : Text) (pattern : Option Text) (s : Text)
      → (pattern_matches what pattern s ≡ ok true) ↔ PatternGrants pattern s
  unfolding pattern_matches
  pattern_matches_iff what none s =
      ((λ e. absurd (ground arith)), λ (p, re, e, _, _). absurd (ground arith))
  pattern_matches_iff what (some p) s = (
    λ e.
        let (re, compiled, matched) =
          build_cases what (compile_anchored_regex p pattern_size_limit) s e in
        (p, re, refl, compiled, matched),
    λ (q, re, e, compiled, matched). rw (some_inj p q e, compiled, matched),
  )

  -- What `validate_host` and `validate_path` make of the pattern's answer.
  abbrev verdict : TokenizerError → Result Bool → Result (Unit {0})
  verdict e m = m >>= λ matched. if matched then ok tt else err e

  verdict_iff : (e : TokenizerError) (m : Result Bool) → (verdict e m ≡ ok tt) ↔ (m ≡ ok true)
  verdict_iff e (ok true) = ((λ _. refl), λ _. refl)
  verdict_iff e (ok false) = ((λ h. absurd (ground arith)), λ h. absurd (ground arith))
  verdict_iff e (err x) = ((λ h. absurd (ground arith)), λ h. absurd (ground arith))

  -- A host is let through exactly if an entry of the list names it, with no port or with the
  -- port of the request, or if the token's pattern compiles and matches the host without its port.
  pub validate_host-eq-ok_iff :
      (payload : TokenPayload) (host : Text)
      → (validate_host payload host ≡ ok tt) ↔ (
          Any (EntryGrants host) payload.allowed_hosts
          ⊎ PatternGrants payload.allowed_host_pattern (split_host_port host).0)
  unfolding validate_host
  validate_host-eq-ok_iff payload host =
      let (listed, lists) =
        any_iff (EntryGrants host) (λ entry. entry_matches entry (split_host_port host))
          (entry_matches_iff host) payload.allowed_hosts in
      let matches =
        pattern_matches_iff (codes "invalid host pattern: ") payload.allowed_host_pattern
          (split_host_port host).0 in
      let verdicts = verdict_iff (host_not_allowed host) (
        pattern_matches (codes "invalid host pattern: ") payload.allowed_host_pattern
          (split_host_port host).0) in
      elim (Bool-cases
        (any (λ entry. entry_matches entry (split_host_port host)) payload.allowed_hosts)) [
          | inl hit ↦ rw hit ((λ _. inl (listed hit)), λ _. refl)
          | inr miss ↦ rw miss (
            (λ e. inr (matches.0 (verdicts.0 e))),
            λ g. elim g [
              | inl a ↦ absurd (false≢true (sym miss ∙ lists a))
              | inr b ↦ verdicts.1 (matches.1 b)
            ],
          )
        ]

  text_any_iff :
      (s : Text) (ps : List Text) → (any (λ p. text_eq p s) ps ≡ true) ↔ Any (λ p. p ≡ s) ps
  text_any_iff s ps = any_iff (λ p. p ≡ s) (λ p. text_eq p s) (λ p. text_eq_iff p s) ps

  -- A path is let through exactly if the token has neither paths nor a pattern, or lists the path,
  -- or has a pattern that compiles and matches it.
  pub validate_path-eq-ok_iff :
      (payload : TokenPayload) (path : Text)
      → (validate_path payload path ≡ ok tt) ↔ (
          (payload.allowed_paths ≡ []) × (payload.allowed_path_pattern ≡ none)
          ⊎ (Any (λ p. p ≡ path) payload.allowed_paths
              ⊎ PatternGrants payload.allowed_path_pattern path))
  unfolding validate_path
  validate_path-eq-ok_iff payload path =
      let (listed, lists) = text_any_iff path payload.allowed_paths in
      let what = codes "invalid path pattern: " in
      let matches = pattern_matches_iff what payload.allowed_path_pattern path in
      let verdicts =
        verdict_iff (path_not_allowed path)
          (pattern_matches what payload.allowed_path_pattern path) in
      elim (Bool-cases (is_empty payload.allowed_paths && is_none payload.allowed_path_pattern)) [
        | inl open_to_all ↦
            rw open_to_all ((λ _. inl (unconstrained payload open_to_all)), λ _. refl)
        | inr limited ↦ elim (Bool-cases (any (λ p. text_eq p path) payload.allowed_paths)) [
          | inl hit ↦ rw (limited, hit) ((λ _. inr (inl (listed hit))), λ _. refl)
          | inr miss ↦
              rw (limited, miss)
                (
                  (λ e. inr (inr (matches.0 (verdicts.0 e)))),
                  λ g. elim g [
                    | inl a ↦ absurd (constrained payload limited a)
                    | inr (inl a) ↦ absurd (false≢true (sym miss ∙ lists a))
                    | inr (inr b) ↦ verdicts.1 (matches.1 b)
                  ],
                )
        ]
      ]

-- An entry without a port grants its host, with a port or without.
grants_any_port :
    (c : ℕ) (host asked : Text) (port : Option ℕ)
    → c ≢ b'['
    → Lacks b':' (c ∷ host)
    → split_host_port asked ≡ (c ∷ host, port)
    → (entry : Text) → entry ≡ c ∷ host
    → EntryGrants asked entry
grants_any_port c host asked port bare plain e entry same =
    rw (same, split_host_port-bare c host bare plain, e) (refl, inl refl)

-- An entry without a port lets its host through on every port, and without one.
pub validate_host-bare_entry :
    ⦃r : RegexCrate⦄ (payload : TokenPayload) (c : ℕ) (host digits : Text) (port : ℕ)
    → c ≢ b'['
    → Lacks b':' (c ∷ host)
    → parse_u16 digits ≡ some port
    → Any (λ entry. entry ≡ c ∷ host) payload.allowed_hosts
    → (validate_host payload (c ∷ host) ≡ ok tt)
      × (validate_host payload ((c ∷ host) ++ b':' ∷ digits) ≡ ok tt)
validate_host-bare_entry payload c host digits port bare plain read listed = (
  (validate_host-eq-ok_iff payload (c ∷ host)).1 (
      inl (
        Any-map
          (grants_any_port c host (c ∷ host) none bare plain
            (split_host_port-bare c host bare plain))
          payload.allowed_hosts listed)),
  (validate_host-eq-ok_iff payload ((c ∷ host) ++ b':' ∷ digits)).1 (
      inl (
        Any-map
          (grants_any_port c host ((c ∷ host) ++ b':' ∷ digits) (some port) bare plain
            (split_host_port-join c host digits port bare plain read))
          payload.allowed_hosts listed)),
)

-- A list of the single entry `host:port`, and no pattern, lets that host through on that port,
-- however its number is written, and on no other port, nor without one.
pub validate_host-one_port :
    ⦃r : RegexCrate⦄ (payload : TokenPayload) (c : ℕ) (host digits wanted : Text) (port asked : ℕ)
    → c ≢ b'['
    → Lacks b':' (c ∷ host)
    → parse_u16 digits ≡ some port
    → parse_u16 wanted ≡ some asked
    → payload.allowed_hosts ≡ ((c ∷ host) ++ b':' ∷ digits) ∷ []
    → payload.allowed_host_pattern ≡ none
    → ((validate_host payload ((c ∷ host) ++ b':' ∷ wanted) ≡ ok tt) ↔ (asked ≡ port))
      × (validate_host payload (c ∷ host) ≡ err (host_not_allowed (c ∷ host)))
unfolding validate_host entry_matches pattern_matches
validate_host-one_port payload c host digits wanted port asked bare plain read read' listed none' =
    rw
      (
        listed,
        none',
        split_host_port-join c host digits port bare plain read,
        split_host_port-join c host wanted asked bare plain read',
        split_host_port-bare c host bare plain,
        text_eq_refl (c ∷ host),
      )
      ((ground arith, ground arith), refl)

eq_case :
    (m method other : Text)
    → map to_ascii_lowercase method ≡ map to_ascii_lowercase other
    → eq_ignore_ascii_case m method ≡ eq_ignore_ascii_case m other
unfolding eq_ignore_ascii_case
eq_case m method other same = rw same

any_congr : (p q : Text → Bool) → ((m : Text) → p m ≡ q m) → (ms : List Text) → any p ms ≡ any q ms
any_congr p q h [] = refl
any_congr p q h (m ∷ ms) = rw (h m, any_congr p q h ms)

-- The method test sees no difference between methods that differ in ASCII case alone.
pub validate_method-ignore_case :
    (payload : TokenPayload) (method other : Text)
    → map to_ascii_lowercase method ≡ map to_ascii_lowercase other
    → (validate_method payload method ≡ ok tt) ↔ (validate_method payload other ≡ ok tt)
unfolding validate_method
validate_method-ignore_case payload method other same =
    let same_any =
      any_congr (λ m. eq_ignore_ascii_case m method) (λ m. eq_ignore_ascii_case m other)
        (λ m. eq_case m method other same) payload.allowed_methods in
    (ground arith, ground arith)
