-- ===== src/HostPolicy/Laws.antt =====
-- What the static host policy lets through.
use icebreaker.Common.{
  Text, text_eq_iff, any, any_iff, Any, ℕ, ◌≡◌, ◌≢◌, ◌↔◌, ◌⊎◌, refl, true, ◌||◌, Option, none, some,
  List, [], ◌∷◌, ◌++◌, arith,
}
use icebreaker.Errors.{ok}
use icebreaker.Token.Authority.{split_host_port}
use icebreaker.Token.Regex.{refused, RegexCrate}
use icebreaker.Token.Allowlist.{port_eq}
use icebreaker.Token.Allowlist.Laws.{EntryGrants}
use icebreaker.HostPolicy.{
  host_entry_matches, host_set_matches, host_pattern_size_limit, FixedPatterns,
  HostValidationConfig, new, validate, build_or_none, allow_pattern, block_pattern,
}

port_eq_iff : (p q : Option ℕ) → (port_eq p q ≡ true) ↔ (p ≡ q)
port_eq_iff none none = ground arith
port_eq_iff none (some q) = ground arith
port_eq_iff (some p) none = ground arith
port_eq_iff (some p) (some q) = ground arith

host_entry_matches_iff :
    (authority entry : Text)
    → (host_entry_matches (split_host_port authority).0 (split_host_port authority).1 entry ≡ true)
      ↔ EntryGrants authority entry
unfolding host_entry_matches
host_entry_matches_iff authority entry =
    let (eh, ep) = split_host_port entry in
    let (rh, rp) = split_host_port authority in ground (arith, text_eq_iff eh rh, port_eq_iff ep rp)

host_set_matches_iff :
    (authority : Text) (entries : List Text)
    → (host_set_matches entries (split_host_port authority).0 (split_host_port authority).1 ≡ true)
      ↔ Any (EntryGrants authority) entries
unfolding host_set_matches
host_set_matches_iff authority entries =
    let (host, port) = split_host_port authority in
    any_iff (EntryGrants authority) (host_entry_matches host port)
      (host_entry_matches_iff authority) entries

module _ ⦃r : RegexCrate⦄ where
  -- An entry names the authority's host, and no port or the authority's, or a pattern matches the
  -- host.
  abbrev pub Covers : List Text → List r.Regex → Text → Type 0
  Covers hosts patterns authority =
      Any (EntryGrants authority) hosts
      ⊎ Any (λ (p : r.Regex). r.is_match p (split_host_port authority).0 ≡ true) patterns

  patterns_iff :
      (s : Text) (patterns : List r.Regex)
      → (any (λ p. r.is_match p s) patterns ≡ true)
        ↔ Any (λ (p : r.Regex). r.is_match p s ≡ true) patterns
  patterns_iff s patterns =
      any_iff (λ p. r.is_match p s ≡ true) (λ p. r.is_match p s) (λ p. ((λ e. e), λ e. e)) patterns

  -- An authority is let through exactly if the blocklist does not cover it, and the allowlist
  -- covers it or is empty.
  pub validate-eq-ok_iff :
      (c : HostValidationConfig) (authority : Text)
      → (validate c authority ≡ ok tt) ↔ (
          ¬ Covers c.blocked_hosts c.blocked_patterns authority
          × (Covers c.allowed_hosts c.allowed_patterns authority
              ⊎ ((c.allowed_hosts ≡ []) × (c.allowed_patterns ≡ []))))
  unfolding validate
  validate-eq-ok_iff c authority =
      let (host, port) = split_host_port authority in
      ground (
        arith,
        host_set_matches_iff authority c.blocked_hosts,
        host_set_matches_iff authority c.allowed_hosts,
        patterns_iff host c.blocked_patterns,
        patterns_iff host c.allowed_patterns,
      )

  any_append_one :
      (s : Text) (patterns : List r.Regex) (p : r.Regex)
      → any (λ q. r.is_match q s) (patterns ++ (p ∷ []))
        ≡ (any (λ q. r.is_match q s) patterns || r.is_match p s)
  any_append_one s [] p = ground arith
  any_append_one s (q ∷ patterns) p = rw (any_append_one s patterns p) (ground arith)

  module _ ⦃p : FixedPatterns r⦄ where
    none_of_refused :
        (pattern message : Text)
        → r.build pattern host_pattern_size_limit ≡ refused message
        → build_or_none pattern ≡ p.match_none
    unfolding build_or_none
    none_of_refused pattern message e = rw (build_or_none, e) refl

    -- A policy whose one allow pattern does not compile lets exactly the authorities with an empty
    -- host through.
    pub validate-allow_pattern :
        (pattern message authority : Text)
        → r.build pattern host_pattern_size_limit ≡ refused message
        → (validate (allow_pattern pattern new) authority ≡ ok tt)
          ↔ ((split_host_port authority).0 ≡ [])
    unfolding validate allow_pattern new host_set_matches
    validate-allow_pattern pattern message authority e =
        let (host, port) = split_host_port authority in
        rw (none_of_refused pattern message e, p.is_match-match_none host) (ground arith)

    -- Blocking a pattern that does not compile changes no answer on an authority whose host is not
    -- empty.
    pub validate-block_pattern :
        (c : HostValidationConfig) (pattern message authority : Text)
        → r.build pattern host_pattern_size_limit ≡ refused message
        → (split_host_port authority).0 ≢ []
        → validate (block_pattern pattern c) authority ≡ validate c authority
    unfolding validate block_pattern
    validate-block_pattern c pattern message authority e h =
        let (host, port) = split_host_port authority in
        rw
          (
            none_of_refused pattern message e,
            any_append_one host c.blocked_patterns p.match_none,
            p.is_match-match_none host,
          )
          (ground arith)
