-- ===== src/HostPolicy/Tests.antt =====
-- Runs of the host policy, and the theorems about it at concrete inputs.
use icebreaker.Common.{
  Text, codes, text_eq, is_empty, ◌≡◌, ◌==◌, ◌↔◌, ◌⊎◌, refl, Bool, true, [], ◌∷◌, if◌then◌else◌,
}
use icebreaker.Errors.{ok, err, host_not_allowed}
use icebreaker.Token.Authority.{
  split_host_port, split_bracketed, split_plain, parse_u16, parse_digits,
}
use icebreaker.Token.Regex.{RegexCrate, Build, built, refused}
use icebreaker.HostPolicy.{
  FixedPatterns, HostValidationConfig, new, allow_host, block_host, allow_all, allow_pattern,
  block_pattern, build_or_none, validate, host_set_matches, host_entry_matches,
}
use icebreaker.HostPolicy.Laws.{Covers, validate-eq-ok_iff, validate-allow_pattern}

-- A stand-in for the crate: a "regex" is a test, and a pattern compiles to the test for its text
-- unless it begins with an opening parenthesis.
abbrev build_literal : Text → Build (Text → Bool)
build_literal [] = built is_empty
build_literal (c ∷ p) =
    if c == b'(' then refused (codes "unclosed group") else built (text_eq (c ∷ p))

instance abbrev literal_regex : RegexCrate
literal_regex = record {
  Regex = Text → Bool;
  build = λ p limit. build_literal p;
  is_match = λ p s. p s;
}

instance abbrev literal_patterns : FixedPatterns literal_regex
literal_patterns = record {
  match_all = λ s. true;
  match_none = λ s. is_empty s;
  is_match-match_all = λ s. refl;
  is_match-match_none = λ s. refl;
}

abbrev policy : HostValidationConfig
policy = block_host (codes "b.c:80") (allow_host (codes "b.c") (allow_pattern (codes "d.e") new))

host_policy : Unit {0}
unfolding split_host_port split_bracketed split_plain parse_u16 parse_digits text_eq allow_host
    block_host allow_all allow_pattern block_pattern build_or_none validate host_set_matches
    host_entry_matches new
host_policy = tt

policy_tests :
    (validate policy (codes "b.c:443") ≡ ok tt)
    × (validate policy (codes "b.c:80") ≡ err (host_not_allowed (codes "b.c:80")))
    × (validate policy (codes "d.e:1") ≡ ok tt)
    × (validate policy (codes "e.f") ≡ err (host_not_allowed (codes "e.f")))
    × (validate new (codes "e.f") ≡ ok tt)
    × (validate allow_all (codes "e.f") ≡ ok tt)
unfolding host_policy
policy_tests = (refl, refl, refl, refl, refl, refl)

validate-eq-ok_iff_example : (validate policy (codes "b.c:443") ≡ ok tt) ↔ (
    ¬ Covers policy.blocked_hosts policy.blocked_patterns (codes "b.c:443")
    × (Covers policy.allowed_hosts policy.allowed_patterns (codes "b.c:443")
        ⊎ ((policy.allowed_hosts ≡ []) × (policy.allowed_patterns ≡ []))))
validate-eq-ok_iff_example = validate-eq-ok_iff policy (codes "b.c:443")

validate-allow_pattern_example :
    (validate (allow_pattern (codes "(a") new) (codes ":80") ≡ ok tt)
    ↔ ((split_host_port (codes ":80")).0 ≡ [])
validate-allow_pattern_example =
    validate-allow_pattern (codes "(a") (codes "unclosed group") (codes ":80") refl
