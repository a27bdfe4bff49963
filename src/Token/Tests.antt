-- ===== src/Token/Tests.antt =====
-- Runs of the token checks, and the theorems about them at concrete inputs.
use icebreaker.Common.{
  Text, Any, codes, text_eq, ℕ, ◌+◌, ◌<◌, ◌≤◌, ◌≡◌, ◌≢◌, ◌↔◌, ◌⊎◌, refl, none, some, [], ◌∷◌, arith,
}
use icebreaker.Errors.{ok, err, host_not_allowed}
use icebreaker.Token.Config as Config
use icebreaker.Token.Config.Laws.{Flat, count_bodies, validate-eq-none_iff}
use icebreaker.Token.Config.{Processors, cons, nil, inject_body, inject, no_auth}
use icebreaker.Token.Authority.{
  split_host_port, split_bracketed, split_plain, parse_u16, parse_digits,
}
use icebreaker.Token.Authority.Laws.{split_host_port-join}
use icebreaker.Token.Regex.{RegexCrate, built, compile_anchored_regex, anchor_pattern}
use icebreaker.Token.Payload.{TokenPayload}
use icebreaker.Token.Expiration.{valid, expired, future_dated, check_expiration}
use icebreaker.Token.Expiration.Laws.{skew, check_expiration_iff}
use icebreaker.Token.Allowlist.{
  validate_host, validate_method, validate_path, to_ascii_lowercase, eq_ignore_ascii_case,
  entry_matches, pattern_matches,
}
use icebreaker.Token.Allowlist.Laws.{
  EntryGrants, PatternGrants, validate_host-eq-ok_iff, validate_path-eq-ok_iff,
}

-- A stand-in for the crate: a "regex" is its anchored text and matches what stands in its group.
instance abbrev literal_regex : RegexCrate
literal_regex = record {
  Regex = Text;
  build = λ p limit. built p;
  is_match = λ p s. text_eq p (anchor_pattern s);
}

abbrev payload : TokenPayload
payload = record {
  secret = codes "sk-1";
  processor = inject (record { header_name = codes "authorization"; prefix = none; suffix = none });
  auth = no_auth;
  allowed_hosts = codes "a.b" ∷ codes "c.d:80" ∷ [];
  allowed_host_pattern = some (codes "e.f");
  upstream_scheme = none;
  expires_at = some 1_000;
  metadata = none;
  oauth = none;
  allowed_methods = codes "get" ∷ [];
  allowed_paths = codes "/v1" ∷ [];
  allowed_path_pattern = none;
  replay_protection = none;
}

abbrev pinned : TokenPayload
pinned = record payload { allowed_hosts = codes "c.d:80" ∷ []; allowed_host_pattern = none }

token : Unit {0}
unfolding split_host_port split_bracketed split_plain parse_u16 parse_digits validate_host
    validate_method validate_path to_ascii_lowercase eq_ignore_ascii_case entry_matches
    pattern_matches compile_anchored_regex anchor_pattern text_eq check_expiration
token = tt

host_tests :
    (validate_host payload (codes "a.b:9") ≡ ok tt)
    × (validate_host payload (codes "c.d:80") ≡ ok tt)
    × (validate_host payload (codes "c.d") ≡ err (host_not_allowed (codes "c.d")))
    × (validate_host payload (codes "e.f:1") ≡ ok tt)
    × (validate_host payload (codes "x.a.b") ≡ err (host_not_allowed (codes "x.a.b")))
    × (validate_method payload (codes "GET") ≡ ok tt)
    × (validate_path payload (codes "/v1") ≡ ok tt)
unfolding token
host_tests = (refl, refl, refl, refl, refl, refl, refl)

expiration_tests :
    (check_expiration (skew 30 300) (some 1_000) 1_030 ≡ valid)
    × (check_expiration (skew 30 300) (some 1_000) 1_031 ≡ expired)
    × (check_expiration (skew 30 300) (some 1_000) 699 ≡ future_dated 1)
unfolding token
expiration_tests = (refl, refl, refl)

split_host_port-join_example : split_host_port (codes "a.b:+80") ≡ (codes "a.b", some 80)
unfolding token
split_host_port-join_example =
    split_host_port-join b'a' (codes ".b") (codes "+80") 80 (omega arith) refl refl

check_expiration_iff_example :
    ((check_expiration (skew 30 300) (some 1_000) 900 ≡ valid)
      ↔ ((1_000 ≤ 900 + 300) × (900 ≤ 1_000 + 30)))
    × ((check_expiration (skew 30 300) (some 1_000) 900 ≡ expired)
        ↔ ((1_000 ≤ 900 + 300) × (1_000 + 30 < 900)))
    × ((check_expiration (skew 30 300) (some 1_000) 900 ≡ future_dated 7)
        ↔ ((900 + 300 < 1_000) × (◌≡◌ {A = ℕ} 1_000 (900 + 300 + 7))))
check_expiration_iff_example = check_expiration_iff 30 300 1_000 900 7 (omega arith) (omega arith)

validate_host-eq-ok_iff_example : (validate_host payload (codes "a.b:9") ≡ ok tt) ↔ (
    Any (EntryGrants (codes "a.b:9")) payload.allowed_hosts
    ⊎ PatternGrants payload.allowed_host_pattern (split_host_port (codes "a.b:9")).0)
validate_host-eq-ok_iff_example = validate_host-eq-ok_iff payload (codes "a.b:9")

validate_path-eq-ok_iff_example : (validate_path payload (codes "/v1") ≡ ok tt) ↔ (
    (payload.allowed_paths ≡ []) × (payload.allowed_path_pattern ≡ none)
    ⊎ (Any (λ p. p ≡ codes "/v1") payload.allowed_paths
        ⊎ PatternGrants payload.allowed_path_pattern (codes "/v1")))
validate_path-eq-ok_iff_example = validate_path-eq-ok_iff payload (codes "/v1")

abbrev two_processors : Processors
two_processors = cons payload.processor (cons (inject_body (codes "@")) nil)

validate-eq-none_iff_example :
    (Config.validate two_processors ≡ none)
    ↔ ((two_processors ≢ nil) × Flat two_processors × (count_bodies two_processors ≤ 1))
validate-eq-none_iff_example = validate-eq-none_iff two_processors
