-- ===== src/HostPolicy.antt =====
-- `HostValidationConfig` of crates/icebreaker-proxy/src/middleware/host_validation.rs: the static
-- policy on hosts. A set of hosts is a list, asked only whether some entry of it matches.
pub mod Laws
mod Tests
use icebreaker.Common.{
  Text, text_eq, any, is_empty, not, ℕ, ◌*◌, Bool, true, ◌&&◌, ◌||◌, Option, is_none, List, [], ◌∷◌,
  ◌++◌, ◌≡◌, if◌then◌else◌,
}
use icebreaker.Errors.{Result, ok, err, host_not_allowed}
use icebreaker.Token.Authority.{split_host_port}
use icebreaker.Token.Regex.{built, refused, RegexCrate}
use icebreaker.Token.Allowlist.{port_eq}

-- The body of `host_set_matches`'s loop.
unfoldable pub host_entry_matches : Text → Option ℕ → Text → Bool
host_entry_matches req_host req_port entry =
    let (entry_host, entry_port) = split_host_port entry in
    text_eq entry_host req_host && (is_none entry_port || port_eq entry_port req_port)

unfoldable pub host_set_matches : List Text → Text → Option ℕ → Bool
unfolding host_entry_matches
host_set_matches entries req_host req_port = any (host_entry_matches req_host req_port) entries

-- `HOST_PATTERN_REGEX_SIZE_LIMIT`
abbrev pub host_pattern_size_limit : ℕ
host_pattern_size_limit = 10 * 1024

-- What the crate `regex` documents of the patterns that the policy writes itself: `.*` without a
-- flag compiles and matches everywhere, `^$` compiles and matches the empty text alone.
pub record FixedPatterns (r : RegexCrate) : Type 0 where
  pub match_all : r.Regex
  pub match_none : r.Regex
  pub is_match-match_all : (s : Text) → r.is_match match_all s ≡ true
  pub is_match-match_none : (s : Text) → r.is_match match_none s ≡ is_empty s

module _ ⦃r : RegexCrate⦄ where
  pub record HostValidationConfig : Type 0 where
    pub allowed_hosts : List Text
    pub allowed_patterns : List r.Regex
    pub blocked_hosts : List Text
    pub blocked_patterns : List r.Regex

  unfoldable pub new : HostValidationConfig
  new = record {
    allowed_hosts = [];
    allowed_patterns = [];
    blocked_hosts = [];
    blocked_patterns = [];
  }

  unfoldable pub allow_host : Text → HostValidationConfig → HostValidationConfig
  allow_host host c = record c { allowed_hosts = host ∷ c.allowed_hosts }

  unfoldable pub allow_hosts : List Text → HostValidationConfig → HostValidationConfig
  unfolding allow_host
  allow_hosts [] c = c
  allow_hosts (host ∷ hosts) c = allow_hosts hosts (allow_host host c)

  unfoldable pub block_host : Text → HostValidationConfig → HostValidationConfig
  block_host host c = record c { blocked_hosts = host ∷ c.blocked_hosts }

  unfoldable pub validate : HostValidationConfig → Text → Result (Unit {0})
  unfolding host_set_matches
  validate c authority =
      let (req_host, req_port) = split_host_port authority in
      if host_set_matches c.blocked_hosts req_host req_port
        || any (λ p. r.is_match p req_host) c.blocked_patterns
      then err (host_not_allowed authority)
      else if host_set_matches c.allowed_hosts req_host req_port
          || any (λ p. r.is_match p req_host) c.allowed_patterns
      then ok tt
      else if not (is_empty c.allowed_hosts) || not (is_empty c.allowed_patterns)
      then err (host_not_allowed authority)
      else ok tt

  module _ ⦃p : FixedPatterns r⦄ where
    -- `match_all_regex`
    unfoldable pub allow_all : HostValidationConfig
    allow_all = record {
      allowed_hosts = [];
      allowed_patterns = p.match_all ∷ [];
      blocked_hosts = [];
      blocked_patterns = [];
    }

    -- A pattern that does not compile is replaced by `match_none_regex`.
    unfoldable pub build_or_none : Text → r.Regex
    build_or_none pattern = elim (r.build pattern host_pattern_size_limit) [
      | built re ↦ re
      | refused message ↦ p.match_none
    ]

    unfoldable pub allow_pattern : Text → HostValidationConfig → HostValidationConfig
    unfolding build_or_none
    allow_pattern pattern c = record c {
      allowed_patterns = c.allowed_patterns ++ (build_or_none pattern ∷ []);
    }

    unfoldable pub block_pattern : Text → HostValidationConfig → HostValidationConfig
    unfolding build_or_none
    block_pattern pattern c = record c {
      blocked_patterns = c.blocked_patterns ++ (build_or_none pattern ∷ []);
    }
