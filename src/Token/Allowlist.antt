-- ===== src/Token/Allowlist.antt =====
-- `validate_host`, `validate_method` and `validate_path` of crates/icebreaker-common/src/token.rs.
pub mod Laws
use icebreaker.Common.{
  Text, codes, text_eq, any, map, is_empty, ℕ, ◌+◌, Bool, true, false, Option, none, some, is_none,
  [], ◌∷◌, ◌&&◌, ◌||◌, leb, ◌==◌, if◌then◌else◌,
}
use icebreaker.Errors.{
  Result, ok, err, host_not_allowed, method_not_allowed, path_not_allowed, ◌>>=◌,
}
use icebreaker.Token.Authority.{split_host_port}
use icebreaker.Token.Regex.{RegexCrate, compile_anchored_regex, or_config_error, pattern_size_limit}
use icebreaker.Token.Payload.{TokenPayload}

abbrev pub port_eq : Option ℕ → Option ℕ → Bool
port_eq none none = true
port_eq (some p) (some q) = p == q
port_eq _ _ = false

-- The `match entry_port` of the loop.
abbrev pub port_matches : Option ℕ → Option ℕ → Bool
port_matches none req_port = true
port_matches (some p) req_port = port_eq (some p) req_port

-- One round of the loop over the allowed hosts: whether the entry lets the request through.
unfoldable pub entry_matches : Text → Text × Option ℕ → Bool
entry_matches entry (req_host, req_port) =
    let (entry_host, entry_port) = split_host_port entry in
    text_eq entry_host req_host && port_matches entry_port req_port

-- `u8::to_ascii_lowercase`, and `str::eq_ignore_ascii_case`
unfoldable pub to_ascii_lowercase : ℕ → ℕ
to_ascii_lowercase c = if leb b'A' c && leb c b'Z' then c + 32 else c

unfoldable pub eq_ignore_ascii_case : Text → Text → Bool
unfolding to_ascii_lowercase
eq_ignore_ascii_case s t = text_eq (map to_ascii_lowercase s) (map to_ascii_lowercase t)

unfoldable pub validate_method : TokenPayload → Text → Result (Unit {0})
unfolding eq_ignore_ascii_case
validate_method payload method =
    if is_empty payload.allowed_methods
      || any (λ m. eq_ignore_ascii_case m method) payload.allowed_methods
    then ok tt
    else err (method_not_allowed method)

module _ ⦃r : RegexCrate⦄ where
  -- The pattern part of both: no pattern matches nothing.
  unfoldable pub pattern_matches : Text → Option Text → Text → Result Bool
  unfolding compile_anchored_regex
  pattern_matches what none s = ok false
  pattern_matches what (some pattern) s = do
    re ← or_config_error what (compile_anchored_regex pattern pattern_size_limit)
    ok (r.is_match re s)

  unfoldable pub validate_host : TokenPayload → Text → Result (Unit {0})
  validate_host payload host =
      let (req_host, req_port) = split_host_port host in
      if any (λ entry. entry_matches entry (req_host, req_port)) payload.allowed_hosts
      then ok tt
      else (do
        matched ←
            pattern_matches (codes "invalid host pattern: ") payload.allowed_host_pattern req_host
        if matched then ok tt else err (host_not_allowed host))

  unfoldable pub validate_path : TokenPayload → Text → Result (Unit {0})
  validate_path payload path =
      if is_empty payload.allowed_paths && is_none payload.allowed_path_pattern
      then ok tt
      else if any (λ p. text_eq p path) payload.allowed_paths
      then ok tt
      else (do
        matched ← pattern_matches (codes "invalid path pattern: ") payload.allowed_path_pattern path
        if matched then ok tt else err (path_not_allowed path))
