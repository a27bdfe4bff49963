-- ===== src/Token/Regex.antt =====
-- The `regex` crate, as far as the proxy calls it, and the anchoring of patterns.
use icebreaker.Common.{Text, ℕ, ◌*◌, ◌++◌, ◌==◌, Bool, false, [], ◌∷◌, ◌&&◌, codes, if◌then◌else◌}
use icebreaker.Errors.{Result, ok, err, config_error}

-- What `RegexBuilder::build` returns under a size limit.
pub data Build (R : Type 0) : Type 0 where
  built : R → Build R
  refused : (message : Text) → Build R

pub record RegexCrate : Type 1 where
  pub Regex : Type 0
  pub build : Text → ℕ → Build Regex
  pub is_match : Regex → Text → Bool

unfoldable pub starts_with : ℕ → Text → Bool
starts_with b [] = false
starts_with b (c ∷ s) = c == b

unfoldable pub ends_with : ℕ → Text → Bool
ends_with b [] = false
ends_with b (c ∷ []) = c == b
ends_with b (c ∷ d ∷ s) = ends_with b (d ∷ s)

-- `anchor_pattern`
unfoldable pub anchor_pattern : Text → Text
unfolding starts_with ends_with
anchor_pattern pattern =
    if starts_with b'^' pattern && ends_with b'$' pattern
    then pattern
    else if starts_with b'^' pattern
    then pattern ++ codes "$"
    else if ends_with b'$' pattern
    then codes "^" ++ pattern
    else codes "^(?:" ++ (pattern ++ codes ")$")

module _ ⦃r : RegexCrate⦄ where
  -- `compile_anchored_regex`
  unfoldable pub compile_anchored_regex : Text → ℕ → Build r.Regex
  compile_anchored_regex pattern size_limit = r.build (anchor_pattern pattern) size_limit

  -- A regex that did not compile is a configuration error, whose text names the pattern's kind.
  abbrev pub or_config_error : Text → Build r.Regex → Result r.Regex
  or_config_error what (built re) = ok re
  or_config_error what (refused message) = err (config_error (what ++ message))

abbrev pub pattern_size_limit : ℕ
pattern_size_limit = 10 * 1024
