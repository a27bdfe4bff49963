-- ===== src/Body/Scanner.antt =====
-- `StreamScanner` of crates/icebreaker-proxy/src/body/overlap_buffer.rs.
pub mod Window
pub mod Stream
use icebreaker.Common.{Text, length, any, ℕ, max, Bool, List, [], ◌∷◌, ◌++◌}
use icebreaker.Body.Pattern.{contains_pattern}
use icebreaker.Body.OverlapBuffer
use icebreaker.Body.OverlapBuffer.{OverlapBuffer, BytesMutCapacity, default_overlap_size}

pub record StreamScanner : Type 0 where
  pub buffer : OverlapBuffer
  pub patterns : List Text

-- The length of the longest pattern, 0 if there is none.
unfoldable pub max_pattern_len : List Text → ℕ
max_pattern_len [] = 0
max_pattern_len (p ∷ ps) = max (length p) (max_pattern_len ps)

unfoldable pub contains_any : List Text → Text → Bool
contains_any patterns s = any (contains_pattern s) patterns

module _ ⦃m : BytesMutCapacity⦄ where
  unfoldable pub new : List Text → StreamScanner
  new patterns = record {
    buffer = OverlapBuffer.new (max (max_pattern_len patterns) default_overlap_size);
    patterns = patterns;
  }

  unfoldable pub scan_chunk : Text → Bool → StreamScanner → Bool × StreamScanner
  unfolding contains_any
  scan_chunk chunk is_last scanner =
      let (searchable, buffer) = OverlapBuffer.process chunk is_last scanner.buffer in
      (contains_any scanner.patterns searchable, record scanner { buffer = buffer })

unfoldable pub reset : StreamScanner → StreamScanner
reset scanner = record scanner { buffer = OverlapBuffer.reset scanner.buffer }

unfoldable pub add_pattern : Text → StreamScanner → StreamScanner
add_pattern pattern scanner = record scanner { patterns = scanner.patterns ++ pattern ∷ [] }
