-- ===== src/Body/Config.antt =====
-- `ResponseScanConfig` of crates/icebreaker-common/src/config.rs and `SecretScannerConfig` of
-- crates/icebreaker-proxy/src/body/scanning.rs.
use icebreaker.Common.{Text, text_eq, any, Bool, true, List, [], ◌∷◌, ◌++◌}
use icebreaker.Http.{lowercase}
use icebreaker.Body.OverlapBuffer.{BytesMutCapacity}
use icebreaker.Body.Scanner as Scanner
use icebreaker.Body.Scanner.{StreamScanner}
use icebreaker.Body.Scanning as Scanning
use icebreaker.Body.Scanning.{ScanningBody}

pub data UnsupportedEncodingBehavior : Type 0 where
  block passthrough_with_warning : UnsupportedEncodingBehavior

pub record ResponseScanConfig : Type 0 where
  pub unsupported_encoding : UnsupportedEncodingBehavior
  pub additional_allowed_encodings : List Text

abbrev pub default_scan_config : ResponseScanConfig
default_scan_config = record { unsupported_encoding = block; additional_allowed_encodings = [] }

unfoldable pub with_unsupported_encoding_behavior :
    ResponseScanConfig → UnsupportedEncodingBehavior → ResponseScanConfig
with_unsupported_encoding_behavior c behavior = record c { unsupported_encoding = behavior }

unfoldable pub with_allowed_encoding : ResponseScanConfig → Text → ResponseScanConfig
with_allowed_encoding c encoding = record c {
  additional_allowed_encodings = c.additional_allowed_encodings ++ (encoding ∷ []);
}

unfoldable pub is_encoding_allowed : ResponseScanConfig → Text → Bool
unfolding text_eq
is_encoding_allowed c encoding =
    any (λ e. text_eq (lowercase e) (lowercase encoding)) c.additional_allowed_encodings

pub record SecretScannerConfig : Type 0 where
  pub patterns : List Text
  pub enabled : Bool
  pub response_scan_config : ResponseScanConfig

abbrev pub default_scanner_config : SecretScannerConfig
default_scanner_config = record {
  patterns = [];
  enabled = true;
  response_scan_config = default_scan_config;
}

unfoldable pub with_pattern : SecretScannerConfig → Text → SecretScannerConfig
with_pattern c pattern = record c { patterns = c.patterns ++ (pattern ∷ []) }

unfoldable pub set_enabled : SecretScannerConfig → Bool → SecretScannerConfig
set_enabled c enabled = record c { enabled = enabled }

unfoldable pub with_response_scan_config :
    SecretScannerConfig → ResponseScanConfig → SecretScannerConfig
with_response_scan_config c config = record c { response_scan_config = config }

module _ ⦃m : BytesMutCapacity⦄ where
  unfoldable pub create_scanner : SecretScannerConfig → StreamScanner
  unfolding Scanner.new
  create_scanner c = Scanner.new c.patterns

  -- The flag `enabled` is not asked.
  unfoldable pub wrap_body : SecretScannerConfig → ScanningBody
  unfolding Scanning.new
  wrap_body c = Scanning.new c.patterns
