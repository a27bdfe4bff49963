-- ===== src/ResponseScan/Patterns.antt =====
-- `generate_scan_patterns` of crates/icebreaker-proxy/src/middleware/response_scan.rs: the forms of a
-- secret that a response is searched for.
use icebreaker.Common.{
  Text, codes, text_eq, any, length, ℕ, ◌==◌, ◌||◌, Bool, true, false, not, Option, none, some,
  List, [], ◌∷◌, ◌++◌, ltb, if◌then◌else◌,
}

-- The crates `base64`, `urlencoding` and `hex`.
pub record EncodingCrates : Type 0 where
  pub base64_standard : Text → Text
  pub base64_url_safe : Text → Text
  pub url_encode : Text → Text
  pub hex_encode : Text → Text
  pub hex_encode_upper : Text → Text

-- `MIN_SECRET_LEN_FOR_VARIANTS`
abbrev pub min_secret_len_for_variants : ℕ
min_secret_len_for_variants = 8

abbrev pub is_html_special : ℕ → Bool
is_html_special c = c == b'&' || c == b'<' || c == b'>' || c == b'"' || c == 39

abbrev pub html_entity : ℕ → Text
html_entity c =
    if c == b'&'
    then codes "&amp;"
    else if c == b'<'
    then codes "&lt;"
    else if c == b'>'
    then codes "&gt;"
    else if c == b'"'
    then codes "&quot;"
    else if c == 39
    then codes "&#39;"
    else c ∷ []

abbrev pub html_text : Text → Text
html_text [] = []
html_text (c ∷ s) = html_entity c ++ html_text s

unfoldable pub encode_html_entities : Text → Option Text
encode_html_entities s = if not (any is_html_special s) then none else some (html_text s)

abbrev pub push_if : Bool → Text → List Text → List Text
push_if true p rest = p ∷ rest
push_if false p rest = rest

abbrev pub push_some : Option Text → List Text
push_some none = []
push_some (some p) = p ∷ []

module _ ⦃e : EncodingCrates⦄ where
  -- The patterns that are pushed for a secret that is long enough.
  abbrev pub variants : Text → List Text
  variants raw =
      raw
      ∷ e.base64_standard raw
      ∷ push_if (not (text_eq (e.base64_url_safe raw) (e.base64_standard raw)))
          (e.base64_url_safe raw)
          (push_if (not (text_eq (e.url_encode raw) raw)) (e.url_encode raw)
            (e.hex_encode raw ∷ e.hex_encode_upper raw ∷ push_some (encode_html_entities raw)))

  unfoldable pub generate_scan_patterns : Text → List Text
  unfolding text_eq encode_html_entities
  generate_scan_patterns raw =
      if ltb (length raw) min_secret_len_for_variants then raw ∷ [] else variants raw
