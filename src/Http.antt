-- ===== src/Http.antt =====
-- Requests and headers as the proxy's parts see them. A `HeaderMap` of the crate `http` is the list
-- of its pairs, with names in lower case, as the map keeps them.
pub mod Laws
pub mod Request
use icebreaker.Errors.{Outcome}
use icebreaker.Common.{
  Text, text_eq, map, ℕ, ◌+◌, ◌&&◌, Option, none, some, List, [], ◌∷◌, leb, if◌then◌else◌,
}

-- A header's value: `to_str` gives its text or, if it is not visible ASCII, an error.
pub data HeaderValue : Type 0 where
  visible : Text → HeaderValue
  opaque : (message : Text) → HeaderValue

abbrev pub Headers : Type 0
Headers = List (Text × HeaderValue)

-- `HeaderMap::get`: the first value of a name
unfoldable pub get : {V : Type 0} → Text → List (Text × V) → Option V
get name [] = none
get name ((n, v) ∷ headers) = let rest = get name headers in if text_eq n name then some v else rest

-- `HeaderMap::remove`: all values of a name
unfoldable pub remove_header : {V : Type 0} → Text → List (Text × V) → List (Text × V)
remove_header name [] = []
remove_header name ((n, v) ∷ headers) =
    let rest = remove_header name headers in if text_eq n name then rest else (n, v) ∷ rest

-- `HeaderMap::insert`: the value replaces all values of the name
unfoldable pub insert_header : {V : Type 0} → Text → V → List (Text × V) → List (Text × V)
unfolding remove_header
insert_header name value headers = (name, value) ∷ remove_header name headers

abbrev pub visible_text : Option HeaderValue → Option Text
visible_text (some (visible s)) = some s
visible_text _ = none

-- `get(name).and_then(|v| v.to_str().ok())`
unfoldable pub get_text : Text → Headers → Option Text
unfolding get
get_text name headers = visible_text (get name headers)

-- `u8::to_ascii_lowercase` on each byte
abbrev pub lower_byte : ℕ → ℕ
lower_byte c = if leb b'A' c && leb c b'Z' then c + 32 else c

-- `str::to_lowercase` of ASCII text
abbrev pub lowercase : Text → Text
lowercase s = map lower_byte s

-- The crate `http`: the parsing of names, which lowers their case, and of values, whose text `to_str`
-- gives back.
pub record HttpCrate : Type 0 where
  pub parse_name : Text → Outcome Text
  pub parse_value : Text → Outcome HeaderValue
