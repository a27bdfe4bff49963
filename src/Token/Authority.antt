-- ===== src/Token/Authority.antt =====
-- `split_host_port`. Texts are bytes; `str::find` and `rfind` of an ASCII character are searches
-- for its byte.
pub mod Laws
use icebreaker.Common.{
  Text, any, ℕ, zero, suc, ◌+◌, ◌-◌, ◌*◌, ◌^◌, Bool, Option, none, some, [], ◌∷◌, ◌++◌, ◌&&◌, ◌||◌,
  leb, ltb, ◌==◌, if◌then◌else◌, split_first, is_empty,
}

-- `str::rfind`: the same at the last occurrence
unfoldable pub split_last : ℕ → Text → Option (Text × Text)
split_last b [] = none
split_last b (c ∷ s) = elim (split_last b s) [
  | some (before, after) ↦ some (c ∷ before, after)
  | none ↦ if c == b then some ([], s) else none
]

abbrev pub is_digit : ℕ → Bool
is_digit c = leb b'0' c && leb c b'9'

-- The digits of `u16::from_str`, with its overflow check at each digit.
unfoldable pub parse_digits : ℕ → Text → Option ℕ
parse_digits n [] = some n
parse_digits n (c ∷ s) =
    let n' = n * 10 + (c - b'0') in
    let rest = parse_digits n' s in if is_digit c && ltb n' (2 ^ 16) then rest else none

-- `str::parse::<u16>`: a `+` may stand in front, and there is a digit.
unfoldable pub parse_u16 : Text → Option ℕ
parse_u16 [] = none
parse_u16 (c ∷ s) =
    if c == b'+' then (if is_empty s then none else parse_digits 0 s) else parse_digits 0 (c ∷ s)

abbrev bracket_port : Text → Option ℕ
bracket_port [] = none
bracket_port (c ∷ s) = if c == b':' then parse_u16 s else none

-- The branch for an authority that begins with `[`; `rest` is what follows the bracket.
unfoldable pub split_bracketed : Text → Text → Text × Option ℕ
unfolding split_first
split_bracketed authority rest = elim (split_first b']' rest) [
  | none ↦ (authority, none)
  | some (inside, after) ↦ (b'[' ∷ (inside ++ b']' ∷ []), bracket_port after)
]

-- The branch for the rest.
unfoldable pub split_plain : Text → Text × Option ℕ
unfolding split_last
split_plain authority = elim (split_last b':' authority) [
  | none ↦ (authority, none)
  | some (host, digits) ↦
      if any (λ c. c == b':') host
      then (authority, none)
      else elim (parse_u16 digits) [ none ↦ (authority, none) | some port ↦ (host, some port) ]
]

unfoldable pub split_host_port : Text → Text × Option ℕ
split_host_port [] = ([], none)
split_host_port (c ∷ s) = if c == b'[' then split_bracketed (c ∷ s) s else split_plain (c ∷ s)
