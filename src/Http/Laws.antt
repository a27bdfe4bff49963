-- ===== src/Http/Laws.antt =====
-- Reading headers after they were changed.
use icebreaker.Common.{
  Text, text_eq, text_eq_iff, ◌≡◌, none, some, List, [], ◌∷◌, arith, if◌then◌else◌,
}
use icebreaker.Http.{get, remove_header, insert_header}

pub get-remove_header :
    {V : Type 0} (name other : Text) (headers : List (Text × V))
    → get name (remove_header other headers)
      ≡ (if text_eq other name then none else get name headers)
unfolding get remove_header
get-remove_header name other [] = ground arith
get-remove_header name other ((n, v) ∷ headers) = ground (
  arith,
  get-remove_header name other headers,
  text_eq_iff n other,
  text_eq_iff n name,
  text_eq_iff other name,
)

pub get-insert_header :
    {V : Type 0} (name other : Text) (value : V) (headers : List (Text × V))
    → get name (insert_header other value headers)
      ≡ (if text_eq other name then some value else get name headers)
unfolding get insert_header
get-insert_header name other value headers = ground (arith, get-remove_header name other headers)
