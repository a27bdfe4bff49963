-- ===== src/Common/Texts.antt =====
-- Texts as lists of bytes (Rust's `String` and `&[u8]`), and their equality test.
use Prim.Native.Nat.{ℕ, zero, suc}
use Prim.Native.Char.{code}
use Prim.Native.String.{String}
use mathlib.Core.Path.{◌≡◌, refl}
use mathlib.Core.Logic.{◌↔◌}
use mathlib.Core.Bool.{Bool, true, false, ◌&&◌, ◌||◌}
use mathlib.Core.List.{List, [], ◌∷◌}
use mathlib.Core.Option.{Option, none, some}
use native.Mathlib.Omega.{arith}
use icebreaker.Common.Tests.{◌==◌, leb, if◌then◌else◌}

abbrev pub Text : Type 0
Text = List ℕ

-- The bytes of an ASCII literal.
abbrev pub codes : String → Text
codes String.[] = []
codes (String.◌∷◌ c s) = code c ∷ codes s

unfoldable pub text_eq : Text → Text → Bool
text_eq [] [] = true
text_eq (a ∷ s) (b ∷ t) = a == b && text_eq s t
text_eq _ _ = false

pub text_eq_iff : (s t : Text) → (text_eq s t ≡ true) ↔ (s ≡ t)
unfolding text_eq
text_eq_iff [] [] = ground arith
text_eq_iff [] (b ∷ t) = ground arith
text_eq_iff (a ∷ s) [] = ground arith
text_eq_iff (a ∷ s) (b ∷ t) = ground (arith, text_eq_iff s t)

pub text_eq_refl : (s : Text) → text_eq s s ≡ true
text_eq_refl s = (text_eq_iff s s).1 refl

-- `str::strip_prefix`
unfoldable pub strip_prefix : Text → Text → Option Text
strip_prefix [] s = some s
strip_prefix (p ∷ ps) [] = none
strip_prefix (p ∷ ps) (c ∷ s) = let rest = strip_prefix ps s in if p == c then rest else none

-- ASCII white space, as `char::is_whitespace` has it.
abbrev pub is_space : ℕ → Bool
is_space c = c == 32 || (leb 9 c && leb c 13)

unfoldable pub trim_start : Text → Text
trim_start [] = []
trim_start (c ∷ s) = let rest = trim_start s in if is_space c then rest else c ∷ s

unfoldable pub trim_end : Text → Text
trim_end [] = []
trim_end (c ∷ s) = elim (trim_end s) [ [] ↦ if is_space c then [] else c ∷ [] | d ∷ t ↦ c ∷ d ∷ t ]

-- `str::trim` of ASCII text
unfoldable pub trim : Text → Text
unfolding trim_start trim_end
trim s = trim_end (trim_start s)

-- Of a UTF-8 sequence: how many bytes are still to come, and the range of the next.
abbrev utf8_first : ℕ → Option (ℕ × ℕ × ℕ)
utf8_first c =
    if leb c 0x7f
    then some (0, 0, 0)
    else if leb 0xc2 c && leb c 0xdf
    then some (1, 0x80, 0xbf)
    else if c == 0xe0
    then some (2, 0xa0, 0xbf)
    else if c == 0xed
    then some (2, 0x80, 0x9f)
    else if leb 0xe1 c && leb c 0xef
    then some (2, 0x80, 0xbf)
    else if c == 0xf0
    then some (3, 0x90, 0xbf)
    else if leb 0xf1 c && leb c 0xf3
    then some (3, 0x80, 0xbf)
    else if c == 0xf4
    then some (3, 0x80, 0x8f)
    else none

abbrev utf8_next : ℕ → ℕ → ℕ → ℕ → Option (ℕ × ℕ × ℕ)
utf8_next zero low high c = utf8_first c
utf8_next (suc n) low high c = if leb low c && leb c high then some (n, 0x80, 0xbf) else none

unfoldable utf8_from : ℕ → ℕ → ℕ → Text → Bool
utf8_from n low high [] = n == 0
utf8_from n low high (c ∷ s) = elim (utf8_next n low high c) [
  | none ↦ false
  | some (n', low', high') ↦ utf8_from n' low' high' s
]

-- `String::from_utf8`
unfoldable pub from_utf8 : Text → Option Text
unfolding utf8_from
from_utf8 s = if utf8_from 0 0 0 s then some s else none

-- `str::split_once` of an ASCII character: the text before its first occurrence and the text after
unfoldable pub split_first : ℕ → Text → Option (Text × Text)
split_first b [] = none
split_first b (c ∷ s) =
    let rest = split_first b s in
    if c == b
    then some ([], s)
    else elim rest [ none ↦ none | some (before, after) ↦ some (c ∷ before, after) ]

-- `str::find` of a text, and what stands after it
unfoldable pub find_after : Text → Text → Option Text
unfolding strip_prefix
find_after needle [] = strip_prefix needle []
find_after needle (c ∷ s) = elim (strip_prefix needle (c ∷ s)) [
  | some rest ↦ some rest
  | none ↦ find_after needle s
]

abbrev onto_first : ℕ → List Text → List Text
onto_first c [] = (c ∷ []) ∷ []
onto_first c (part ∷ parts) = (c ∷ part) ∷ parts

-- `str::split` at an ASCII character
unfoldable pub split_all : ℕ → Text → List Text
split_all b [] = [] ∷ []
split_all b (c ∷ s) = let rest = split_all b s in if c == b then [] ∷ rest else onto_first c rest
