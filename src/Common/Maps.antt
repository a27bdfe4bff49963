-- ===== src/Common/Maps.antt =====
-- `HashMap<String, V>` as a function from keys; the program never iterates over its maps.
use mathlib.Core.Bool.{Bool}
use mathlib.Core.Option.{Option, none, some}
use icebreaker.Common.Tests.{if◌then◌else◌}
use icebreaker.Common.Texts.{Text, text_eq}

abbrev pub Map {ℓ} : Type ℓ → Type ℓ
Map V = Text → Option V

module _ {ℓ} {V : Type ℓ} where
  abbrev pub empty : Map V
  empty k = none

  abbrev pub insert : Text → V → Map V → Map V
  insert k v m j = if text_eq k j then some v else m j

  abbrev pub remove : Text → Map V → Map V
  remove k m j = if text_eq k j then none else m j

  abbrev keep : (V → Bool) → Option V → Option V
  keep p none = none
  keep p (some v) = if p v then some v else none

  -- `HashMap::retain`, with a test on the value
  abbrev pub retain : (V → Bool) → Map V → Map V
  retain p m j = keep p (m j)
