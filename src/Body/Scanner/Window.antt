-- ===== src/Body/Scanner/Window.antt =====
-- A pattern that is no longer than the overlap is in the stream as soon as it is in the searchable
-- region, and the other way round if it was not in the stream before the chunk.
use mathlib.Core.List.{append_assoc}
use icebreaker.Common.{
  Text, length, length-append, append-eq-append, ◌≤◌, ◌≡◌, ◌∙◌, sym, ap, ◌⊎◌, inl, inr, [], ◌∷◌,
  ◌++◌, ◌↔◌, arith,
}
use icebreaker.Body.Pattern.{Occurs}
use icebreaker.Body.OverlapBuffer.{OverlapBuffer, Follows}

-- What occurs in a part occurs in the whole.
pub Occurs-prepend : (p a s : Text) → Occurs p s → Occurs p (a ++ s)
Occurs-prepend p a s (before, after, e) =
    (a ++ before, after, ap (λ (t : Text). a ++ t) e ∙ sym (append_assoc a before (p ++ after)))

pub Occurs-append : (p s b : Text) → Occurs p s → Occurs p (s ++ b)
Occurs-append p s b (before, after, e) = (
  before,
  after ++ b,
  ap (λ (t : Text). t ++ b) e
      ∙ append_assoc before (p ++ after) b
      ∙ ap (λ (t : Text). before ++ t) (append_assoc p after b),
)

-- An occurrence that starts before `o` ends within `o`, if it is no longer than `o`.
starts_early :
    (p before after rest o c : Text)
    → p ++ after ≡ rest ++ (o ++ c)
    → length p ≤ length o
    → Occurs p ((before ++ rest) ++ o) ⊎ Occurs p (o ++ c)
starts_early p before after [] o c e short = inr ([], after, sym e)
starts_early p before after (x ∷ rest) o c e short =
    elim (append-eq-append p after ((x ∷ rest) ++ o) c (e ∙ sym (append_assoc (x ∷ rest) o c))) [
      | inl (d, cut, _) ↦
          inl (before, d, append_assoc before (x ∷ rest) o ∙ ap (λ (t : Text). before ++ t) cut)
      | inr (d, cut, _) ↦ absurd (
          omega (
            arith,
            ap (λ (t : Text). length t) cut,
            length-append ((x ∷ rest) ++ o) d,
            length-append rest o,
          ))
    ]

-- An occurrence in the extended stream is in the old stream or in the searchable region.
pub Occurs-cut :
    (p a o c : Text)
    → (a ≡ []) ⊎ (length p ≤ length o)
    → Occurs p ((a ++ o) ++ c)
    → Occurs p (a ++ o) ⊎ Occurs p (o ++ c)
Occurs-cut p a o c (inl whole) h = inr (rw whole at h)
Occurs-cut p a o c (inr short) (before, after, e) =
    elim (append-eq-append a (o ++ c) before (p ++ after) (sym (append_assoc a o c) ∙ e)) [
      | inl (d, _, cut) ↦ inr (d, after, cut)
      | inr (d, start, cut) ↦ rw start (starts_early p before after d o c cut short)
    ]

-- A pattern no longer than the overlap, and not yet in the stream, is in the stream with the
-- next chunk exactly if it is in the searchable region.
pub Occurs-searchable_iff :
    (p fed chunk : Text) (b : OverlapBuffer)
    → Follows fed b
    → length p ≤ b.overlap_size
    → (Occurs p fed → ⊥)
    → Occurs p (fed ++ chunk) ↔ Occurs p (b.overlap ++ chunk)
Occurs-searchable_iff p fed chunk b f short clean = (into, back)
  where
    near : (f.before ≡ []) ⊎ (length p ≤ length b.overlap)
    near = elim f.enough [ inl whole ↦ inl whole | inr long ↦ inr (omega arith) ]

    into : Occurs p (fed ++ chunk) → Occurs p (b.overlap ++ chunk)
    into h = elim (Occurs-cut p f.before b.overlap chunk near (rw f.cut at h)) [
      | inl old ↦ absurd (clean (rw f.cut old))
      | inr new ↦ new
    ]

    back : Occurs p (b.overlap ++ chunk) → Occurs p (fed ++ chunk)
    back h =
        rw (f.cut, append_assoc f.before b.overlap chunk)
          (Occurs-prepend p f.before (b.overlap ++ chunk) h)
