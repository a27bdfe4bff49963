-- ===== src/Body/OverlapBuffer.antt =====
-- `OverlapBuffer` of crates/icebreaker-proxy/src/body/overlap_buffer.rs. `BytesMut` is of the
-- crate `bytes`: its contents are a list of bytes, and how it grows is a parameter.
use native.Mathlib.Decide.{dec_le}
use native.Mathlib.Nat.{le_trans}
use icebreaker.Common.{
  Text, length, drop, length-append, length-drop, take, take-append-drop, ℕ, ◌-◌, ◌≤◌, ◌<◌, ◌≡◌,
  ◌⊎◌, refl, sym, Bool, true, false, [], ◌++◌, arith, ltb, leb, lt→ltb, le→leb, lt→leb,
  if◌then◌else◌, ap, ◌∙◌, inl, inr, append_assoc, is_empty, not,
}

-- The capacity of `BytesMut::with_capacity(n)`, and of a buffer of capacity `c` that then holds
-- `n` bytes. The documentation promises at least `n`, and that `clear` keeps the capacity.
pub record BytesMutCapacity : Type 0 where
  pub with_capacity : ℕ → ℕ
  pub extended : ℕ → ℕ → ℕ
  pub le-with_capacity : (n : ℕ) → n ≤ with_capacity n
  pub le-extended : (c n : ℕ) → c ≤ extended c n

pub record OverlapBuffer : Type 0 where
  pub overlap : Text
  pub capacity : ℕ
  pub overlap_size : ℕ

abbrev pub default_overlap_size : ℕ
default_overlap_size = 256

-- The last `n` bytes of a text that has as many.
abbrev pub last_bytes : ℕ → Text → Text
last_bytes n s = drop (length s - n) s

module _ ⦃m : BytesMutCapacity⦄ where
  unfoldable pub new : ℕ → OverlapBuffer
  new overlap_size = record {
    overlap = [];
    capacity = m.with_capacity overlap_size;
    overlap_size = overlap_size;
  }

  -- The overlap that `process` keeps of a chunk that is not the last.
  unfoldable pub next_overlap : OverlapBuffer → Text → Text
  next_overlap b chunk =
      let searchable = b.overlap ++ chunk in
      if leb b.overlap_size (length chunk)
      then last_bytes b.overlap_size chunk
      else if ltb 0 b.capacity
      then (if leb b.overlap_size (length searchable)
          then last_bytes b.overlap_size searchable
          else searchable)
      else []

  -- The searchable region, and the buffer after the chunk.
  unfoldable pub process : Text → Bool → OverlapBuffer → Text × OverlapBuffer
  process chunk true b = (b.overlap ++ chunk, record b { overlap = [] })
  process chunk false b =
      let kept = next_overlap b chunk in
      (
        b.overlap ++ chunk,
        record b { overlap = kept; capacity = m.extended b.capacity (length kept) },
      )

unfoldable pub reset : OverlapBuffer → OverlapBuffer
reset b = record b { overlap = [] }

unfoldable pub has_overlap : OverlapBuffer → Bool
has_overlap b = not (is_empty b.overlap)

unfoldable pub current_overlap_len : OverlapBuffer → ℕ
current_overlap_len b = length b.overlap

-- The overlap is the end of what has been fed, whole or `overlap_size` bytes long.
pub record Follows (fed : Text) (b : OverlapBuffer) : Type 0 where
  pub before : Text
  pub cut : fed ≡ before ++ b.overlap
  pub enough : (before ≡ []) ⊎ (length b.overlap ≡ b.overlap_size)
  pub fits : length b.overlap ≤ b.overlap_size
  pub room : b.overlap_size ≤ b.capacity

last_bytes_cut : (n : ℕ) (s : Text) → s ≡ take (length s - n) s ++ last_bytes n s
last_bytes_cut n s = sym (take-append-drop (length s - n) s)

length-last_bytes : (n : ℕ) (s : Text) → n ≤ length s → length (last_bytes n s) ≡ n
length-last_bytes n s h = omega (arith, length-drop (length s - n) s)

module _ (fed chunk : Text) (b : OverlapBuffer) (f : Follows fed b) where
  cut_after : (s kept : Text) → chunk ≡ s ++ kept → fed ++ chunk ≡ (fed ++ s) ++ kept
  cut_after s kept e = rw e (sym (append_assoc fed s kept))

  cut_before :
      (s kept : Text) → b.overlap ++ chunk ≡ s ++ kept → fed ++ chunk ≡ (f.before ++ s) ++ kept
  cut_before s kept e =
      ap (λ (t : Text). t ++ chunk) f.cut
      ∙ append_assoc f.before b.overlap chunk
      ∙ ap (λ (t : Text). f.before ++ t) e
      ∙ sym (append_assoc f.before s kept)

  whole_or_long : length (b.overlap ++ chunk) < b.overlap_size → f.before ++ [] ≡ []
  whole_or_long short = elim f.enough [
    | inl whole ↦ rw whole refl
    | inr long ↦ absurd (omega (arith, length-append b.overlap chunk))
  ]

module _ ⦃m : BytesMutCapacity⦄ where
  -- A new buffer follows the empty stream.
  pub new-Follows : (n : ℕ) → Follows [] (new n)
  unfolding new
  new-Follows n = record {
    before = [];
    cut = refl;
    enough = inl refl;
    fits = omega arith;
    room = m.le-with_capacity n;
  }

  -- The overlap that is kept is the end of the stream.
  next_overlap-cut :
      (fed chunk : Text) (b : OverlapBuffer)
      → Follows fed b
      → (s : Text) × (fed ++ chunk ≡ s ++ next_overlap b chunk)
        × ((s ≡ []) ⊎ (length (next_overlap b chunk) ≡ b.overlap_size))
        × (length (next_overlap b chunk) ≤ b.overlap_size)
  unfolding next_overlap
  next_overlap-cut fed chunk b f = elim (dec_le b.overlap_size (length chunk)) [
    | yes big ↦
        let n = length-last_bytes b.overlap_size chunk big in
        rw (le→leb _ _ big) (
          fed ++ take (length chunk - b.overlap_size) chunk,
          cut_after fed chunk b f _ _ (last_bytes_cut b.overlap_size chunk),
          inr n,
          omega (arith, n),
        )
    | no small ↦
        rw
          (
            lt→leb b.overlap_size (length chunk) (omega arith),
            lt→ltb 0 b.capacity (omega (arith, f.room)),
          )
          (elim (dec_le b.overlap_size (length (b.overlap ++ chunk))) [
            | yes long ↦
                let n = length-last_bytes b.overlap_size (b.overlap ++ chunk) long in
                rw (le→leb _ _ long) (
                  f.before
                      ++ take (length (b.overlap ++ chunk) - b.overlap_size) (b.overlap ++ chunk),
                  cut_before fed chunk b f _ _ (last_bytes_cut b.overlap_size (b.overlap ++ chunk)),
                  inr n,
                  omega (arith, n),
                )
            | no short ↦ rw (lt→leb b.overlap_size (length (b.overlap ++ chunk)) (omega arith)) (
              f.before ++ [],
              cut_before fed chunk b f [] (b.overlap ++ chunk) refl,
              inl (whole_or_long fed chunk b f (omega arith)),
              omega arith,
            )
          ])
  ]

  -- A chunk that is not the last extends the stream that the buffer follows.
  pub process-Follows :
      (fed chunk : Text) (b : OverlapBuffer)
      → Follows fed b
      → Follows (fed ++ chunk) (process chunk false b).1
  unfolding process
  process-Follows fed chunk b f =
      let (s, cut, enough, fits) = next_overlap-cut fed chunk b f in
      record {
        before = s;
        cut = cut;
        enough = enough;
        fits = fits;
        room = le_trans f.room (m.le-extended b.capacity _);
      }

  pub overlap_size-process :
      (chunk : Text) (is_last : Bool) (b : OverlapBuffer)
      → (process chunk is_last b).1.overlap_size ≡ b.overlap_size
  unfolding process
  overlap_size-process chunk true b = refl
  overlap_size-process chunk false b = refl

  pub searchable-process :
      (chunk : Text) (is_last : Bool) (b : OverlapBuffer)
      → (process chunk is_last b).0 ≡ b.overlap ++ chunk
  unfolding process
  searchable-process chunk true b = refl
  searchable-process chunk false b = refl
