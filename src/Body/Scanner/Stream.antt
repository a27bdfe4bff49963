-- ===== src/Body/Scanner/Stream.antt =====
-- A scanner over a stream of chunks.
use mathlib.Core.Bool.{false≢true}
use icebreaker.Common.{
  Text, All, length, ℕ, ◌≤◌, ◌≡◌, ◌≢◌, ◌↔◌, ◌⊎◌, inl, inr, refl, sym, ◌∙◌, Bool, true, false, ◌||◌,
  List, [], ◌∷◌, ◌++◌, arith, append_assoc, append-nil, Bool-cases,
}
use icebreaker.Body.Pattern.{Occurs, contains_pattern, contains_pattern_iff, Occurs-length-le}
use icebreaker.Body.OverlapBuffer
use icebreaker.Body.OverlapBuffer.{
  searchable-process, OverlapBuffer, BytesMutCapacity, Follows, process-Follows, new-Follows,
  overlap_size-process,
}
use icebreaker.Body.Scanner
use icebreaker.Body.Scanner.{StreamScanner, max_pattern_len, contains_any, scan_chunk}
use icebreaker.Body.Scanner.Window.{Occurs-append, Occurs-prepend, Occurs-searchable_iff}

-- One of the patterns stands in `s`.
abbrev pub OccursAny : List Text → Text → Type 0
OccursAny [] s = ⊥
OccursAny (p ∷ ps) s = Occurs p s ⊎ OccursAny ps s

contains_any-cons :
    (p : Text) (ps : List Text) (s : Text)
    → contains_any (p ∷ ps) s ≡ (contains_pattern s p || contains_any ps s)
unfolding contains_any
contains_any-cons p ps s = refl

pub contains_any_iff : (ps : List Text) (s : Text) → (contains_any ps s ≡ true) ↔ OccursAny ps s
unfolding contains_any
contains_any_iff [] s = ((λ h. cc), λ h. absurd h)
contains_any_iff (p ∷ ps) s =
    let (found, missed) = contains_any_iff ps s in
    let (here, there) = contains_pattern_iff s p in
    (
      (λ h. elim (Bool-cases (contains_pattern s p)) [
        | inl e ↦ inl (here e)
        | inr e ↦ inr (found (rw e at h))
      ]),
      λ o. elim o [ inl a ↦ rw (there a) | inr b ↦ ground (arith, missed b) ],
    )

pub OccursAny-append : (ps : List Text) (s t : Text) → OccursAny ps s → OccursAny ps (s ++ t)
OccursAny-append [] s t o = absurd o
OccursAny-append (p ∷ ps) s t (inl o) = inl (Occurs-append p s t o)
OccursAny-append (p ∷ ps) s t (inr o) = inr (OccursAny-append ps s t o)

pub OccursAny-prepend : (ps : List Text) (s t : Text) → OccursAny ps t → OccursAny ps (s ++ t)
OccursAny-prepend [] s t o = absurd o
OccursAny-prepend (p ∷ ps) s t (inl o) = inl (Occurs-prepend p s t o)
OccursAny-prepend (p ∷ ps) s t (inr o) = inr (OccursAny-prepend ps s t o)

-- Every pattern is no longer than `n`.
abbrev pub FitIn : ℕ → List Text → Type 0
FitIn n ps = All (λ p. length p ≤ n) ps

OccursAny-searchable_iff :
    (ps : List Text) (fed chunk : Text) (b : OverlapBuffer)
    → Follows fed b
    → FitIn b.overlap_size ps
    → ¬ OccursAny ps fed
    → OccursAny ps (fed ++ chunk) ↔ OccursAny ps (b.overlap ++ chunk)
OccursAny-searchable_iff [] fed chunk b f fit clean = ((λ h. h), λ h. h)
OccursAny-searchable_iff (p ∷ ps) fed chunk b f (short, fit) clean =
    let (to, from) = Occurs-searchable_iff p fed chunk b f short (λ o. clean (inl o)) in
    let (tos, froms) = OccursAny-searchable_iff ps fed chunk b f fit (λ o. clean (inr o)) in
    (
      (λ h. elim h [ inl o ↦ inl (to o) | inr o ↦ inr (tos o) ]),
      λ h. elim h [ inl o ↦ inl (from o) | inr o ↦ inr (froms o) ],
    )

-- The scanner has been fed a stream in which no pattern occurs.
pub record Scans (fed : Text) (sc : StreamScanner) : Type 0 where
  pub follows : Follows fed sc.buffer
  pub fit : FitIn sc.buffer.overlap_size sc.patterns
  pub clean : ¬ OccursAny sc.patterns fed

module _ ⦃m : BytesMutCapacity⦄ (fed chunk : Text) (sc : StreamScanner) (h : Scans fed sc) where
  -- A chunk is reported exactly if a pattern occurs in the stream up to its end.
  pub scan_chunk_iff : ((scan_chunk chunk false sc).0 ≡ true) ↔ OccursAny sc.patterns (fed ++ chunk)
  unfolding scan_chunk
  scan_chunk_iff =
      let (to, from) =
        OccursAny-searchable_iff sc.patterns fed chunk sc.buffer h.follows h.fit h.clean in
      let (found, missed) = contains_any_iff sc.patterns (sc.buffer.overlap ++ chunk) in
      rw (searchable-process chunk false sc.buffer) ((λ e. from (found e)), λ o. missed (to o))

  pub scan_chunk-Scans :
      (scan_chunk chunk false sc).0 ≡ false → Scans (fed ++ chunk) (scan_chunk chunk false sc).1
  unfolding scan_chunk
  scan_chunk-Scans e = record {
    follows = process-Follows fed chunk sc.buffer h.follows;
    fit = rw (overlap_size-process chunk false sc.buffer) h.fit;
    clean = λ o. false≢true (sym e ∙ scan_chunk_iff.1 o);
  }

  -- The scan of the last, empty chunk finds nothing new.
  pub scan_last-eq-false : (scan_chunk [] true sc).0 ≡ false
  unfolding scan_chunk
  scan_last-eq-false = elim (Bool-cases (contains_any sc.patterns (sc.buffer.overlap ++ []))) [
    | inr nothing ↦ rw (searchable-process [] true sc.buffer) nothing
    | inl found ↦
        let o =
          rw append-nil at ((contains_any_iff sc.patterns (sc.buffer.overlap ++ [])).0 found) in
        absurd (
          h.clean
            (rw h.follows.cut (OccursAny-prepend sc.patterns h.follows.before sc.buffer.overlap o)))
  ]

-- The bytes of all chunks.
abbrev pub concat : List Text → Text
concat [] = []
concat (chunk ∷ chunks) = chunk ++ concat chunks

module _ ⦃m : BytesMutCapacity⦄ where
  -- Whether one of the chunks, none of them the last, is reported.
  unfoldable pub detects : StreamScanner → List Text → Bool
  detects sc [] = false
  detects sc (chunk ∷ chunks) =
      let (found, sc') = scan_chunk chunk false sc in let rest = detects sc' chunks in found || rest

  pub patterns-scan_chunk :
      (chunk : Text) (is_last : Bool) (sc : StreamScanner)
      → (scan_chunk chunk is_last sc).1.patterns ≡ sc.patterns
  unfolding scan_chunk
  patterns-scan_chunk chunk is_last sc = refl

  detects_of_Scans :
      (fed : Text) (sc : StreamScanner) (chunks : List Text)
      → Scans fed sc
      → (detects sc chunks ≡ true) ↔ OccursAny sc.patterns (fed ++ concat chunks)
  unfolding detects scan_chunk
  detects_of_Scans fed sc [] h = ((λ e. cc), λ o. absurd (h.clean (rw append-nil at o)))
  detects_of_Scans fed sc (chunk ∷ chunks) h = elim (Bool-cases (scan_chunk chunk false sc).0) [
    | inl found ↦
        rw (found, ← append_assoc fed chunk (concat chunks))
          (
            (λ _.
                OccursAny-append sc.patterns (fed ++ chunk) (concat chunks)
                  ((scan_chunk_iff fed chunk sc h).0 found)),
            λ _. refl,
          )
    | inr nothing ↦
        rw (nothing, ← append_assoc fed chunk (concat chunks))
          (detects_of_Scans (fed ++ chunk) (scan_chunk chunk false sc).1 chunks
            (scan_chunk-Scans fed chunk sc h nothing))
  ]

FitIn-max : (n : ℕ) (ps : List Text) → max_pattern_len ps ≤ n → FitIn n ps
unfolding max_pattern_len
FitIn-max n [] h = tt
FitIn-max n (p ∷ ps) h = (omega arith, FitIn-max n ps (omega arith))

empty_of_length : (p : Text) → length p ≤ 0 → p ≡ []
empty_of_length [] h = refl
empty_of_length (c ∷ p) h = absurd (omega arith)

pub clean_nil : (ps : List Text) → All (λ p. p ≢ []) ps → ¬ OccursAny ps []
clean_nil [] h o = o
clean_nil (p ∷ ps) (h, hs) (inl o) = h (empty_of_length p (Occurs-length-le p [] o))
clean_nil (p ∷ ps) (h, hs) (inr o) = clean_nil ps hs o

-- A new scanner has been fed nothing, if no pattern is empty.
pub new-Scans :
    ⦃m : BytesMutCapacity⦄ (ps : List Text) → All (λ p. p ≢ []) ps → Scans [] (Scanner.new ps)
unfolding Scanner.new OverlapBuffer.new
new-Scans ps h = record {
  follows = new-Follows _;
  fit = FitIn-max _ ps (omega arith);
  clean = clean_nil ps h;
}

-- However a stream is cut into chunks, a new scanner for non-empty patterns reports one of the
-- chunks exactly if one of the patterns stands somewhere in the stream, across chunks or not.
pub detects_iff :
    ⦃m : BytesMutCapacity⦄ (ps : List Text) (chunks : List Text)
    → All (λ p. p ≢ []) ps
    → (detects (Scanner.new ps) chunks ≡ true) ↔ OccursAny ps (concat chunks)
unfolding Scanner.new
detects_iff ps chunks h = detects_of_Scans [] (Scanner.new ps) chunks (new-Scans ps h)
