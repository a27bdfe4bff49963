-- ===== src/Body/Scanning/Frames.antt =====
-- The polls of a scanning body one by one, and the scan of one frame as more of the stream.
use icebreaker.Common.{
  Text, ℕ, zero, suc, ◌≡◌, refl, sym, Bool, true, false, List, [], ◌∷◌, ◌++◌, arith, append_assoc,
  append-nil, Bool-cases, inl, inr, ◌↔◌,
}
use icebreaker.Body.OverlapBuffer.{BytesMutCapacity}
use icebreaker.Body.Scanner.{StreamScanner, contains_any, scan_chunk}
use icebreaker.Body.Scanner.Stream.{
  OccursAny, OccursAny-append, Scans, scan_chunk_iff, scan_chunk-Scans, contains_any_iff,
}
use icebreaker.Body.Scanning.{
  Frame, content, trailers, Poll, pending, finished, BoxError, leak, scan_header_values, scan_frame,
  ScanningBody, on_answer, poll_frame, poll_times,
}

-- The bytes that a frame shows to the client: its data, or the values of its trailers.
abbrev pub values : List (Text × Text) → Text
values [] = []
values ((name, value) ∷ headers) = value ++ values headers

abbrev pub bytes : Frame → Text
bytes (content s) = s
bytes (trailers headers) = values headers

abbrev pub repeat : ℕ → Poll BoxError → List (Poll BoxError)
repeat zero a = []
repeat (suc n) a = a ∷ repeat n a

eq_of_iff : {P : Type 0} (a b : Bool) → (a ≡ true) ↔ P → (b ≡ true) ↔ P → a ≡ b
eq_of_iff true true p q = refl
eq_of_iff true false p q = sym (q.1 (p.0 refl))
eq_of_iff false true p q = p.1 (q.0 refl)
eq_of_iff false false p q = refl

module _ ⦃m : BytesMutCapacity⦄ (b : ScanningBody) where
  poll_frame-detected :
      (inner : List (Poll Text)) → b.detected ≡ true → poll_frame b inner ≡ (leak, b, inner)
  unfolding poll_frame
  poll_frame-detected [] h = ground arith
  poll_frame-detected (a ∷ inner) h = ground arith

  poll_frame-completed :
      (inner : List (Poll Text))
      → b.detected ≡ false
      → b.completed ≡ true
      → poll_frame b inner ≡ (finished, b, inner)
  unfolding poll_frame
  poll_frame-completed [] h k = ground arith
  poll_frame-completed (a ∷ inner) h k = ground arith

  pub poll_frame-open :
      (a : Poll Text) (inner : List (Poll Text))
      → b.detected ≡ false
      → b.completed ≡ false
      → poll_frame b (a ∷ inner) ≡ ((on_answer a b).0, (on_answer a b).1, inner)
  unfolding poll_frame
  poll_frame-open a inner h k = simp (h, k)

  pub poll_frame-dry : b.detected ≡ false → b.completed ≡ false → poll_frame b [] ≡ (pending, b, [])
  unfolding poll_frame
  poll_frame-dry h k = simp (h, k)

module _ ⦃m : BytesMutCapacity⦄ where
  -- After a leak every poll fails; after the end every poll says so.
  pub poll_times-detected :
      (n : ℕ) (b : ScanningBody) (inner : List (Poll Text))
      → b.detected ≡ true
      → poll_times n b inner ≡ repeat n leak
  unfolding poll_times
  poll_times-detected zero b inner h = refl
  poll_times-detected (suc n) b inner h =
      rw (poll_frame-detected b inner h, poll_times-detected n b inner h)

  pub poll_times-completed :
      (n : ℕ) (b : ScanningBody) (inner : List (Poll Text))
      → b.detected ≡ false
      → b.completed ≡ true
      → poll_times n b inner ≡ repeat n finished
  unfolding poll_times
  poll_times-completed zero b inner h k = refl
  poll_times-completed (suc n) b inner h k =
      rw (poll_frame-completed b inner h k, poll_times-completed n b inner h k)

  -- Header values are scanned as more of the stream.
  pub scan_header_values_iff :
      (headers : List (Text × Text)) (fed : Text) (sc : StreamScanner)
      → Scans fed sc
      → (((scan_header_values headers sc).0 ≡ true) ↔ OccursAny sc.patterns (fed ++ values headers))
        × ((scan_header_values headers sc).0 ≡ false
            → Scans (fed ++ values headers) (scan_header_values headers sc).1)
  unfolding scan_header_values scan_chunk
  scan_header_values_iff [] fed sc h = rw append-nil (((λ e. cc), λ o. absurd (h.clean o)), λ _. h)
  scan_header_values_iff ((name, value) ∷ headers) fed sc h =
      elim (Bool-cases (scan_chunk value false sc).0) [
        | inl found ↦
            rw (found, ← append_assoc fed value (values headers))
              (
                (
                  λ _.
                      OccursAny-append sc.patterns (fed ++ value) (values headers)
                        ((scan_chunk_iff fed value sc h).0 found),
                  λ _. refl,
                ),
                λ e. cc,
              )
        | inr nothing ↦
            rw (nothing, ← append_assoc fed value (values headers))
              (scan_header_values_iff headers (fed ++ value) (scan_chunk value false sc).1
                (scan_chunk-Scans fed value sc h nothing))
      ]

  patterns-scan_header_values :
      (headers : List (Text × Text)) (sc : StreamScanner)
      → (scan_header_values headers sc).1.patterns ≡ sc.patterns
  unfolding scan_header_values scan_chunk
  patterns-scan_header_values [] sc = refl
  patterns-scan_header_values ((name, value) ∷ headers) sc =
      ground (arith, patterns-scan_header_values headers (scan_chunk value false sc).1)

  pub patterns-scan_frame :
      (f : Frame) (sc : StreamScanner) → (scan_frame f sc).1.patterns ≡ sc.patterns
  unfolding scan_frame scan_chunk
  patterns-scan_frame (content s) sc = refl
  patterns-scan_frame (trailers headers) sc = patterns-scan_header_values headers sc

  pub scan_frame_iff :
      (f : Frame) (fed : Text) (sc : StreamScanner)
      → Scans fed sc
      → (((scan_frame f sc).0 ≡ true) ↔ OccursAny sc.patterns (fed ++ bytes f))
        × ((scan_frame f sc).0 ≡ false → Scans (fed ++ bytes f) (scan_frame f sc).1)
  unfolding scan_frame
  scan_frame_iff (content s) fed sc h = (scan_chunk_iff fed s sc h, scan_chunk-Scans fed s sc h)
  scan_frame_iff (trailers headers) fed sc h = scan_header_values_iff headers fed sc h

  pub scan_frame-eq-contains_any :
      (f : Frame) (fed : Text) (sc : StreamScanner)
      → Scans fed sc
      → (scan_frame f sc).0 ≡ contains_any sc.patterns (fed ++ bytes f)
  scan_frame-eq-contains_any f fed sc h =
      eq_of_iff _ _ (scan_frame_iff f fed sc h).0 (contains_any_iff sc.patterns (fed ++ bytes f))
