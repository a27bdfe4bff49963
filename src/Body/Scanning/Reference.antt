-- ===== src/Body/Scanning/Reference.antt =====
-- The scanning body against a reference that keeps the whole response.
use mathlib.Core.Bool.{false≢true}
use icebreaker.Common.{
  Text, All, ℕ, zero, suc, ◌≡◌, ◌≢◌, refl, sym, ap, ◌∙◌, true, false, List, [], ◌∷◌, ◌++◌,
  append_assoc, append-nil, if◌then◌else◌, Bool-cases, inl, inr,
}
use icebreaker.Body.OverlapBuffer.{BytesMutCapacity}
use icebreaker.Body.Scanner
use icebreaker.Body.Scanner.{contains_any, scan_chunk}
use icebreaker.Body.Scanner.Stream.{
  OccursAny, Scans, scan_last-eq-false, new-Scans, contains_any_iff, clean_nil,
}
use icebreaker.Body.Scanning
use icebreaker.Body.Scanning.{
  Frame, Poll, pending, frame, failed, finished, BoxError, other, leak, scan_frame, ScanningBody,
  on_answer, poll_times,
}
use icebreaker.Body.Scanning.Frames.{
  bytes, repeat, poll_frame-open, poll_frame-dry, poll_times-detected, poll_times-completed,
  patterns-scan_frame, scan_frame_iff, scan_frame-eq-contains_any,
}

-- The bytes of all frames among the answers.
unfoldable pub delivered : List (Poll BoxError) → Text
delivered [] = []
delivered (frame f ∷ answers) = bytes f ++ delivered answers
delivered (a ∷ answers) = delivered answers

-- What a body answers that searches all the bytes so far at each frame: frames pass until a
-- pattern stands in the stream, and from then on every poll fails.
unfoldable pub reference : List Text → Text → ℕ → List (Poll Text) → List (Poll BoxError)
reference ps fed zero inner = []
reference ps fed (suc n) [] = pending ∷ reference ps fed n []
reference ps fed (suc n) (pending ∷ inner) = pending ∷ reference ps fed n inner
reference ps fed (suc n) (failed e ∷ inner) = failed (other e) ∷ reference ps fed n inner
reference ps fed (suc n) (finished ∷ inner) = finished ∷ repeat n finished
reference ps fed (suc n) (frame f ∷ inner) =
    let passed = frame f ∷ reference ps (fed ++ bytes f) n inner in
    if contains_any ps (fed ++ bytes f) then leak ∷ repeat n leak else passed

module _ ⦃m : BytesMutCapacity⦄ where
  -- While nothing was found, the body is open and has fed its scanner all that it passed on.
  record IsOpen (ps : List Text) (fed : Text) (b : ScanningBody) : Type 0 where
    scans : Scans fed b.scanner
    same : b.scanner.patterns ≡ ps
    clean : b.detected ≡ false
    going : b.completed ≡ false

  on_answer-leak :
      (f : Frame) (b : ScanningBody)
      → (scan_frame f b.scanner).0 ≡ true
      → on_answer (frame f) b
        ≡ (leak, record b { scanner = (scan_frame f b.scanner).1; detected = true })
  unfolding on_answer
  on_answer-leak f b h = rw h

  on_answer-pass :
      (f : Frame) (b : ScanningBody)
      → (scan_frame f b.scanner).0 ≡ false
      → on_answer (frame f) b ≡ (frame f, record b { scanner = (scan_frame f b.scanner).1 })
  unfolding on_answer
  on_answer-pass f b h = rw h

  on_answer-finished :
      (ps : List Text) (fed : Text) (b : ScanningBody)
      → IsOpen ps fed b
      → on_answer finished b
        ≡ (finished, record b { scanner = (scan_chunk [] true b.scanner).1; completed = true })
  unfolding on_answer
  on_answer-finished ps fed b o = rw (scan_last-eq-false fed [] b.scanner o.scans)

  open_scan :
      (ps : List Text) (fed : Text) (f : Frame) (b : ScanningBody)
      → IsOpen ps fed b
      → (scan_frame f b.scanner).0 ≡ contains_any ps (fed ++ bytes f)
  open_scan ps fed f b o =
      scan_frame-eq-contains_any f fed b.scanner o.scans
      ∙ ap (λ (qs : List Text). contains_any qs (fed ++ bytes f)) o.same

  pass-IsOpen :
      (ps : List Text) (fed : Text) (f : Frame) (b : ScanningBody)
      → IsOpen ps fed b
      → (scan_frame f b.scanner).0 ≡ false
      → IsOpen ps (fed ++ bytes f) (record b { scanner = (scan_frame f b.scanner).1 })
  pass-IsOpen ps fed f b o nothing = record {
    scans = (scan_frame_iff f fed b.scanner o.scans).1 nothing;
    same = patterns-scan_frame f b.scanner ∙ o.same;
    clean = o.clean;
    going = o.going;
  }

  poll_times-eq-reference :
      (ps : List Text) (fed : Text) (n : ℕ) (b : ScanningBody) (inner : List (Poll Text))
      → IsOpen ps fed b
      → poll_times n b inner ≡ reference ps fed n inner
  unfolding poll_times reference on_answer
  poll_times-eq-reference ps fed zero b inner o = refl
  poll_times-eq-reference ps fed (suc n) b [] o =
      rw (poll_frame-dry b o.clean o.going, poll_times-eq-reference ps fed n b [] o)
  poll_times-eq-reference ps fed (suc n) b (pending ∷ inner) o =
      rw (poll_frame-open b pending inner o.clean o.going)
        (rw (poll_times-eq-reference ps fed n b inner o))
  poll_times-eq-reference ps fed (suc n) b (failed e ∷ inner) o =
      rw (poll_frame-open b (failed e) inner o.clean o.going)
        (rw (poll_times-eq-reference ps fed n b inner o))
  poll_times-eq-reference ps fed (suc n) b (finished ∷ inner) o = rw (
    poll_frame-open b finished inner o.clean o.going,
    on_answer-finished ps fed b o,
    poll_times-completed n
        (record b { scanner = (scan_chunk [] true b.scanner).1; completed = true }) inner o.clean
        refl,
  )
  poll_times-eq-reference ps fed (suc n) b (frame f ∷ inner) o =
      elim (Bool-cases (scan_frame f b.scanner).0) [
        | inl found ↦ rw (
          poll_frame-open b (frame f) inner o.clean o.going,
          on_answer-leak f b found,
          ← open_scan ps fed f b o,
          found,
          poll_times-detected n (record b { scanner = (scan_frame f b.scanner).1; detected = true })
              inner refl,
        )
        | inr nothing ↦
            let b' : ScanningBody = record b { scanner = (scan_frame f b.scanner).1 } in
            rw (
              poll_frame-open b (frame f) inner o.clean o.going,
              on_answer-pass f b nothing,
              ← open_scan ps fed f b o,
              nothing,
              poll_times-eq-reference ps (fed ++ bytes f) n b' inner
                  (pass-IsOpen ps fed f b o nothing),
            )
      ]

new-IsOpen :
    ⦃m : BytesMutCapacity⦄ (ps : List Text) → All (λ p. p ≢ []) ps → IsOpen ps [] (Scanning.new ps)
unfolding Scanning.new Scanner.new
new-IsOpen ps h = record { scans = new-Scans ps h; same = refl; clean = refl; going = refl }

-- Polled any number of times, over an inner body that answers anything, a scanning body for
-- non-empty patterns answers as the reference does that searches the whole response: it passes
-- frames, delays, errors and the end on unchanged until a pattern stands in the bytes of the
-- frames so far, and from that frame on every poll fails with the leak error.
pub poll_times-reference :
    ⦃m : BytesMutCapacity⦄ (ps : List Text) (n : ℕ) (inner : List (Poll Text))
    → All (λ p. p ≢ []) ps
    → poll_times n (Scanning.new ps) inner ≡ reference ps [] n inner
poll_times-reference ps n inner h =
    poll_times-eq-reference ps [] n (Scanning.new ps) inner (new-IsOpen ps h)

delivered-repeat :
    (n : ℕ) (a : Poll BoxError) → delivered (a ∷ []) ≡ [] → delivered (repeat n a) ≡ []
unfolding delivered
delivered-repeat zero a h = refl
delivered-repeat (suc n) pending h = delivered-repeat n pending h
delivered-repeat (suc n) (failed e) h = delivered-repeat n (failed e) h
delivered-repeat (suc n) finished h = delivered-repeat n finished h
delivered-repeat (suc n) (frame f) h = rw (delivered-repeat n (frame f) h) h

delivered-reference :
    (ps : List Text) (fed : Text) (n : ℕ) (inner : List (Poll Text))
    → ¬ OccursAny ps fed
    → ¬ OccursAny ps (fed ++ delivered (reference ps fed n inner))
unfolding delivered reference
delivered-reference ps fed zero inner h = rw append-nil h
delivered-reference ps fed (suc n) [] h = delivered-reference ps fed n [] h
delivered-reference ps fed (suc n) (pending ∷ inner) h = delivered-reference ps fed n inner h
delivered-reference ps fed (suc n) (failed e ∷ inner) h = delivered-reference ps fed n inner h
delivered-reference ps fed (suc n) (finished ∷ inner) h =
    rw (delivered-repeat n finished refl, append-nil) h
delivered-reference ps fed (suc n) (frame f ∷ inner) h =
    elim (Bool-cases (contains_any ps (fed ++ bytes f))) [
      | inl found ↦ rw (found, delivered-repeat n leak refl, append-nil) h
      | inr nothing ↦
          rw
            (
              nothing,
              ← append_assoc fed (bytes f) (delivered (reference ps (fed ++ bytes f) n inner)),
            )
            (delivered-reference ps (fed ++ bytes f) n inner
              (λ o. false≢true (sym nothing ∙ (contains_any_iff ps (fed ++ bytes f)).1 o)))
    ]

-- However the response is cut into frames, no pattern stands in the bytes that a scanning body
-- for non-empty patterns has delivered after any number of polls, in data or trailer values.
pub delivered-clean :
    ⦃m : BytesMutCapacity⦄ (ps : List Text) (n : ℕ) (inner : List (Poll Text))
    → All (λ p. p ≢ []) ps
    → ¬ OccursAny ps (delivered (poll_times n (Scanning.new ps) inner))
delivered-clean ps n inner h =
    rw (poll_times-reference ps n inner h) (delivered-reference ps [] n inner (clean_nil ps h))
