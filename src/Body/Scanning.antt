-- ===== src/Body/Scanning.antt =====
-- `ScanningBody` of crates/icebreaker-proxy/src/body/scanning.rs. The inner body is the list of
-- its answers to successive polls; past the end of the list it stays pending.
pub mod Reference
pub mod Frames
use icebreaker.Common.{
  Text, ℕ, zero, suc, Bool, true, false, List, [], ◌∷◌, ◌++◌, ◌||◌, if◌then◌else◌,
}
use icebreaker.Errors.{TokenizerError, secret_leak_detected}
use icebreaker.Body.OverlapBuffer.{BytesMutCapacity}
use icebreaker.Body.Scanner
use icebreaker.Body.Scanner.{StreamScanner, scan_chunk}

-- A frame of `http_body`: data, or trailers as pairs of a name and a value.
pub data Frame : Type 0 where
  content : Text → Frame
  trailers : List (Text × Text) → Frame

-- `Poll<Option<Result<Frame, E>>>`
pub data Poll (E : Type 0) : Type 0 where
  pending : Poll E
  frame : Frame → Poll E
  failed : E → Poll E
  finished : Poll E

-- The boxed error of a scanning body: one of the proxy's, or the inner body's own.
pub data BoxError : Type 0 where
  tokenizer : TokenizerError → BoxError
  other : Text → BoxError

module _ ⦃m : BytesMutCapacity⦄ where
  unfoldable pub scan_header_values : List (Text × Text) → StreamScanner → Bool × StreamScanner
  scan_header_values [] scanner = (false, scanner)
  scan_header_values ((name, value) ∷ headers) scanner =
      let (found, scanner') = scan_chunk value false scanner in
      let rest = scan_header_values headers scanner' in if found then (true, scanner') else rest

pub record ScanningBody : Type 0 where
  pub scanner : StreamScanner
  pub detected : Bool
  pub completed : Bool

unfoldable pub with_scanner : StreamScanner → ScanningBody
with_scanner scanner = record { scanner = scanner; detected = false; completed = false }

unfoldable pub new : ⦃m : BytesMutCapacity⦄ → List Text → ScanningBody
unfolding with_scanner
new patterns = with_scanner (Scanner.new patterns)

unfoldable pub secret_detected : ScanningBody → Bool
secret_detected b = b.detected

unfoldable pub is_end_stream : ScanningBody → Bool
is_end_stream b = b.completed || b.detected

abbrev pub leak : Poll BoxError
leak = failed (tokenizer secret_leak_detected)

module _ ⦃m : BytesMutCapacity⦄ where
  -- The scan of one frame.
  unfoldable pub scan_frame : Frame → StreamScanner → Bool × StreamScanner
  unfolding scan_header_values
  scan_frame (content bytes) scanner = scan_chunk bytes false scanner
  scan_frame (trailers headers) scanner = scan_header_values headers scanner

  -- The `match` of `poll_frame` on the inner body's answer.
  unfoldable pub on_answer : Poll Text → ScanningBody → Poll BoxError × ScanningBody
  on_answer pending b = (pending, b)
  on_answer (frame f) b =
      let (found, scanner) = scan_frame f b.scanner in
      if found
      then (leak, record b { scanner = scanner; detected = true })
      else (frame f, record b { scanner = scanner })
  on_answer (failed e) b = (failed (other e), b)
  on_answer finished b =
      let (found, scanner) = scan_chunk [] true b.scanner in
      if found
      then (leak, record { scanner = scanner; detected = true; completed = true })
      else (finished, record b { scanner = scanner; completed = true })

  -- One poll: the answer, the body after it, and what is left of the inner body.
  unfoldable pub poll_frame :
      ScanningBody → List (Poll Text) → Poll BoxError × ScanningBody × List (Poll Text)
  poll_frame b [] =
      if b.detected
      then (leak, b, [])
      else if b.completed
      then (finished, b, [])
      else (pending, b, [])
  poll_frame b (a ∷ inner) =
      if b.detected
      then (leak, b, a ∷ inner)
      else if b.completed
      then (finished, b, a ∷ inner)
      else (let (answer, b') = on_answer a b in (answer, b', inner))

  -- The answers to `n` polls.
  unfoldable pub poll_times : ℕ → ScanningBody → List (Poll Text) → List (Poll BoxError)
  poll_times zero b inner = []
  poll_times (suc n) b inner =
      let (answer, b', inner') = poll_frame b inner in answer ∷ poll_times n b' inner'
