-- ===== src/Body/Tests.antt =====
-- Runs of the scanner and of the scanning body, and the theorems about them at concrete inputs.
use icebreaker.Common.{
  Text, codes, text_eq, All, ◌≡◌, ◌≢◌, ◌↔◌, refl, true, false, List, [], ◌∷◌, arith, max,
}
use icebreaker.Body.Pattern.{contains_pattern, windows}
use icebreaker.Body.OverlapBuffer
use icebreaker.Body.OverlapBuffer.{BytesMutCapacity, process, next_overlap}
use icebreaker.Body.Scanner
use icebreaker.Body.Scanner.{max_pattern_len, contains_any, scan_chunk, add_pattern}
use icebreaker.Body.Scanner.Stream.{OccursAny, concat, detects, detects_iff}
use icebreaker.Body.Scanning
use icebreaker.Body.Scanning.{
  Poll, pending, frame, failed, finished, content, trailers, other, leak, scan_frame,
  scan_header_values, on_answer, poll_frame, poll_times, with_scanner,
}
use icebreaker.Body.Scanning.Reference.{reference, delivered, poll_times-reference, delivered-clean}

-- A buffer that reserves what it is asked for.
instance abbrev exact : BytesMutCapacity
exact = record {
  with_capacity = λ n. n;
  extended = λ c n. max c n;
  le-with_capacity = λ n. omega arith;
  le-extended = λ c n. omega arith;
}

abbrev secret : List Text
secret = codes "sk-1" ∷ []

secret-ne : All (λ p. p ≢ []) secret
secret-ne = ((λ e. cc), tt)

abbrev cut_secret : List Text
cut_secret = codes "key=s" ∷ codes "k" ∷ codes "-1;" ∷ []

body : Unit {0}
unfolding contains_pattern windows OverlapBuffer.new process next_overlap Scanner.new
    max_pattern_len contains_any scan_chunk text_eq detects with_scanner Scanning.new
    scan_header_values scan_frame on_answer poll_frame poll_times add_pattern
body = tt

detects_tests :
    (detects (Scanner.new secret) cut_secret ≡ true)
    × (detects (Scanner.new secret) (codes "key=s" ∷ codes "k 1;" ∷ []) ≡ false)
unfolding body
detects_tests = (refl, refl)

abbrev answers : List (Poll Text)
answers = frame (content (codes "a=s")) ∷ pending ∷ frame (content (codes "k-1")) ∷ finished ∷ []

leak_across_frames :
    poll_times 5 (Scanning.new secret) answers
    ≡ frame (content (codes "a=s")) ∷ pending ∷ leak ∷ leak ∷ leak ∷ []
unfolding body
leak_across_frames = refl

clean_response :
    poll_times 4 (Scanning.new secret) (
      frame (content (codes "ok"))
      ∷ failed (codes "io")
      ∷ frame (trailers ((codes "t", codes "v") ∷ []))
      ∷ finished
      ∷ [])
    ≡ frame (content (codes "ok"))
      ∷ failed (other (codes "io"))
      ∷ frame (trailers ((codes "t", codes "v") ∷ []))
      ∷ finished
      ∷ []
unfolding body
clean_response = refl

detects_iff_example :
    (detects (Scanner.new secret) cut_secret ≡ true) ↔ OccursAny secret (concat cut_secret)
detects_iff_example = detects_iff secret cut_secret secret-ne

poll_times-reference_example :
    poll_times 5 (Scanning.new secret) answers ≡ reference secret [] 5 answers
poll_times-reference_example = poll_times-reference secret 5 answers secret-ne

delivered-clean_example :
    ¬ OccursAny secret (delivered (poll_times 5 (Scanning.new secret) answers))
delivered-clean_example = delivered-clean secret 5 answers secret-ne
