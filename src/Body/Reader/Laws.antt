-- ===== src/Body/Reader/Laws.antt =====
-- The bytes that a decompressor gets from a body.
use icebreaker.Common.{
  Text, length, take, drop, take-append-drop, ℕ, zero, suc, ◌≤◌, ◌≡◌, ◌∙◌, refl, sym, ap, Bool,
  Option, none, some, List, [], ◌∷◌, ◌++◌, arith, append_assoc, Option-cases, Bool-cases, inl, inr,
  ltb, leb, if◌then◌else◌,
}
use icebreaker.Body.Scanning.{content, trailers, Poll, pending, frame, failed, finished}
use icebreaker.Body.Reader.{
  BodyReader, IoPoll, waiting, done, broken, read_answer, read_body, read_chunk, poll_read,
  fill_answer, fill_body, fill_chunk, poll_fill_buf, consume,
}

-- One use of the reader by a decompressor.
pub data Use : Type 0 where
  read : (room : ℕ) → Use
  fill : Use
  consumes : (amt : ℕ) → Use

-- The bytes in the data frames of a body.
abbrev pub contents : List (Poll Text) → Text
contents [] = []
contents (frame (content bytes) ∷ rest) = bytes ++ contents rest
contents (frame (trailers headers) ∷ rest) = contents rest
contents (pending ∷ rest) = contents rest
contents (failed e ∷ rest) = contents rest
contents (finished ∷ rest) = contents rest

abbrev pub or_empty : Option Text → Text
or_empty none = []
or_empty (some s) = s

abbrev put_out : IoPoll → Text
put_out (done bytes) = bytes
put_out waiting = []
put_out (broken e) = []

-- What a use takes out of the reader: the bytes that are read, or that are consumed of the chunk.
unfoldable pub use_once : Use → BodyReader → Text × BodyReader
unfolding poll_read poll_fill_buf consume
use_once (read room) r = let (answer, r') = poll_read room r in (put_out answer, r')
use_once fill r = let (answer, r') = poll_fill_buf r in ([], r')
use_once (consumes amt) r = (take amt (or_empty r.chunk), consume amt r)

unfoldable pub uses : List Use → BodyReader → Text × BodyReader
unfolding use_once
uses [] r = ([], r)
uses (u ∷ us) r =
    let (taken, r') = use_once u r in let (rest, r'') = uses us r' in (taken ++ rest, r'')

-- What the reader still holds.
abbrev pub left : BodyReader → Text
left r = or_empty r.chunk ++ contents r.body

take_all : (n : ℕ) (s : Text) → length s ≤ n → take n s ≡ s
take_all zero [] le = refl
take_all (suc n) [] le = refl
take_all zero (c ∷ s) le = absurd (omega arith)
take_all (suc n) (c ∷ s) le = ap (λ (t : Text). c ∷ t) (take_all n s (omega arith))

take_nil : (n : ℕ) → take {A = ℕ} n [] ≡ []
take_nil zero = refl
take_nil (suc n) = refl

split : (n : ℕ) (s t : Text) → take n s ++ (drop n s ++ t) ≡ s ++ t
split n s t =
    sym (append_assoc (take n s) (drop n s) t) ∙ ap (λ (u : Text). u ++ t) (take-append-drop n s)

read_answer-left :
    (n : ℕ) (r : BodyReader) (body : List (Poll Text))
    → r.chunk ≡ none
    → put_out (read_answer n r body).0 ++ left (read_answer n r body).1 ≡ contents body
unfolding read_answer
read_answer-left n r [] e = ground (arith, e)
read_answer-left n r (pending ∷ rest) e = ground (arith, e)
read_answer-left n r (frame (trailers headers) ∷ rest) e = ground (arith, e)
read_answer-left n r (frame (content []) ∷ rest) e = ground (arith, e)
read_answer-left n r (frame (content (c ∷ s)) ∷ rest) e =
    elim (Bool-cases (ltb n (length (c ∷ s)))) [
      | inl some_left ↦ rw some_left (split n (c ∷ s) (contents rest))
      | inr all' ↦
          let whole : take n (c ∷ s) ≡ c ∷ s = take_all n (c ∷ s) (ground (arith, all')) in
          rw all' (rw e (rw whole refl))
    ]
read_answer-left n r (failed x ∷ rest) e = ground (arith, e)
read_answer-left n r (finished ∷ rest) e = ground (arith, e)

read_body-left :
    (n : ℕ) (r : BodyReader)
    → r.chunk ≡ none
    → put_out (read_body n r).0 ++ left (read_body n r).1 ≡ left r
unfolding read_body
read_body-left n r e = elim (Bool-cases r.eof) [
  | inl t ↦ rw t refl
  | inr f ↦
      let answered : read_body n r ≡ read_answer n r r.body =
        ap (λ (b : Bool). if b then (done [], r) else read_answer n r r.body) f in
      ap (λ (x : IoPoll × BodyReader). put_out x.0 ++ left x.1) answered
      ∙ (read_answer-left n r r.body e
          ∙ sym (ap (λ (c : Option Text). or_empty c ++ contents r.body) e))
]

read_chunk-left :
    (n : ℕ) (r : BodyReader) (chunk : Option Text)
    → r.chunk ≡ chunk
    → put_out (read_chunk n r chunk).0 ++ left (read_chunk n r chunk).1 ≡ left r
unfolding read_chunk
read_chunk-left n r (some (c ∷ s)) e = rw e (split n (c ∷ s) (contents r.body))
read_chunk-left n r (some []) e = rw e (read_body-left n (record r { chunk = none }) refl)
read_chunk-left n r none e = read_body-left n r e

fill_answer-left :
    (r : BodyReader) (body : List (Poll Text))
    → or_empty r.chunk ≡ []
    → left (fill_answer r body).1 ≡ contents body
unfolding fill_answer
fill_answer-left r [] e = ground (arith, e)
fill_answer-left r (pending ∷ rest) e = ground (arith, e)
fill_answer-left r (frame (trailers headers) ∷ rest) e = ground (arith, e)
fill_answer-left r (frame (content []) ∷ rest) e = ground (arith, e)
fill_answer-left r (frame (content (c ∷ s)) ∷ rest) e = refl
fill_answer-left r (failed x ∷ rest) e = ground (arith, e)
fill_answer-left r (finished ∷ rest) e = ground (arith, e)

fill_body-left : (r : BodyReader) → or_empty r.chunk ≡ [] → left (fill_body r).1 ≡ left r
unfolding fill_body
fill_body-left r e = elim (Bool-cases r.eof) [
  | inl t ↦ rw t refl
  | inr f ↦
      let answered : fill_body r ≡ fill_answer r r.body =
        ap (λ (b : Bool). if b then (done [], r) else fill_answer r r.body) f in
      ap (λ (x : IoPoll × BodyReader). left x.1) answered
      ∙ (fill_answer-left r r.body e ∙ sym (ap (λ (s : Text). s ++ contents r.body) e))
]

fill_chunk-left :
    (r : BodyReader) (chunk : Option Text) → r.chunk ≡ chunk → left (fill_chunk r chunk).1 ≡ left r
unfolding fill_chunk
fill_chunk-left r (some (c ∷ s)) e = refl
fill_chunk-left r (some []) e = fill_body-left r (ap or_empty e)
fill_chunk-left r none e = fill_body-left r (ap or_empty e)

consume-left :
    (amt : ℕ) (r : BodyReader) → take amt (or_empty r.chunk) ++ left (consume amt r) ≡ left r
unfolding consume
consume-left amt r = elim (Option-cases r.chunk) [
  | inl e ↦ rw e (rw (take_nil amt) refl)
  | inr (chunk, e) ↦ elim (Bool-cases (leb (length chunk) amt)) [
    | inl all' ↦
        let whole : take amt chunk ≡ chunk = take_all amt chunk (ground (arith, all')) in
        rw e (rw all' (rw whole refl))
    | inr part ↦ rw e (rw part (split amt chunk (contents r.body)))
  ]
]

use_once-left : (u : Use) (r : BodyReader) → (use_once u r).0 ++ left (use_once u r).1 ≡ left r
unfolding use_once poll_read poll_fill_buf
use_once-left (read room) r = elim (Option-cases r.error) [
  | inl e ↦
      let answered : poll_read room r ≡ read_chunk room r r.chunk = ground (arith, e) in
      ap (λ (x : IoPoll × BodyReader). put_out x.0 ++ left x.1) answered
      ∙ read_chunk-left room r r.chunk refl
  | inr (x, e) ↦ rw e refl
]
use_once-left fill r = elim (Option-cases r.error) [
  | inl e ↦
      let answered : poll_fill_buf r ≡ fill_chunk r r.chunk = ground (arith, e) in
      ap (λ (x : IoPoll × BodyReader). left x.1) answered ∙ fill_chunk-left r r.chunk refl
  | inr (x, e) ↦ rw e refl
]
use_once-left (consumes amt) r = consume-left amt r

-- Whatever calls a decompressor makes of the reader, in whatever order: the bytes that it has taken,
-- what the reader holds and what the body still has to give are together, in order, the data of the
-- body. No byte is lost, doubled or moved.
pub uses-conserve : (us : List Use) (r : BodyReader) → (uses us r).0 ++ left (uses us r).1 ≡ left r
unfolding uses
uses-conserve [] r = refl
uses-conserve (u ∷ us) r =
    append_assoc (use_once u r).0 (uses us (use_once u r).1).0 (left (uses us (use_once u r).1).1)
    ∙ (ap (λ (s : Text). (use_once u r).0 ++ s) (uses-conserve us (use_once u r).1)
        ∙ use_once-left u r)
