-- ===== src/Body/Reader.antt =====
-- `BodyReader` of crates/icebreaker-proxy/src/body/decompressing.rs, through which a decompressor
-- reads the upstream's body. The body is the list of its answers to successive polls.
pub mod Laws
use icebreaker.Common.{
  Text, length, take, drop, is_empty, ℕ, Bool, true, false, Option, none, some, List, [], ◌∷◌, ltb,
  leb, if◌then◌else◌,
}
use icebreaker.Body.Scanning.{content, trailers, Poll, pending, frame, failed, finished}

pub record BodyReader : Type 0 where
  pub body : List (Poll Text)
  pub chunk : Option Text
  pub eof : Bool
  pub error : Option Text

unfoldable pub new : List (Poll Text) → BodyReader
new body = record { body = body; chunk = none; eof = false; error = none }

-- `Poll<io::Result<..>>` with the bytes that were put out.
pub data IoPoll : Type 0 where
  waiting : IoPoll
  done : Text → IoPoll
  broken : (message : Text) → IoPoll

-- `poll_read` on the body's next answer, with room for `n` bytes.
unfoldable pub read_answer : ℕ → BodyReader → List (Poll Text) → IoPoll × BodyReader
read_answer n r [] = (waiting, record r { body = [] })
read_answer n r (pending ∷ rest) = (waiting, record r { body = rest })
read_answer n r (frame (trailers headers) ∷ rest) = (waiting, record r { body = rest })
read_answer n r (frame (content bytes) ∷ rest) =
    if is_empty bytes then (waiting, record r { body = rest }) else (
      done (take n bytes),
      record r {
        body = rest;
        chunk = if ltb n (length bytes) then some (drop n bytes) else r.chunk;
      },
    )
read_answer n r (failed e ∷ rest) = (broken e, record r { body = rest; eof = true })
read_answer n r (finished ∷ rest) = (done [], record r { body = rest; eof = true })

unfoldable pub read_body : ℕ → BodyReader → IoPoll × BodyReader
unfolding read_answer
read_body n r = if r.eof then (done [], r) else read_answer n r r.body

unfoldable pub read_chunk : ℕ → BodyReader → Option Text → IoPoll × BodyReader
unfolding read_body
read_chunk n r (some (c ∷ s)) = (done (take n (c ∷ s)), record r { chunk = some (drop n (c ∷ s)) })
read_chunk n r (some []) = read_body n (record r { chunk = none })
read_chunk n r none = read_body n r

unfoldable pub poll_read : ℕ → BodyReader → IoPoll × BodyReader
unfolding read_chunk
poll_read n r = elim r.error [
  | some e ↦ (broken e, record r { error = none })
  | none ↦ read_chunk n r r.chunk
]

-- `poll_fill_buf` on the body's next answer.
unfoldable pub fill_answer : BodyReader → List (Poll Text) → IoPoll × BodyReader
fill_answer r [] = (waiting, record r { body = [] })
fill_answer r (pending ∷ rest) = (waiting, record r { body = rest })
fill_answer r (frame (trailers headers) ∷ rest) = (waiting, record r { body = rest })
fill_answer r (frame (content bytes) ∷ rest) =
    if is_empty bytes
    then (waiting, record r { body = rest })
    else (done bytes, record r { body = rest; chunk = some bytes })
fill_answer r (failed e ∷ rest) = (broken e, record r { body = rest; eof = true })
fill_answer r (finished ∷ rest) = (done [], record r { body = rest; eof = true })

unfoldable pub fill_body : BodyReader → IoPoll × BodyReader
unfolding fill_answer
fill_body r = if r.eof then (done [], r) else fill_answer r r.body

unfoldable pub fill_chunk : BodyReader → Option Text → IoPoll × BodyReader
unfolding fill_body
fill_chunk r (some (c ∷ s)) = (done (c ∷ s), r)
fill_chunk r (some []) = fill_body r
fill_chunk r none = fill_body r

unfoldable pub poll_fill_buf : BodyReader → IoPoll × BodyReader
unfolding fill_chunk
poll_fill_buf r = elim r.error [
  | some e ↦ (broken e, record r { error = none })
  | none ↦ fill_chunk r r.chunk
]

abbrev after_consume : ℕ → Option Text → Option Text
after_consume amt none = none
after_consume amt (some chunk) = if leb (length chunk) amt then none else some (drop amt chunk)

unfoldable pub consume : ℕ → BodyReader → BodyReader
consume amt r = record r { chunk = after_consume amt r.chunk }
