-- ===== src/Body/Decompressing.antt =====
-- `DecompressingBody` of crates/icebreaker-proxy/src/body/decompressing.rs.
pub mod Laws
use icebreaker.Common.{
  Text, codes, length, ℕ, zero, suc, ◌+◌, ◌-◌, ◌^◌, ◌≤◌, ◌≡◌, min, Bool, true, false, List, [], ◌∷◌,
  ◌++◌, ltb, if◌then◌else◌,
}
use icebreaker.Body.Scanning.{content, trailers, Poll, pending, frame, failed, finished}
use icebreaker.Body.Reader as Reader
use icebreaker.Body.Reader.{BodyReader, IoPoll, waiting, done, broken}

-- The crate `async-compression`: decoders that own a reader. A read puts out no more than there is
-- room for.
pub record DecoderCrate : Type 1 where
  pub Decoder : Type 0
  pub gzip_decoder : BodyReader → Decoder
  pub zlib_decoder : BodyReader → Decoder
  pub brotli_decoder : BodyReader → Decoder
  pub zstd_decoder : BodyReader → Decoder
  pub poll_read : (room : ℕ) → Decoder → IoPoll × Decoder
  pub poll_read-fits :
      (room : ℕ) (d : Decoder) (bytes : Text)
      → (poll_read room d).0 ≡ done bytes
      → length bytes ≤ room

-- `MAX_DECOMPRESSED_SIZE` and `DECOMPRESS_CHUNK_SIZE`
abbrev pub max_decompressed_size : ℕ
max_decompressed_size = 104_857_600

abbrev pub decompress_chunk_size : ℕ
decompress_chunk_size = 8_192

-- The texts of `DecompressError`
abbrev pub size_limit_exceeded : Text
size_limit_exceeded = codes "decompressed size exceeded maximum of 104857600 bytes"

abbrev pub io_error : Text → Text
io_error message = codes "decompression I/O error: " ++ message

-- `u64::saturating_add`
abbrev pub saturating_add : ℕ → ℕ → ℕ
saturating_add a b = min (a + b) (2 ^ 64 - 1)

-- `WrapBody::poll_frame` on what the decoder answers.
unfoldable pub wrapped_answer : IoPoll → Poll Text
wrapped_answer waiting = pending
wrapped_answer (done []) = finished
wrapped_answer (done (c ∷ s)) = frame (content (c ∷ s))
wrapped_answer (broken message) = failed (io_error message)

-- `poll_decompressing_frame` on the wrapped body's answer: the answer, the bytes so far and whether
-- the body is complete.
unfoldable pub account : Poll Text → ℕ → Poll Text × ℕ × Bool
account pending total = (pending, total, false)
account (frame (content bytes)) total =
    let total' = saturating_add total (length bytes) in
    if ltb max_decompressed_size total'
    then (failed size_limit_exceeded, total', true)
    else (frame (content bytes), total', false)
account (frame (trailers headers)) total = (frame (trailers headers), total, false)
account (failed e) total = (failed e, total, true)
account finished total = (finished, total, true)

module _ ⦃c : DecoderCrate⦄ where
  pub data DecompressInner : Type 0 where
    identity : List (Poll Text) → DecompressInner
    gzip : c.Decoder → DecompressInner
    deflate : c.Decoder → DecompressInner
    brotli : c.Decoder → DecompressInner
    zstd : c.Decoder → DecompressInner

  pub record DecompressingBody : Type 0 where
    pub inner : DecompressInner
    pub decompressed_bytes : ℕ
    pub completed : Bool

  abbrev fresh : DecompressInner → DecompressingBody
  fresh inner = record { inner = inner; decompressed_bytes = 0; completed = false }

  unfoldable pub identity_body : List (Poll Text) → DecompressingBody
  identity_body body = fresh (identity body)

  unfoldable pub gzip_body : List (Poll Text) → DecompressingBody
  unfolding Reader.new
  gzip_body body = fresh (gzip (c.gzip_decoder (Reader.new body)))

  unfoldable pub deflate_body : List (Poll Text) → DecompressingBody
  unfolding Reader.new
  deflate_body body = fresh (deflate (c.zlib_decoder (Reader.new body)))

  unfoldable pub brotli_body : List (Poll Text) → DecompressingBody
  unfolding Reader.new
  brotli_body body = fresh (brotli (c.brotli_decoder (Reader.new body)))

  unfoldable pub zstd_body : List (Poll Text) → DecompressingBody
  unfolding Reader.new
  zstd_body body = fresh (zstd (c.zstd_decoder (Reader.new body)))

  -- One read of a decoder, wrapped, with the decoder put back.
  unfoldable pub poll_decoder :
      (c.Decoder → DecompressInner) → c.Decoder → ℕ → Poll Text × DecompressingBody
  unfolding wrapped_answer account
  poll_decoder put_back d total =
      let (read, d') = c.poll_read decompress_chunk_size d in
      let (answer, total', completed) = account (wrapped_answer read) total in
      (answer, record { inner = put_back d'; decompressed_bytes = total'; completed = completed })

  unfoldable pub poll_identity : List (Poll Text) → ℕ → Poll Text × DecompressingBody
  poll_identity [] total =
      (pending, record { inner = identity []; decompressed_bytes = total; completed = false })
  poll_identity (finished ∷ rest) total =
      (finished, record { inner = identity rest; decompressed_bytes = total; completed = true })
  poll_identity (answer ∷ rest) total =
      (answer, record { inner = identity rest; decompressed_bytes = total; completed = false })

  unfoldable pub poll_inner : DecompressInner → ℕ → Poll Text × DecompressingBody
  unfolding poll_decoder poll_identity
  poll_inner (identity body) total = poll_identity body total
  poll_inner (gzip d) total = poll_decoder gzip d total
  poll_inner (deflate d) total = poll_decoder deflate d total
  poll_inner (brotli d) total = poll_decoder brotli d total
  poll_inner (zstd d) total = poll_decoder zstd d total

  unfoldable pub poll_frame : DecompressingBody → Poll Text × DecompressingBody
  unfolding poll_inner
  poll_frame b = if b.completed then (finished, b) else poll_inner b.inner b.decompressed_bytes

  unfoldable pub is_end_stream : DecompressingBody → Bool
  is_end_stream b = b.completed

  -- The answers to `n` polls.
  unfoldable pub answers : ℕ → DecompressingBody → List (Poll Text)
  unfolding poll_frame
  answers zero b = []
  answers (suc n) b = let (answer, b') = poll_frame b in answer ∷ answers n b'
