-- ===== src/Body/Decompressing/Laws.antt =====
-- How much a decompressing body gives, and what it answers at its end.
use icebreaker.Common.{
  Text, length, length-append, ℕ, zero, suc, ◌+◌, ◌≤◌, ◌≡◌, ◌∙◌, refl, sym, ap, subst, Bool, true,
  false, List, [], ◌∷◌, arith, Bool-cases, inl, inr, ltb, if◌then◌else◌,
}
use icebreaker.Body.Scanning.{content, trailers, Poll, pending, frame, failed, finished}
use icebreaker.Body.Reader.Laws.{contents}
use icebreaker.Body.Decompressing.{
  DecoderCrate, max_decompressed_size, saturating_add, account, DecompressInner, identity, gzip,
  deflate, brotli, zstd, DecompressingBody, poll_decoder, poll_inner, poll_frame, is_end_stream,
  answers, gzip_body, deflate_body, brotli_body, zstd_body,
}

module _ ⦃c : DecoderCrate⦄ where
  -- The body decompresses.
  abbrev pub is_compressed : DecompressInner → Bool
  is_compressed (identity body) = false
  is_compressed (gzip d) = true
  is_compressed (deflate d) = true
  is_compressed (brotli d) = true
  is_compressed (zstd d) = true

  -- The bytes of the data in one answer.
  abbrev given : Poll Text → ℕ
  given answer = length (contents (answer ∷ []))

  account-Bounded :
      (answer : Poll Text) (total : ℕ)
      → total ≤ max_decompressed_size
      → let (answer', total', completed) = account answer total in
        (total + given answer' ≤ max_decompressed_size)
        × ((completed ≡ false) → total' ≡ total + given answer')
  unfolding account
  account-Bounded pending total le = ground arith
  account-Bounded (frame (content bytes)) total le =
      elim (Bool-cases (ltb max_decompressed_size (saturating_add total (length bytes)))) [
        | inl over ↦ rw over (ground arith)
        | inr fits ↦
            let small : saturating_add total (length bytes) ≤ max_decompressed_size =
              ground (arith, fits) in
            let exact : saturating_add total (length bytes) ≡ total + length bytes =
              omega (arith, small) in
            let whole = length-append bytes [] in
            rw fits (omega (arith, small, exact, whole), λ _. omega (arith, exact, whole))
      ]
  account-Bounded (frame (trailers headers)) total le = ground arith
  account-Bounded (failed e) total le = ground arith
  account-Bounded finished total le = ground arith

  -- One poll gives no more than is left of the limit, and counts what it gives.
  abbrev Step : ℕ → Poll Text × DecompressingBody → Type 0
  Step total result =
      (is_compressed result.1.inner ≡ true)
      × ((total + given result.0 ≤ max_decompressed_size)
          × ((result.1.completed ≡ false) → result.1.decompressed_bytes ≡ total + given result.0))

  poll_inner-Step :
      (inner : DecompressInner) (total : ℕ)
      → is_compressed inner ≡ true
      → total ≤ max_decompressed_size
      → Step total (poll_inner inner total)
  unfolding poll_inner poll_decoder
  poll_inner-Step (identity body) total e le = absurd (ground arith)
  poll_inner-Step (gzip d) total e le = (refl, account-Bounded _ total le)
  poll_inner-Step (deflate d) total e le = (refl, account-Bounded _ total le)
  poll_inner-Step (brotli d) total e le = (refl, account-Bounded _ total le)
  poll_inner-Step (zstd d) total e le = (refl, account-Bounded _ total le)

  given-cons :
      (answer : Poll Text) (rest : List (Poll Text))
      → length (contents (answer ∷ rest)) ≡ given answer + length (contents rest)
  given-cons pending rest = omega arith
  given-cons (frame (content bytes)) rest =
      omega (arith, length-append bytes (contents rest), length-append bytes [])
  given-cons (frame (trailers headers)) rest = omega arith
  given-cons (failed e) rest = omega arith
  given-cons finished rest = omega arith

  -- A body that is complete answers every poll with its end.
  abbrev pub ends : ℕ → List (Poll Text)
  ends zero = []
  ends (suc n) = finished ∷ ends n

  -- Once a body is complete, every poll answers that it has ended.
  pub answers-completed :
      (n : ℕ) (b : DecompressingBody) → is_end_stream b ≡ true → answers n b ≡ ends n
  unfolding answers is_end_stream
  answers-completed zero b e = refl
  answers-completed (suc n) b e =
      let same : poll_frame b ≡ (finished, b) =
        ap (λ (t : Bool). if t then (finished, b) else poll_inner b.inner b.decompressed_bytes) e in
      ap (λ (x : Poll Text × DecompressingBody). x.0 ∷ answers n x.1) same
      ∙ ap (λ (rest : List (Poll Text)). finished ∷ rest) (answers-completed n b e)

  contents-ends : (n : ℕ) → contents (ends n) ≡ []
  contents-ends zero = refl
  contents-ends (suc n) = contents-ends n

  answers-open :
      (n : ℕ) (b : DecompressingBody)
      → is_compressed b.inner ≡ true
      → b.completed ≡ false
      → b.decompressed_bytes ≤ max_decompressed_size
      → b.decompressed_bytes + length (contents (answers n b)) ≤ max_decompressed_size
  unfolding answers is_end_stream
  answers-open zero b e f le = omega (arith, le)
  answers-open (suc n) b e f le =
      let polled : poll_frame b ≡ poll_inner b.inner b.decompressed_bytes =
        ap (λ (t : Bool). if t then (finished, b) else poll_inner b.inner b.decompressed_bytes) f in
      let step : Step b.decompressed_bytes (poll_frame b) =
        subst (Step b.decompressed_bytes) (sym polled)
          (poll_inner-Step b.inner b.decompressed_bytes e le) in
      let (e', (le', counted)) = step in
      let given' = given-cons (poll_frame b).0 (answers n (poll_frame b).1) in
      elim (Bool-cases (poll_frame b).1.completed) [
        | inl t ↦
            let rest =
              ap length (ap contents (answers-completed n (poll_frame b).1 t) ∙ contents-ends n) in
            omega (arith, le', given', rest)
        | inr f' ↦
            let rest = answers-open n (poll_frame b).1 e' f' (omega (arith, le', counted f')) in
            omega (arith, rest, given', counted f')
      ]

  fresh-bounded :
      (n : ℕ) (b : DecompressingBody)
      → is_compressed b.inner ≡ true
      → b.completed ≡ false
      → b.decompressed_bytes ≡ 0
      → length (contents (answers n b)) ≤ max_decompressed_size
  fresh-bounded n b e f z =
      let rest = answers-open n b e f (omega (arith, z)) in omega (arith, rest, z)

  -- A body that decompresses never gives more than 104857600 bytes, whichever of the four codings it
  -- has, however often it is polled and whatever the decoder makes of the upstream's bytes.
  pub answers-bounded :
      (n : ℕ) (body : List (Poll Text))
      → (length (contents (answers n (gzip_body body))) ≤ max_decompressed_size)
        × ((length (contents (answers n (deflate_body body))) ≤ max_decompressed_size)
            × ((length (contents (answers n (brotli_body body))) ≤ max_decompressed_size)
                × (length (contents (answers n (zstd_body body))) ≤ max_decompressed_size)))
  unfolding gzip_body deflate_body brotli_body zstd_body
  answers-bounded n body = (
    fresh-bounded n (gzip_body body) refl refl refl,
    (
      fresh-bounded n (deflate_body body) refl refl refl,
      (
        fresh-bounded n (brotli_body body) refl refl refl,
        fresh-bounded n (zstd_body body) refl refl refl,
      ),
    ),
  )
