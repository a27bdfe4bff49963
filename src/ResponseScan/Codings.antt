-- ===== src/ResponseScan/Codings.antt =====
-- Which content codings pass, and what becomes of them.
use icebreaker.Common.{
  Text, codes, text_eq, text_eq_iff, ◌≡◌, ◌⊎◌, ◌↔◌, refl, sym, ap, subst, true, false, List, [],
  ◌∷◌, arith, Bool-cases, inl, inr,
}
use icebreaker.Errors.{ok}
use icebreaker.Http.{lowercase}
use icebreaker.Body.Config.{ResponseScanConfig, block, is_encoding_allowed}
use icebreaker.Body.Decompressing.{DecoderCrate}
use icebreaker.ResponseScan.{
  HeaderText, Response, Resolved, content_encodings, as_identity, decompress_known, is_known,
  resolve_single, resolve_encodings, resolve_encoding, handle_unknown_encoding,
  handle_multiple_encodings,
}

module _ ⦃c : DecoderCrate⦄ (config : ResponseScanConfig) (response : Response) (r : Resolved) where
  -- A single coding that is decompressed, or that counts as none.
  abbrev pub Passes : Text → Type 0
  Passes encoding =
      ((is_known encoding ≡ true) × (decompress_known encoding response ≡ r))
      ⊎ ((is_known encoding ≡ false)
          × (((encoding ≡ codes "identity") ⊎ (is_encoding_allowed config encoding ≡ true))
              × (as_identity response ≡ r)))

  handle_unknown_encoding_iff :
      (encoding : Text)
      → config.unsupported_encoding ≡ block
      → (handle_unknown_encoding encoding config response ≡ ok r)
        ↔ ((is_encoding_allowed config encoding ≡ true) × (as_identity response ≡ r))
  unfolding handle_unknown_encoding
  handle_unknown_encoding_iff encoding b = elim (Bool-cases (is_encoding_allowed config encoding)) [
    | inl t ↦ rw t (ground arith)
    | inr f ↦ rw f (rw b (ground arith))
  ]

  resolve_single_iff :
      (encoding : Text)
      → config.unsupported_encoding ≡ block
      → (resolve_single encoding config response ≡ ok r) ↔ Passes encoding
  unfolding resolve_single
  resolve_single_iff encoding b = elim (Bool-cases (is_known encoding)) [
    | inl known ↦ rw known (ground arith)
    | inr unknown ↦ elim (Bool-cases (text_eq encoding (codes "identity"))) [
      | inl same ↦
          let plain = (text_eq_iff encoding (codes "identity")).0 same in
          rw unknown (rw same (ground (arith, plain)))
      | inr other ↦
          let differs = (text_eq_iff encoding (codes "identity")).1 in
          rw unknown
            (rw other (ground (arith, differs, other, handle_unknown_encoding_iff encoding b)))
    ]
  ]

  head-eq : (x y : Text) → x ∷ [] ≡ y ∷ [] → x ≡ y
  head-eq x y e = ground (arith, e)

  abbrev pub Resolves : List Text → Type 0
  Resolves codings =
      ((codings ≡ []) × (as_identity response ≡ r))
      ⊎ ((single : Text) × ((codings ≡ single ∷ []) × Passes (lowercase single)))

  resolve_encodings_iff :
      (codings : List Text)
      → config.unsupported_encoding ≡ block
      → (resolve_encodings codings config response ≡ ok r) ↔ Resolves codings
  unfolding resolve_encodings handle_multiple_encodings
  resolve_encodings_iff [] b = (
    λ k. inl (refl, ground (arith, k)),
    λ p. elim p [ inl (_, e) ↦ ap ok e | inr (single, (e, _)) ↦ absurd (ground (arith, e)) ],
  )
  resolve_encodings_iff (single ∷ []) b =
      let (to, from) = resolve_single_iff (lowercase single) b in
      (
        λ k. inr (single, (refl, to k)),
        λ p. elim p [
          | inl (e, _) ↦ absurd (ground (arith, e))
          | inr (other, (e, passes)) ↦
              from
                (subst (λ (x : Text). Passes (lowercase x)) (sym (head-eq single other e)) passes)
        ],
      )
  resolve_encodings_iff (first ∷ second ∷ more) b = (
    λ k. absurd (ground (arith, k, b)),
    λ p. elim p [
      | inl (e, _) ↦ absurd (ground (arith, e))
      | inr (other, (e, _)) ↦ absurd (ground (arith, e))
    ],
  )

  -- Where unsupported codings are blocked: a response is resolved exactly if its first
  -- `Content-Encoding` is missing, unreadable or names a single coding, and that is one of the four
  -- that are decompressed, then without its coding and length headers, or `identity`, or one that the
  -- configuration allows, then as it is.
  pub resolve_encoding-block_iff :
      ⦃t : HeaderText⦄
      → config.unsupported_encoding ≡ block
      → (resolve_encoding config response ≡ ok r) ↔ Resolves (content_encodings response.headers)
  unfolding resolve_encoding
  resolve_encoding-block_iff b = resolve_encodings_iff (content_encodings response.headers) b
