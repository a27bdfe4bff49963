-- ===== src/ResponseScan/Leaks.antt =====
-- The forms of a secret that a response cannot carry.
use icebreaker.Common.{
  Text, text_eq, text_eq_iff, All, any, length, ℕ, ◌≡◌, ◌≢◌, refl, sym, ap, subst, Bool, true,
  false, not, some, List, [], ◌∷◌, ◌++◌, arith, Bool-cases, inl, inr, ◌⊎◌, ltb, if◌then◌else◌,
}
use icebreaker.Errors.{ok}
use icebreaker.Http.Request.{Request}
use icebreaker.Body.OverlapBuffer.{BytesMutCapacity}
use icebreaker.Body.Pattern.{Occurs}
use icebreaker.Body.Scanner.Stream.{OccursAny}
use icebreaker.Body.Config.{ResponseScanConfig}
use icebreaker.Body.Decompressing.{DecoderCrate}
use icebreaker.ResponseScan.{ByteHeaders, HeaderText, Response, Scanned, scan_dynamic, patterns_of}
use icebreaker.ResponseScan.Laws.{CleanHeaders, seen, scan_dynamic-clean}
use icebreaker.ResponseScan.Patterns.{
  EncodingCrates, is_html_special, html_entity, html_text, encode_html_entities, push_if, push_some,
  variants, generate_scan_patterns, min_secret_len_for_variants,
}

html_entity-ne : (c : ℕ) → html_entity c ≢ []
html_entity-ne c e = ground (arith, e)

append-eq-nil : (s t : Text) → s ++ t ≡ [] → s ≡ []
append-eq-nil [] t e = refl
append-eq-nil (c ∷ s) t e = absurd (ground (arith, e))

html_text-plain : (s : Text) → any is_html_special s ≡ false → html_text s ≡ s
html_text-plain [] u = refl
html_text-plain (c ∷ s) u =
    let plain : html_entity c ≡ c ∷ [] = ground (arith, u) in
    let rest : any is_html_special s ≡ false = ground (arith, u) in
    rw plain (ap (λ (t : Text). c ∷ t) (html_text-plain s rest))

module _ ⦃e : EncodingCrates⦄ where
  -- The encodings of a text that is not empty are not empty.
  abbrev pub EncodesSomething : Type 0
  EncodesSomething =
      (s : Text)
      → s ≢ []
      → (e.base64_standard s ≢ [])
        × (e.base64_url_safe s ≢ [])
        × (e.url_encode s ≢ [])
        × (e.hex_encode s ≢ [])
        × (e.hex_encode_upper s ≢ [])

  abbrev all_forms : Text → List Text
  all_forms s =
      s
      ∷ e.base64_standard s
      ∷ e.base64_url_safe s
      ∷ e.url_encode s
      ∷ e.hex_encode s
      ∷ e.hex_encode_upper s
      ∷ html_text s
      ∷ []

  -- The secret and, if it has eight bytes or more, its base64, URL, hexadecimal and HTML forms.
  abbrev pub forms : Text → List Text
  forms s = if ltb (length s) min_secret_len_for_variants then s ∷ [] else all_forms s

  push_if-ne :
      (b : Bool) (p : Text) (rest : List Text)
      → p ≢ []
      → All (λ q. q ≢ []) rest
      → All (λ q. q ≢ []) (push_if b p rest)
  push_if-ne true p rest h hs = (h, hs)
  push_if-ne false p rest h hs = hs

  html_patterns-ne : (s : Text) → s ≢ [] → All (λ p. p ≢ []) (push_some (encode_html_entities s))
  unfolding encode_html_entities
  html_patterns-ne [] h = absurd (h refl)
  html_patterns-ne (c ∷ s) h = elim (Bool-cases (any is_html_special (c ∷ s))) [
    | inr none' ↦ rw none' tt
    | inl some' ↦
        rw some' ((λ x. html_entity-ne c (append-eq-nil (html_entity c) (html_text s) x)), tt)
  ]

  generate_scan_patterns-ne :
      (s : Text) → EncodesSomething → s ≢ [] → All (λ p. p ≢ []) (generate_scan_patterns s)
  unfolding generate_scan_patterns
  generate_scan_patterns-ne s good h =
      let (standard, url_safe, url, hex, upper) = good s h in
      elim (Bool-cases (ltb (length s) min_secret_len_for_variants)) [
        | inl short ↦ rw short (h, tt)
        | inr long ↦
            let last : All (λ q. q ≢ [])
                (e.hex_encode s ∷ e.hex_encode_upper s ∷ push_some (encode_html_entities s)) =
              (hex, (upper, html_patterns-ne s h)) in
            let percent =
              push_if-ne (not (text_eq (e.url_encode s) s)) (e.url_encode s) _ url last in
            let safe =
              push_if-ne (not (text_eq (e.base64_url_safe s) (e.base64_standard s)))
                (e.base64_url_safe s) _ url_safe percent in
            rw long (h, (standard, safe))
      ]

  push_if-later :
      (b : Bool) (p : Text) (rest : List Text) (t : Text)
      → OccursAny rest t
      → OccursAny (push_if b p rest) t
  push_if-later true p rest t o = inr o
  push_if-later false p rest t o = o

  push_if-here :
      (b : Bool) (p : Text) (rest : List Text) (t : Text)
      → b ≡ true
      → Occurs p t
      → OccursAny (push_if b p rest) t
  push_if-here true p rest t u o = inl o
  push_if-here false p rest t u o = absurd (ground arith)

  html_text-patterns :
      (s t : Text)
      → Occurs (html_text s) t
      → Occurs s t ⊎ OccursAny (push_some (encode_html_entities s)) t
  unfolding encode_html_entities
  html_text-patterns s t o = elim (Bool-cases (any is_html_special s)) [
    | inl special ↦ rw special (inr (inl o))
    | inr plain ↦ inl (subst (λ (p : Text). Occurs p t) (html_text-plain s plain) o)
  ]

  same-Occurs : (p q t : Text) → text_eq p q ≡ true → Occurs p t → Occurs q t
  same-Occurs p q t u o = subst (λ (x : Text). Occurs x t) ((text_eq_iff p q).0 u) o

  all_forms-variants : (s t : Text) → OccursAny (all_forms s) t → OccursAny (variants s) t
  all_forms-variants s t o = go o
    where
      safe_differs : Bool
      safe_differs = not (text_eq (e.base64_url_safe s) (e.base64_standard s))

      url_differs : Bool
      url_differs = not (text_eq (e.url_encode s) s)

      last : List Text
      last = e.hex_encode s ∷ e.hex_encode_upper s ∷ push_some (encode_html_entities s)

      percent : List Text
      percent = push_if url_differs (e.url_encode s) last

      deep : OccursAny percent t → OccursAny (variants s) t
      deep q = inr (inr (push_if-later safe_differs (e.base64_url_safe s) percent t q))

      deepest : OccursAny last t → OccursAny (variants s) t
      deepest q = deep (push_if-later url_differs (e.url_encode s) last t q)

      go : OccursAny (all_forms s) t → OccursAny (variants s) t
      go (inl raw) = inl raw
      go (inr (inl standard)) = inr (inl standard)
      go (inr (inr (inl safe))) =
          elim (Bool-cases (text_eq (e.base64_url_safe s) (e.base64_standard s))) [
            | inl same ↦ inr (inl (same-Occurs _ _ t same safe))
            | inr other ↦ inr (
                inr (push_if-here safe_differs (e.base64_url_safe s) percent t (ap not other) safe))
          ]
      go (inr (inr (inr (inl url)))) = elim (Bool-cases (text_eq (e.url_encode s) s)) [
        | inl same ↦ inl (same-Occurs _ _ t same url)
        | inr other ↦ deep (push_if-here url_differs (e.url_encode s) last t (ap not other) url)
      ]
      go (inr (inr (inr (inr (inl hex))))) = deepest (inl hex)
      go (inr (inr (inr (inr (inr (inl upper)))))) = deepest (inr (inl upper))
      go (inr (inr (inr (inr (inr (inr (inl html))))))) = elim (html_text-patterns s t html) [
        | inl raw ↦ inl raw
        | inr q ↦ deepest (inr (inr q))
      ]
      go (inr (inr (inr (inr (inr (inr (inr x))))))) = elim x [ ]

  -- A form of the secret that occurs is one of the patterns, or the same text as one.
  forms-patterns : (s t : Text) → OccursAny (forms s) t → OccursAny (generate_scan_patterns s) t
  unfolding generate_scan_patterns
  forms-patterns s t o = elim (Bool-cases (ltb (length s) min_secret_len_for_variants)) [
    | inl short ↦ rw short (rw short at o)
    | inr long ↦ rw long (all_forms-variants s t (rw long at o))
  ]

module _ ⦃e : EncodingCrates⦄ where
  forms-CleanHeaders :
      (s : Text) (headers : ByteHeaders)
      → CleanHeaders (generate_scan_patterns s) headers
      → CleanHeaders (forms s) headers
  forms-CleanHeaders s [] h = tt
  forms-CleanHeaders s ((name, value) ∷ headers) (h, hs) =
      ((λ o. h (forms-patterns s value o)), forms-CleanHeaders s headers hs)

  -- For a request that carries the scan patterns of its secret, a secret that is not empty: a
  -- response that the service lets through has the secret neither in the value of any header that
  -- the upstream sent nor in the bytes, decompressed where the service decompresses, that the client
  -- gets in any number of polls; and if the secret has eight bytes or more, the same holds of its
  -- base64, URL-safe base64, percent-encoded, hexadecimal and HTML-escaped forms. Encodings of a text
  -- that is not empty are not empty.
  pub scan_dynamic-secret :
      ⦃m : BytesMutCapacity⦄ ⦃c : DecoderCrate⦄ ⦃t : HeaderText⦄ (config : ResponseScanConfig)
      (request : Request) (response : Response) (s : Scanned) (n : ℕ) (secret : Text)
      → EncodesSomething
      → secret ≢ []
      → request.scan_patterns ≡ some (generate_scan_patterns secret)
      → scan_dynamic config request response ≡ ok s
      → CleanHeaders (forms secret) response.headers × (¬ OccursAny (forms secret) (seen n s))
  scan_dynamic-secret config request response s n secret good ne carried k =
      let ps : patterns_of request.scan_patterns ≡ generate_scan_patterns secret =
        ap patterns_of carried in
      let nonempty : All (λ p. p ≢ []) (patterns_of request.scan_patterns) =
        subst (λ (l : List Text). All (λ p. p ≢ []) l) (sym ps)
          (generate_scan_patterns-ne secret good ne) in
      let (headers, body) = scan_dynamic-clean config request response s n nonempty k in
      (
        forms-CleanHeaders secret response.headers
            (subst (λ (l : List Text). CleanHeaders l response.headers) ps headers),
        λ o.
            subst (λ (l : List Text). ¬ OccursAny l (seen n s)) ps body
              (forms-patterns secret (seen n s) o),
      )
