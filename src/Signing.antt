-- ===== src/Signing.antt =====
-- crates/icebreaker-crypto/src/hmac.rs: signatures of requests, and the text that is signed.
pub mod Laws
use icebreaker.Common.{
  Text, codes, text_eq, ℕ, Bool, true, false, ◌&&◌, ◌||◌, ltb, ◌==◌, Option, none, some, List, [],
  ◌∷◌, ◌++◌, if◌then◌else◌,
}
use icebreaker.Errors.{Result, ok, err, Outcome, fine, refused, ◌>>=◌, crypto_error}
use icebreaker.Http.{lowercase}
use icebreaker.Token.Config.{HmacAlgorithm}
use icebreaker.ClientAuth.Credentials.{AuthCrates, compute_signature}

-- `str::cmp`, as the test that `a` is not after `b`
unfoldable pub text_le : Text → Text → Bool
text_le [] b = true
text_le (x ∷ a) [] = false
text_le (x ∷ a) (y ∷ b) = let rest = text_le a b in ltb x y || (x == y && rest)

abbrev pub Header : Type 0
Header = Text × Text

unfoldable pub insert_sorted : Header → List Header → List Header
insert_sorted h [] = h ∷ []
insert_sorted h (g ∷ gs) = elim (text_le h.0 g.0) [
  | true ↦ h ∷ g ∷ gs
  | false ↦ g ∷ insert_sorted h gs
]

-- `sort_by` with the order of the names; it is stable.
unfoldable pub sort_headers : List Header → List Header
unfolding insert_sorted
sort_headers [] = []
sort_headers (h ∷ hs) = insert_sorted h (sort_headers hs)

-- The crates `sha2` and `hex`, on the way back.
pub record DigestCrates : Type 0 where
  pub sha256_digest : Text → Text
  pub hex_decode : Text → Outcome Text

pub record RequestSigner : Type 0 where
  pub key : Text
  pub algorithm : HmacAlgorithm

module _ ⦃c : AuthCrates⦄ where
  unfoldable pub sign : RequestSigner → Text → Result Text
  unfolding compute_signature
  sign s message = compute_signature s.key message s.algorithm

  unfoldable pub sign_hex : RequestSigner → Text → Result Text
  unfolding sign
  sign_hex s message = do signature ← sign s message; ok (c.hex_encode signature)

  -- `verify_signature`: an error of the computation is a refusal.
  unfoldable pub verify_signature : Text → Text → Text → HmacAlgorithm → Bool
  unfolding compute_signature text_eq
  verify_signature key message signature algorithm =
      elim (compute_signature key message algorithm) [
        | ok expected ↦ text_eq expected signature
        | err _ ↦ false
      ]

  unfoldable pub verify : RequestSigner → Text → Text → Bool
  unfolding verify_signature
  verify s message signature = verify_signature s.key message signature s.algorithm

  module _ ⦃d : DigestCrates⦄ where
    unfoldable pub signature_from_hex : Text → Result Text
    signature_from_hex text = elim (d.hex_decode text) [
      | fine signature ↦ ok signature
      | refused reason ↦ err (crypto_error (codes "invalid hex signature: " ++ reason))
    ]

    unfoldable pub verify_hex : RequestSigner → Text → Text → Result Bool
    unfolding signature_from_hex verify
    verify_hex s message text = do
      signature ← signature_from_hex text
      ok (verify s message signature)

pub record CanonicalRequestBuilder : Type 0 where
  pub method : Text
  pub path : Text
  pub query : Text
  pub headers : List Header
  pub body_hash : Option Text

unfoldable pub new : Text → Text → CanonicalRequestBuilder
new method path = record {
  method = method;
  path = path;
  query = [];
  headers = [];
  body_hash = none;
}

unfoldable pub set_query : CanonicalRequestBuilder → Text → CanonicalRequestBuilder
set_query b query = record b { query = query }

unfoldable pub add_header : CanonicalRequestBuilder → Text → Text → CanonicalRequestBuilder
add_header b name value = record b { headers = b.headers ++ ((lowercase name, value) ∷ []) }

unfoldable pub set_body_hash : CanonicalRequestBuilder → Text → CanonicalRequestBuilder
set_body_hash b hash = record b { body_hash = some hash }

unfoldable pub set_body :
    ⦃c : AuthCrates⦄ ⦃d : DigestCrates⦄ → CanonicalRequestBuilder → Text → CanonicalRequestBuilder
unfolding set_body_hash
set_body ⦃c⦄ ⦃d⦄ b body = set_body_hash b (c.hex_encode (d.sha256_digest body))

abbrev header_lines : List Header → Text
header_lines [] = []
header_lines ((name, value) ∷ hs) =
    name ++ (codes ":" ++ (value ++ (codes "\n" ++ header_lines hs)))

abbrev hash_or_empty : Option Text → Text
hash_or_empty none = []
hash_or_empty (some hash) = hash

unfoldable pub build_canonical : CanonicalRequestBuilder → Text
unfolding sort_headers
build_canonical b =
    let hs = sort_headers b.headers in
    b.method
    ++ (codes "\n"
        ++ (b.path
            ++ (codes "\n"
                ++ (b.query
                    ++ (codes "\n"
                        ++ (header_lines hs ++ (codes "\n" ++ hash_or_empty b.body_hash)))))))
