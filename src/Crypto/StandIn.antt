-- ===== src/Crypto/StandIn.antt =====
-- A stand-in for the crates that sealed tokens rest on, for runs on concrete inputs: keys are
-- numbers, a box is its plaintext behind a tag of zeros, and every box opens to one payload, which
-- is written as its secret.
use icebreaker.Common.{Text, length, drop, ℕ, zero, suc, ◌≡◌, ◌≤◌, some, [], ◌∷◌, ◌++◌, arith, refl}
use icebreaker.Errors.{Outcome, fine}
use icebreaker.Token.Payload.{TokenPayload}
use icebreaker.Crypto.{BoxCrates}

abbrev pub zeros : ℕ → Text
zeros zero = []
zeros (suc n) = 0 ∷ zeros n

abbrev pub tagged : Text → Outcome Text
tagged plain = fine (zeros 16 ++ plain)

pub le-length-tagged : (plain boxed : Text) → tagged plain ≡ fine boxed → 16 ≤ length boxed
le-length-tagged plain boxed e = ground arith

pub drop-tagged :
    (plain boxed : Text) → tagged plain ≡ fine boxed → some (drop 16 boxed) ≡ some plain
drop-tagged plain boxed e = ground arith

abbrev pub boxes_of : TokenPayload → BoxCrates ℕ
boxes_of payload = record {
  public_key = λ k. zeros 32;
  base64_encode = λ s. s;
  base64_decode = λ s. fine s;
  box_seal = λ p e nonce plain. tagged plain;
  box_open = λ k p nonce boxed. some (drop 16 boxed);
  payload_to_json = λ p. fine p.secret;
  payload_from_json = λ s. fine payload;
  length-public_key = λ k. refl;
  le-length-box_seal = λ p e nonce plain boxed s. le-length-tagged plain boxed s;
  base64_decode-encode = λ s. refl;
  box_open-seal = λ k e nonce plain boxed s. drop-tagged plain boxed s;
}
