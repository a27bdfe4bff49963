-- ===== src/Crypto.antt =====
-- The opening of sealed tokens: `KeyStore` of crates/icebreaker-crypto/src/keypair.rs, and
-- `decrypt_sealed_token_with_config` of crates/icebreaker-crypto/src/sealed_box.rs.
pub mod Laws
pub mod TokenCrypto
pub mod StandIn
mod Tests
use icebreaker.Common.{
  Text, codes, decimal, text_eq, length, take, drop, ℕ, Bool, ◌≡◌, ◌≤◌, Option, none, some, List,
  [], ◌∷◌, ◌++◌, ltb, if◌then◌else◌,
}
use icebreaker.Errors.{
  Result, ok, err, ◌>>=◌, Outcome, fine, refused, decryption_error, crypto_error, invalid_payload,
  token_expired,
}
use icebreaker.Token.Payload.{TokenPayload, SealedToken}
use icebreaker.Token.Expiration.{
  ClockSkewConfig, ExpirationStatus, valid, expired, no_expiration, future_dated, check_expiration,
}

pub record VersionedKeypair (K : Type 0) : Type 0 where
  pub key_id : Text
  pub keypair : K
  pub version : ℕ

pub record KeyStore (K : Type 0) : Type 0 where
  pub primary : Option (VersionedKeypair K)
  pub historical : List (VersionedKeypair K)

module _ {K : Type 0} where
  unfoldable pub with_primary : VersionedKeypair K → KeyStore K
  with_primary k = record { primary = some k; historical = [] }

  unfoldable pub add_historical : VersionedKeypair K → KeyStore K → KeyStore K
  add_historical k store = record store { historical = store.historical ++ (k ∷ []) }

  unfoldable pub set_primary : VersionedKeypair K → KeyStore K → KeyStore K
  set_primary k store = elim store.primary [
    | none ↦ record store { primary = some k }
    | some old ↦ record { primary = some k; historical = store.historical ++ (old ∷ []) }
  ]

  -- `iter().find` on the key ID
  unfoldable pub find : Text → List (VersionedKeypair K) → Option (VersionedKeypair K)
  find key_id [] = none
  find key_id (k ∷ ks) =
      let rest = find key_id ks in if text_eq k.key_id key_id then some k else rest

  unfoldable pub find_by_id : Text → KeyStore K → Option (VersionedKeypair K)
  unfolding find
  find_by_id key_id store = elim store.primary [
    | none ↦ find key_id store.historical
    | some p ↦ if text_eq p.key_id key_id then some p else find key_id store.historical
  ]

pub record DecryptConfig : Type 0 where
  pub clock_skew : ClockSkewConfig
  pub require_expiration : Bool

-- The crates `base64`, `crypto_box` and `serde_json`, with what they document: the sizes of a public
-- key and of the tag, and that opening and decoding undo sealing and encoding. A
-- box is made with the recipient's public key and a secret key, and opened with the recipient's
-- keypair and the public key of the other.
pub record BoxCrates (K : Type 0) : Type 0 where
  pub public_key : K → Text
  pub base64_encode : Text → Text
  pub base64_decode : Text → Outcome Text
  pub box_seal : Text → K → Text → Text → Outcome Text
  pub box_open : K → Text → Text → Text → Option Text
  pub payload_to_json : TokenPayload → Outcome Text
  pub payload_from_json : Text → Outcome TokenPayload
  pub length-public_key : (k : K) → length (public_key k) ≡ 32
  pub le-length-box_seal :
      (p : Text) (e : K) (nonce plain boxed : Text)
      → box_seal p e nonce plain ≡ fine boxed
      → 16 ≤ length boxed
  pub base64_decode-encode : (s : Text) → base64_decode (base64_encode s) ≡ fine s
  pub box_open-seal :
      (k e : K) (nonce plain boxed : Text)
      → box_seal (public_key k) e nonce plain ≡ fine boxed
      → box_open k (public_key e) nonce boxed ≡ some plain

abbrev pub or_decryption_error : {A : Type 0} → Text → Outcome A → Result A
or_decryption_error what (fine a) = ok a
or_decryption_error what (refused message) = err (decryption_error (what ++ message))

abbrev pub or_crypto_error : {A : Type 0} → Text → Outcome A → Result A
or_crypto_error what (fine a) = ok a
or_crypto_error what (refused message) = err (crypto_error (what ++ message))

abbrev pub opened_or_error : Option Text → Result Text
opened_or_error (some plaintext) = ok plaintext
opened_or_error none = err (decryption_error (codes "decryption failed"))

-- The `match` on the expiration.
unfoldable pub check_status : DecryptConfig → TokenPayload → ExpirationStatus → Result TokenPayload
check_status config payload valid = ok payload
check_status config payload no_expiration =
    if config.require_expiration
    then err (invalid_payload (codes "token must have expiration"))
    else ok payload
check_status config payload expired = err token_expired
check_status config payload (future_dated seconds_ahead) = err (
    invalid_payload (
      codes "token expiration is "
      ++ (decimal seconds_ahead ++ codes " seconds too far in the future")))

abbrev pub found_or_error : {K : Type 0} → Option (VersionedKeypair K) → Result (VersionedKeypair K)
found_or_error (some k) = ok k
found_or_error none = err (decryption_error (codes "decryption failed"))

module _ {K : Type 0} ⦃c : BoxCrates K⦄ where
  -- `unseal`: 32 bytes of public key, 24 of nonce, and the ciphertext with its tag of 16
  unfoldable pub unseal : Text → K → Result TokenPayload
  unseal sealed_box keypair =
      if ltb (length sealed_box) 72
      then err (decryption_error (codes "sealed box too short"))
      else (do
        plaintext ← opened_or_error (
            c.box_open keypair (take 32 sealed_box) (take 24 (drop 32 sealed_box))
              (drop 56 sealed_box))
        or_decryption_error (codes "deserialization error: ") (c.payload_from_json plaintext))

  -- At a Unix time.
  unfoldable pub decrypt_sealed_token :
      ℕ → SealedToken → KeyStore K → DecryptConfig → Result TokenPayload
  unfolding unseal check_status
  decrypt_sealed_token unix token key_store config = do
    k ← found_or_error (find_by_id token.key_id key_store)
    bytes ← or_decryption_error (codes "base64 decode error: ") (c.base64_decode token.ciphertext)
    payload ← unseal bytes k.keypair
    check_status config payload (check_expiration config.clock_skew payload.expires_at unix)

  -- `seal`, with the ephemeral secret key and the nonce that were drawn.
  unfoldable pub seal : K → Text → TokenPayload → Text → Result Text
  seal ephemeral nonce payload recipient = do
    json ← or_crypto_error (codes "serialization error: ") (c.payload_to_json payload)
    boxed ← or_crypto_error (codes "encryption error: ") (c.box_seal recipient ephemeral nonce json)
    ok (c.public_key ephemeral ++ (nonce ++ boxed))

  -- `SealedToken::new` for the bytes in base64.
  abbrev pub token_of : VersionedKeypair K → Text → SealedToken
  token_of k bytes = record { version = 1; key_id = k.key_id; ciphertext = c.base64_encode bytes }

  unfoldable pub create_sealed_token :
      K → Text → TokenPayload → VersionedKeypair K → Result SealedToken
  unfolding seal
  create_sealed_token ephemeral nonce payload k = do
    bytes ← seal ephemeral nonce payload (c.public_key k.keypair)
    ok (token_of k bytes)
