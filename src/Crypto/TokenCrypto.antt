-- ===== src/Crypto/TokenCrypto.antt =====
-- `TokenCrypto` of crates/icebreaker-crypto/src/sealed_box.rs.
use icebreaker.Common.{Text, codes, ℕ, false, Option, none, some}
use icebreaker.Errors.{Result, ok, err, ◌>>=◌, crypto_error}
use icebreaker.Token.Payload.{TokenPayload, SealedToken}
use icebreaker.Token.Expiration.{default_skew}
use icebreaker.ClientAuth.Credentials.{AuthCrates, derive_api_key_hmac_key}
use icebreaker.Crypto.{
  VersionedKeypair, KeyStore, with_primary, find_by_id, found_or_error, DecryptConfig, BoxCrates,
  decrypt_sealed_token, create_sealed_token,
}

pub record TokenCrypto (K : Type 0) : Type 0 where
  pub key_store : KeyStore K
  pub decrypt_config : DecryptConfig

abbrev pub default_decrypt_config : DecryptConfig
default_decrypt_config = record { clock_skew = default_skew; require_expiration = false }

abbrev primary_or_error : {K : Type 0} → Option (VersionedKeypair K) → Result (VersionedKeypair K)
primary_or_error none = err (crypto_error (codes "no primary key configured"))
primary_or_error (some k) = ok k

module _ {K : Type 0} where
  unfoldable pub new : KeyStore K → TokenCrypto K
  new key_store = record { key_store = key_store; decrypt_config = default_decrypt_config }

  unfoldable pub with_config : KeyStore K → DecryptConfig → TokenCrypto K
  with_config key_store config = record { key_store = key_store; decrypt_config = config }

  unfoldable pub with_keypair : K → Text → TokenCrypto K
  unfolding new with_primary
  with_keypair keypair key_id =
      new (with_primary (record { key_id = key_id; keypair = keypair; version = 1 }))

  module _ ⦃c : BoxCrates K⦄ where
    -- `seal`, with the ephemeral secret key and the nonce that were drawn.
    unfoldable pub seal : TokenCrypto K → K → Text → TokenPayload → Result SealedToken
    unfolding create_sealed_token
    seal crypto ephemeral nonce payload = do
      primary ← primary_or_error crypto.key_store.primary
      create_sealed_token ephemeral nonce payload primary

    unfoldable pub unseal : TokenCrypto K → ℕ → SealedToken → Result TokenPayload
    unfolding decrypt_sealed_token
    unseal crypto unix token =
        decrypt_sealed_token unix token crypto.key_store crypto.decrypt_config

    unfoldable pub api_key_hmac_key : ⦃a : AuthCrates⦄ → TokenCrypto K → Text → Result Text
    unfolding find_by_id derive_api_key_hmac_key
    api_key_hmac_key crypto key_id = do
      k ← found_or_error (find_by_id key_id crypto.key_store)
      derive_api_key_hmac_key (c.public_key k.keypair) none
