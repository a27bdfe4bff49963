-- ===== src/KeyDerivation.antt =====
-- crates/icebreaker-crypto/src/hkdf.rs: keys derived from a master key. HKDF with a 32-byte output is
-- that of ClientAuth's crates.
pub mod Laws
mod Tests
use icebreaker.Common.{Text, codes, decimal, ℕ, Option, none, some, List, [], ◌∷◌, ◌++◌}
use icebreaker.Errors.{Result, ok, err, ◌>>=◌, crypto_error}
use icebreaker.ClientAuth.Credentials.{AuthCrates, salt_or_default}

-- `KEY_INFO_PREFIX`
abbrev pub key_info_prefix : Text
key_info_prefix = codes "icebreaker-v1-key-"

-- "icebreaker-v1-key-{key_id}-{version}"
unfoldable pub key_info : Text → ℕ → Text
key_info key_id version = key_info_prefix ++ (key_id ++ (codes "-" ++ decimal version))

unfoldable pub hmac_info : Text → Text
hmac_info purpose = codes "icebreaker-v1-hmac-" ++ purpose

-- The crate `crypto_box`: the keypair of a secret key.
pub record KeypairCrate (K : Type 0) : Type 0 where
  pub from_secret_bytes : Text → Result K

abbrev expanded_or_error : Option Text → Result Text
expanded_or_error (some okm) = ok okm
expanded_or_error none = err (crypto_error (codes "HKDF expansion failed"))

module _ ⦃a : AuthCrates⦄ where
  unfoldable pub derive_hmac_key : Text → Text → Option Text → Result Text
  unfolding hmac_info
  derive_hmac_key master_key purpose salt =
      expanded_or_error (a.hkdf_sha256 (salt_or_default salt) master_key (hmac_info purpose))

  module _ {K : Type 0} ⦃k : KeypairCrate K⦄ where
    unfoldable pub derive_keypair : Text → Text → ℕ → Option Text → Result K
    unfolding key_info
    derive_keypair master_key key_id version salt = do
      okm ←
          expanded_or_error
            (a.hkdf_sha256 (salt_or_default salt) master_key (key_info key_id version))
      k.from_secret_bytes okm

    -- The first error ends the collection.
    unfoldable pub derive_keypairs : Text → Text → List ℕ → Option Text → Result (List K)
    unfolding derive_keypair
    derive_keypairs master_key key_id [] salt = ok []
    derive_keypairs master_key key_id (version ∷ versions) salt = do
      keypair ← derive_keypair master_key key_id version salt
      rest ← derive_keypairs master_key key_id versions salt
      ok (keypair ∷ rest)

pub record MasterKeyManager : Type 0 where
  pub key_id : Text
  pub master_key : Text
  pub salt : Option Text

unfoldable pub new : Text → Text → MasterKeyManager
new key_id master_key = record { key_id = key_id; master_key = master_key; salt = none }

unfoldable pub with_salt : MasterKeyManager → Text → MasterKeyManager
with_salt m salt = record m { salt = some salt }

unfoldable pub derive_managed :
    {K : Type 0} ⦃a : AuthCrates⦄ ⦃k : KeypairCrate K⦄ → MasterKeyManager → ℕ → Result K
unfolding derive_keypair
derive_managed m version = derive_keypair m.master_key m.key_id version m.salt
