-- ===== src/KeyDerivation/Tests.antt =====
-- Runs of key derivation, and the theorem about it at concrete inputs.
use icebreaker.Common.{Text, codes, decimal, ℕ, ◌≡◌, ◌≢◌, refl, none, some, [], ◌∷◌, arith}
use icebreaker.Errors.{ok, fine}
use icebreaker.ClientAuth.Credentials.{AuthCrates}
use icebreaker.KeyDerivation.{
  KeypairCrate, key_info, hmac_info, derive_keypair, derive_keypairs, derive_managed, new,
  with_salt,
}
use icebreaker.KeyDerivation.Laws.{key_info-separate}

-- Stand-ins for the crates: the expansion is its info, and a keypair its secret bytes.
instance abbrev plain_crates : AuthCrates
plain_crates = record {
  mac = λ algorithm key message. fine message;
  hkdf_sha256 = λ salt input info. some info;
  hex_encode = λ s. s;
  base64_decode = λ s. fine s;
}

instance abbrev plain_keys : KeypairCrate Text
plain_keys = record { from_secret_bytes = λ s. ok s }

derive_tests :
    (derive_keypairs (codes "m") (codes "a") (1 ∷ 12 ∷ []) none
      ≡ ok (codes "icebreaker-v1-key-a-1" ∷ codes "icebreaker-v1-key-a-12" ∷ []))
    × (derive_managed (with_salt (new (codes "a") (codes "m")) []) 1
        ≡ ok (codes "icebreaker-v1-key-a-1"))
unfolding derive_keypair derive_keypairs derive_managed key_info decimal new with_salt
derive_tests = (refl, refl)

key_info-separate_example :
    ((key_info (codes "a") 12 ≡ key_info (codes "a-1") 2)
      → (codes "a" ≡ codes "a-1") × (◌≡◌ {A = ℕ} 12 2))
    × ((key_info (codes "a") 12 ≢ hmac_info (codes "sign"))
        × (key_info (codes "a") 12 ≢ codes "icebreaker-v1-api-key-auth"))
key_info-separate_example =
    key_info-separate (codes "a") (codes "a-1") (codes "sign") 12 2 (omega arith) (omega arith)
