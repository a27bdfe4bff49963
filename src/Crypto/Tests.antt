-- ===== src/Crypto/Tests.antt =====
-- Runs of the key store and of sealed tokens, and the theorems about them at concrete inputs.
use icebreaker.Common.{Text, codes, text_eq, ℕ, ◌≡◌, refl, true, none, some, [], ◌∷◌, ◌++◌}
use icebreaker.Errors.{ok, ◌>>=◌}
use icebreaker.Token.Config.{inject, no_auth}
use icebreaker.Token.Payload.{TokenPayload}
use icebreaker.Token.Expiration.{check_expiration}
use icebreaker.Crypto.StandIn.{zeros, boxes_of}
use icebreaker.Crypto.{
  VersionedKeypair, KeyStore, with_primary, add_historical, set_primary, find, find_by_id,
  DecryptConfig, BoxCrates, check_status, decrypt_sealed_token, create_sealed_token, unseal, seal,
}
use icebreaker.Crypto.Laws.{decrypt-create_sealed_token}

abbrev payload : TokenPayload
payload = record {
  secret = codes "sk-1";
  processor = inject (record { header_name = codes "authorization"; prefix = none; suffix = none });
  auth = no_auth;
  allowed_hosts = codes "a.b" ∷ [];
  allowed_host_pattern = none;
  upstream_scheme = none;
  expires_at = some 100;
  metadata = none;
  oauth = none;
  allowed_methods = [];
  allowed_paths = [];
  allowed_path_pattern = none;
  replay_protection = none;
}

-- The one payload is what every box opens to.
instance abbrev open_boxes : BoxCrates ℕ
open_boxes = boxes_of payload

abbrev pair : Text → ℕ → VersionedKeypair ℕ
pair key_id k = record { key_id = key_id; keypair = k; version = 1 }

abbrev config : DecryptConfig
config = record {
  clock_skew = record { tolerance_seconds = 30; max_future_seconds = none };
  require_expiration = true;
}

abbrev store : KeyStore ℕ
store = record { primary = some (pair (codes "a") 1); historical = pair (codes "b") 2 ∷ [] }

crypto : Unit {0}
unfolding with_primary add_historical set_primary find find_by_id text_eq unseal seal check_status
    decrypt_sealed_token create_sealed_token check_expiration
crypto = tt

store_tests :
    (find_by_id (codes "a") (set_primary (pair (codes "c") 3) store) ≡ some (pair (codes "a") 1))
    × (find_by_id (codes "b") (add_historical (pair (codes "b") 4) store)
        ≡ some (pair (codes "b") 2))
    × (find_by_id (codes "b") (with_primary (pair (codes "a") 1)) ≡ none)
unfolding crypto
store_tests = (refl, refl, refl)

decrypt-create_sealed_token_example :
    (create_sealed_token 9 (zeros 24) payload (pair (codes "b") 2) >>= λ token.
    decrypt_sealed_token 5 token store config)
    ≡ ok payload
unfolding crypto
decrypt-create_sealed_token_example =
    decrypt-create_sealed_token 5 9 (zeros 24) payload (pair (codes "b") 2) store config
      (codes "sk-1") (zeros 16 ++ codes "sk-1") refl refl refl refl refl
