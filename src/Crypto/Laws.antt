-- ===== src/Crypto/Laws.antt =====
-- Sealing and opening a token, and what becomes of the keys when they are rotated.
use icebreaker.Common.{
  Text, codes, text_eq, text_eq_iff, length, take, drop, length-append, take_of_append,
  drop_of_append, append_assoc, ℕ, ◌≤◌, ◌≡◌, refl, sym, none, some, List, [], ◌∷◌, ◌++◌, arith,
  le→ltb, if◌then◌else◌, Bool-cases, Option-cases, inl, inr,
}
use icebreaker.Errors.{fine, ok, ◌>>=◌}
use icebreaker.Token.Payload.{TokenPayload}
use icebreaker.Token.Expiration.{check_expiration}
use icebreaker.Crypto.{
  VersionedKeypair, KeyStore, set_primary, find, find_by_id, DecryptConfig, BoxCrates,
  or_decryption_error, unseal, check_status, decrypt_sealed_token, seal, create_sealed_token,
}

-- A list that begins with a part of a known length is cut behind it.
take_at : (n : ℕ) (s t : Text) → length s ≡ n → take n (s ++ t) ≡ s
take_at n s t e = rw⁻¹ e (take_of_append s t)

drop_at : (n : ℕ) (s t : Text) → length s ≡ n → drop n (s ++ t) ≡ t
drop_at n s t e = rw⁻¹ e (drop_of_append s t)

module _ {K : Type 0} ⦃c : BoxCrates K⦄ where
  -- The bytes of a box are cut where they were joined.
  unseal-boxed :
      (ephemeral k : K) (nonce json boxed : Text)
      → length nonce ≡ 24
      → c.box_seal (c.public_key k) ephemeral nonce json ≡ fine boxed
      → unseal (c.public_key ephemeral ++ (nonce ++ boxed)) k
        ≡ or_decryption_error (codes "deserialization error: ") (c.payload_from_json json)
  unfolding unseal
  unseal-boxed ephemeral k nonce json boxed n sealed =
      let p = c.public_key ephemeral in
      let lp = c.length-public_key ephemeral in
      let long : 72 ≤ length (p ++ (nonce ++ boxed)) = omega (
        arith,
        lp,
        n,
        length-append p (nonce ++ boxed),
        length-append nonce boxed,
        c.le-length-box_seal (c.public_key k) ephemeral nonce json boxed sealed,
      ) in
      let front : length (p ++ nonce) ≡ 56 = omega (arith, lp, length-append p nonce) in
      rw
        (
          le→ltb (length (p ++ (nonce ++ boxed))) 72 long,
          take_at 32 p (nonce ++ boxed) lp,
          drop_at 32 p (nonce ++ boxed) lp,
          take_at 24 nonce boxed n,
          sym (append_assoc p nonce boxed),
          drop_at 56 (p ++ nonce) boxed front,
          c.box_open-seal k ephemeral nonce json boxed sealed,
        )
        refl

  seal-eq-ok :
      (ephemeral : K) (nonce : Text) (payload : TokenPayload) (recipient json boxed : Text)
      → c.payload_to_json payload ≡ fine json
      → c.box_seal recipient ephemeral nonce json ≡ fine boxed
      → seal ephemeral nonce payload recipient ≡ ok (c.public_key ephemeral ++ (nonce ++ boxed))
  unfolding seal
  seal-eq-ok ephemeral nonce payload recipient json boxed w e = rw (w, e) refl

  -- Sealing a payload for a keypair of the store and opening the token gives the payload, which is
  -- then answered by its expiration status, if the nonce has 24 bytes, the payload can be written
  -- as JSON, reading that JSON gives the payload back, and the cipher encrypts it.
  pub decrypt-create_sealed_token :
      (unix : ℕ) (ephemeral : K) (nonce : Text) (payload : TokenPayload) (k : VersionedKeypair K)
      (store : KeyStore K) (config : DecryptConfig) (json boxed : Text)
      → length nonce ≡ 24
      → find_by_id k.key_id store ≡ some k
      → c.payload_to_json payload ≡ fine json
      → c.payload_from_json json ≡ fine payload
      → c.box_seal (c.public_key k.keypair) ephemeral nonce json ≡ fine boxed
      → (create_sealed_token ephemeral nonce payload k >>= λ token.
          decrypt_sealed_token unix token store config)
        ≡ check_status config payload (check_expiration config.clock_skew payload.expires_at unix)
  unfolding decrypt_sealed_token create_sealed_token
  decrypt-create_sealed_token unix ephemeral nonce payload k store config json boxed n found w r e =
      rw
        (
          seal-eq-ok ephemeral nonce payload (c.public_key k.keypair) json boxed w e,
          found,
          c.base64_decode-encode (c.public_key ephemeral ++ (nonce ++ boxed)),
          unseal-boxed ephemeral k.keypair nonce json boxed n e,
          r,
        )
        refl

module _ {K : Type 0} where
  find-append :
      (key_id : Text) (ks : List (VersionedKeypair K)) (k : VersionedKeypair K)
      → find key_id (ks ++ (k ∷ [])) ≡ elim (find key_id ks) [
        | some found ↦ some found
        | none ↦ if text_eq k.key_id key_id then some k else none
      ]
  unfolding find
  find-append key_id [] k = refl
  find-append key_id (h ∷ ks) k = elim (Bool-cases (text_eq h.key_id key_id)) [
    | inl same ↦ rw same refl
    | inr other ↦ rw other (find-append key_id ks k)
  ]

  -- Rotating the primary keypair: the new one is found by its own ID, and every other ID finds what
  -- it found before, if no historical keypair had the ID of the old primary.
  pub find_by_id-set_primary :
      (key_id : Text) (k old : VersionedKeypair K) (store : KeyStore K)
      → store.primary ≡ some old
      → find old.key_id store.historical ≡ none
      → find_by_id key_id (set_primary k store)
        ≡ (if text_eq k.key_id key_id then some k else find_by_id key_id store)
  unfolding find_by_id set_primary
  find_by_id-set_primary key_id k old store e fresh =
      elim (Bool-cases (text_eq old.key_id key_id)) [
        | inl same ↦
            let eq = (text_eq_iff old.key_id key_id).0 same in
            rw (e, find-append key_id store.historical old, rw eq at fresh, same) refl
        | inr other ↦ elim (Option-cases (find key_id store.historical)) [
          | inl none' ↦ rw (e, find-append key_id store.historical old, none', other) refl
          | inr (found, p) ↦ rw (e, find-append key_id store.historical old, p, other) refl
        ]
      ]
