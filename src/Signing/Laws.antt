-- ===== src/Signing/Laws.antt =====
-- The order of the headers that are signed, and the checking of signatures.
use icebreaker.Common.{
  Bool-cases, Text, text_eq, text_eq_iff, ◌≡◌, ◌≢◌, ◌↔◌, refl, true, false, List, [], ◌∷◌, arith,
  inl, inr,
}
use icebreaker.Errors.{ok, Result-cases}
use icebreaker.ClientAuth.Credentials.{AuthCrates, compute_signature}
use icebreaker.Signing.{
  text_le, Header, insert_sorted, RequestSigner, sign, verify_signature, verify,
}

text_le_total : (a b : Text) → text_le a b ≡ false → text_le b a ≡ true
unfolding text_le
text_le_total [] b e = ground arith
text_le_total (x ∷ a) [] e = refl
text_le_total (x ∷ a) (y ∷ b) e = ground (arith, text_le_total a b)

text_le_antisym : (a b : Text) → text_le a b ≡ true → text_le b a ≡ true → a ≡ b
unfolding text_le
text_le_antisym [] [] e f = refl
text_le_antisym [] (y ∷ b) e f = ground arith
text_le_antisym (x ∷ a) [] e f = ground arith
text_le_antisym (x ∷ a) (y ∷ b) e f = ground (arith, text_le_antisym a b)

text_le_trans : (a b c : Text) → text_le a b ≡ true → text_le b c ≡ true → text_le a c ≡ true
unfolding text_le
text_le_trans [] b c e f = refl
text_le_trans (x ∷ a) [] c e f = ground arith
text_le_trans (x ∷ a) (y ∷ b) [] e f = ground arith
text_le_trans (x ∷ a) (y ∷ b) (z ∷ c) e f = ground (arith, text_le_trans a b c)

insert_sorted_ne :
    (h g : Header) (hs : List Header)
    → h.0 ≢ g.0
    → insert_sorted h (insert_sorted g hs) ≡ insert_sorted g (insert_sorted h hs)
unfolding insert_sorted
insert_sorted_ne h g [] ne = ground (arith, text_le_total h.0 g.0, text_le_antisym h.0 g.0)
insert_sorted_ne h g (k ∷ ks) ne = ground (
  arith,
  insert_sorted_ne h g ks ne,
  text_le_total h.0 g.0,
  text_le_antisym h.0 g.0,
  text_le_total h.0 k.0,
  text_le_total g.0 k.0,
  text_le_trans h.0 g.0 k.0,
  text_le_trans g.0 h.0 k.0,
  text_le_trans h.0 k.0 g.0,
  text_le_trans g.0 k.0 h.0,
)

-- Two headers may be inserted in either order, if one name has one value.
pub insert_sorted_comm :
    (h g : Header) (hs : List Header)
    → (h.0 ≡ g.0 → h.1 ≡ g.1)
    → insert_sorted h (insert_sorted g hs) ≡ insert_sorted g (insert_sorted h hs)
unfolding insert_sorted
insert_sorted_comm h g hs same = elim (Bool-cases (text_eq h.0 g.0)) [
  | inl e ↦ let eq : h ≡ g = let n = (text_eq_iff h.0 g.0).0 e in λ i. (n i, same n i) in rw eq refl
  | inr e ↦ insert_sorted_ne h g hs (λ eq. ground (arith, e, (text_eq_iff h.0 g.0).1 eq))
]

-- A signature verifies exactly if it is the one that signing gives.
pub verify_iff :
    ⦃c : AuthCrates⦄ (s : RequestSigner) (message signature : Text)
    → (verify s message signature ≡ true) ↔ (sign s message ≡ ok signature)
unfolding verify verify_signature sign
verify_iff s message signature = elim (Result-cases (compute_signature s.key message s.algorithm)) [
  | inl (a, e) ↦ rw e (ground (arith, text_eq_iff a signature))
  | inr (x, e) ↦ rw e (ground arith)
]
