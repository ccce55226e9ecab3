-- ===== src/Otp/Token/TwoLetters.antt =====
-- A code of texts in two letters, in the place of base64 and of UTF-8.
use zk_voting.Prelude.{
  ℕ, suc, ◌+◌, ◌≡◌, refl, Bool, true, false, not, [], ◌∷◌, arith, ◌==◌, all, if◌then◌else◌,
}
use zk_voting.Prelude.Text.{Text}
use zk_voting.Auth.Relay.Value.{is_empty}
use zk_voting.Prelude.Bytes.{is_byte, is_well_formed, well_formed_plain, IsUtf8}
use zk_voting.Otp.Token.{strip_padding, is_base64_unit, IsBase64}

unfoldable repeat_a : ℕ → Text → Text
repeat_a Prim.Native.Nat.zero t = t
repeat_a (suc n) t = b'A' ∷ repeat_a n t

unfoldable pub encode : Text → Text
unfolding repeat_a
encode [] = []
encode (c ∷ s) = repeat_a c (b'B' ∷ encode s)

unfoldable pub decode_from : ℕ → Text → Text
decode_from n [] = []
decode_from n (c ∷ t) =
    let more = decode_from (suc n) t in
    let rest = decode_from 0 t in if c == b'A' then more else n ∷ rest

decode_from-repeat_a :
    (n c : ℕ) (t : Text) → decode_from n (repeat_a c (b'B' ∷ t)) ≡ (n + c) ∷ decode_from 0 t
unfolding decode_from repeat_a
decode_from-repeat_a n Prim.Native.Nat.zero t = ground arith
decode_from-repeat_a n (suc c) t = ground (arith, decode_from-repeat_a (suc n) c t)

pub decode-encode : (s : Text) → decode_from 0 (encode s) ≡ s
unfolding decode_from encode
decode-encode [] = refl
decode-encode (c ∷ s) = ground (arith, decode_from-repeat_a 0 c (encode s), decode-encode s)

all-repeat_a :
    (p : ℕ → Bool) (c : ℕ) (t : Text) → p b'A' ≡ true → all p t ≡ true → all p (repeat_a c t) ≡ true
unfolding repeat_a
all-repeat_a p Prim.Native.Nat.zero t a h = h
all-repeat_a p (suc c) t a h = rw (a, all-repeat_a p c t a h)

all-encode : (p : ℕ → Bool) (s : Text) → p b'A' ≡ true → p b'B' ≡ true → all p (encode s) ≡ true
unfolding encode
all-encode p [] a b = refl
all-encode p (c ∷ s) a b = all-repeat_a p c (b'B' ∷ encode s) a (rw (b, all-encode p s a b))

strip_unpadded : (s : Text) → all (λ c. not (c == b'=')) s ≡ true → strip_padding s ≡ s
unfolding strip_padding
strip_unpadded [] h = refl
strip_unpadded (c ∷ s) h = ground (arith, strip_unpadded s)

pub encode_full : (s : Text) → is_empty s ≡ false → is_empty (encode s) ≡ false
unfolding encode repeat_a
encode_full [] h = h
encode_full (Prim.Native.Nat.zero ∷ s) h = refl
encode_full (suc c ∷ s) h = refl

pub encode-IsBase64 : IsBase64 encode (decode_from 0)
unfolding decode_from
encode-IsBase64 = record {
  alphabet = λ bytes are. all-encode is_base64_unit bytes refl refl;
  decodes = λ bytes are.
      rw (strip_unpadded (encode bytes) (all-encode _ bytes refl refl)) (decode-encode bytes);
  decodes_empty = refl;
}

pub encode-IsUtf8 : IsUtf8 encode (decode_from 0)
encode-IsUtf8 = record {
  writes_bytes = λ s. all-encode is_byte s refl refl;
  decodes = λ s well_formed. decode-encode s;
  writes = λ s full. encode_full s full;
}

pub encode_well_formed : (s : Text) → is_well_formed (encode s) ≡ true
encode_well_formed s = well_formed_plain (encode s) (all-encode _ s refl refl)
