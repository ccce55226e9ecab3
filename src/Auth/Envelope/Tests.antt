-- ===== src/Auth/Envelope/Tests.antt =====
-- The envelope with a cipher that hides nothing: its tag is the additional data.
use zk_voting.Prelude.{◌≡◌, refl, none, some, [], ◌∷◌, ◌++◌, if◌then◌else◌}
use zk_voting.Prelude.Outcome.{err, ◌>>=◌}
use zk_voting.Prelude.Text.{codes, text_eq, text_eq_refl}
use zk_voting.Prelude.Bytes.{Bytes, well_formed_plain}
use zk_voting.Otp.Token.TwoLetters.{encode, decode_from, encode-IsUtf8}
use zk_voting.Auth.Envelope.{Cipher, failed_to_decrypt, encrypt_secret, decrypt_secret}
use zk_voting.Auth.Envelope.RoundTrip.{IsAuthenticated, decrypt-encrypt_secret}

abbrev open_cipher : Cipher
open_cipher = record {
  seal = λ key iv aad plaintext. (plaintext, aad);
  unseal = λ key iv aad tag ciphertext. if text_eq tag aad then some ciphertext else none;
  utf8 = encode;
  from_utf8 = decode_from 0;
}

open_cipher-IsAuthenticated : IsAuthenticated open_cipher
open_cipher-IsAuthenticated = record {
  opens = λ key iv aad plaintext sealable. rw (text_eq_refl aad) refl;
  rejects = λ key iv aad presented plaintext sealable bytes apart. rw apart refl;
  seals_bytes = λ key iv aad plaintext sealable. sealable.plaintext_bytes;
  tags_bytes = λ key iv aad plaintext sealable. sealable.aad_bytes;
  encoding = encode-IsUtf8;
}

abbrev eight : Bytes
eight = 1 ∷ 2 ∷ 3 ∷ 4 ∷ 5 ∷ 6 ∷ 7 ∷ 8 ∷ []

abbrev store_key : Bytes
store_key = eight ++ eight ++ eight ++ eight

abbrev nonce : Bytes
nonce = eight ++ 250 ∷ 251 ∷ 252 ∷ 253 ∷ []

decrypt-encrypt_secret_example :
    (encrypt_secret open_cipher nonce (codes "0x1f") store_key (codes "ann") >>= λ envelope.
    decrypt_secret open_cipher envelope store_key (codes "bob"))
    ≡ err failed_to_decrypt
unfolding text_eq
decrypt-encrypt_secret_example =
    decrypt-encrypt_secret open_cipher open_cipher-IsAuthenticated (codes "ann") (codes "bob")
      (well_formed_plain (codes "ann") refl) (well_formed_plain (codes "bob") refl) nonce store_key
      (codes "0x1f") (well_formed_plain (codes "0x1f") refl) refl refl refl refl
