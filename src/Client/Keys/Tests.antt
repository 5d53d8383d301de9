-- ===== src/Client/Keys/Tests.antt =====
-- Runs of the encrypted strings, and the theorems at concrete inputs: crates whose ciphertext is the
-- plaintext, whose tag is key and message, and whose text of a byte is one character.
use umewarden.Prelude.{
  ℕ, ◌+◌, ◌-◌, ◌≡◌, refl, ap, ◌↔◌, true, false, some, inl, inr, List, [], ◌∷◌, ◌++◌, length, take,
  replicate, map, All, arith, ◌==◌,
}
use umewarden.Prelude.Text.{Text, codes, text_eq, text_eq_refl, utf8}
use umewarden.Client.{ok}
use umewarden.Client.Keys.{Crates, EncString, parse, to_string, decrypt}
use umewarden.Client.Keys.Strings.{IsBase64, parse-to_string}
use umewarden.Client.Keys.Chain.{DecryptContext, decrypt_str, encrypt_str}
use umewarden.Client.Keys.Sealed.{IsCipher, decrypt-eq-ok_iff, decrypt_str-encrypt_str}

abbrev crates : Crates
crates = record {
  b64_encode = map (λ x. x + 125);
  b64_decode = λ s. inr (map (λ x. x - 125) s);
  hmac_sign = λ key message. key ++ message;
  hmac_verify = λ key message tag. text_eq (key ++ message) tag;
  encrypt_padded = λ key iv buffer count. some (take count buffer);
  decrypt_padded = λ key iv ciphertext. some ciphertext;
  from_utf8 = some;
  is_prk = λ key. true;
  expand = λ key label. some (replicate 32 7);
  pbkdf2 = λ iterations salt secret. replicate 32 9;
  argon2id = λ memory iterations lanes password salt. inr (replicate 32 9);
  to_lowercase = λ s. s;
}

shifted_back : (b : List ℕ) → map (λ x. x - 125) (map (λ x. x + 125) b) ≡ b
shifted_back [] = refl
shifted_back (x ∷ b) = let e : x + 125 - 125 ≡ x = omega arith in rw (e, shifted_back b) refl

above_bar : (b : List ℕ) → All (λ x. (x == b'|') ≡ false) (map (λ x. x + 125) b)
above_bar [] = tt
above_bar (x ∷ b) = (ground arith, above_bar b)

crates-IsBase64 : IsBase64 crates
crates-IsBase64 = record { decode-encode = λ b. ap inr (shifted_back b); no_bar = above_bar }

front : (p room : List ℕ) → take (length p) (p ++ room) ≡ p
front [] room = refl
front (x ∷ p) room = ap (◌∷◌ x) (front p room)

crates-IsCipher : IsCipher crates
crates-IsCipher = record {
  verify-sign = λ key message. text_eq_refl (key ++ message);
  decrypts_back = λ key iv p room k i r. (p, ap some (front p room), refl);
}

abbrev hi : List ℕ
hi = codes "hi"

abbrev key_enc : List ℕ
key_enc = replicate 32 1

abbrev key_mac : List ℕ
key_mac = replicate 32 2

abbrev nonce : List ℕ
nonce = replicate 16 3

abbrev sample : EncString
sample = record { enc_type = 2; iv = nonce; ciphertext = hi; mac = some (key_mac ++ (nonce ++ hi)) }

parse-to_string_example : parse crates (to_string crates sample) ≡ ok sample
parse-to_string_example = parse-to_string crates crates-IsBase64 sample (inl (refl, _, refl))

decrypt-eq-ok_iff_example : (decrypt crates sample key_enc key_mac ≡ ok hi) ↔ (
    (text_eq (key_mac ++ (nonce ++ hi)) (key_mac ++ (nonce ++ hi)) ≡ true)
    × (length nonce ≡ 16)
    × (some hi ≡ some hi))
decrypt-eq-ok_iff_example = decrypt-eq-ok_iff crates sample key_enc key_mac _ hi refl

decrypt_str-encrypt_str_example :
    let ctx : DecryptContext = record { enc_key = key_enc; mac_key = key_mac } in
    (s : Text) × (encrypt_str crates ctx (some nonce) (codes "hi") ≡ ok s)
    × (decrypt_str crates ctx s ≡ ok (codes "hi"))
unfolding utf8
decrypt_str-encrypt_str_example =
    decrypt_str-encrypt_str crates crates-IsCipher nonce key_enc key_mac refl refl crates-IsBase64
      (codes "hi") refl
