-- ===== src/Client/Keys/Sealed.antt =====
-- What encryption seals and what decryption accepts.
use umewarden.Prelude.{
  ℕ, ◌+◌, ◌-◌, ◌*◌, ◌/◌, ◌%◌, ◌≤◌, ◌≡◌, refl, ap, ◌∙◌, ◌↔◌, true, some, Option-cases, inl, inr,
  List, [], ◌∷◌, ◌++◌, length, length-append, length-replicate, take, drop, replicate, arith,
}
use umewarden.Prelude.Text.{Text, utf8}
use umewarden.Client.{ok}
use umewarden.Client.Keys.{
  Crates, EncString, decrypt_checked, decrypt, decrypt_to_string, encrypt, padded, to_string,
}
use umewarden.Client.Keys.Strings.{IsBase64, IsSupported, parse-to_string}
use umewarden.Client.Keys.Chain.{DecryptContext, from_protected_key, decrypt_str, encrypt_str}

-- What the program relies on of ring and aes: a signature verifies, and a buffer that holds the
-- plaintext with room for its padding can be encrypted, and decrypts to the plaintext.
pub record IsCipher (c : Crates) : Type 0 where
  pub verify-sign :
      (key message : List ℕ) → c.hmac_verify key message (c.hmac_sign key message) ≡ true
  pub decrypts_back :
      (key iv plaintext room : List ℕ)
      → length key ≡ 32
      → length iv ≡ 16
      → (length plaintext / 16 + 1) * 16 ≤ length (plaintext ++ room)
      → (ciphertext : List ℕ) × (c.encrypt_padded key iv (plaintext ++ room) (length plaintext)
          ≡ some ciphertext)
        × (c.decrypt_padded key iv ciphertext ≡ some plaintext)

module _ (c : Crates) where
  -- An encrypted string with a MAC decrypts to `plaintext` exactly when the MAC verifies over the IV
  -- and the ciphertext under the MAC key, the IV has 16 bytes, and AES decrypts to `plaintext`.
  pub decrypt-eq-ok_iff :
      (e : EncString) (enc_key mac_key mac plaintext : List ℕ)
      → e.mac ≡ some mac
      → (decrypt c e enc_key mac_key ≡ ok plaintext) ↔ (
          (c.hmac_verify mac_key (e.iv ++ e.ciphertext) mac ≡ true)
          × (length e.iv ≡ 16)
          × (c.decrypt_padded enc_key e.iv e.ciphertext ≡ some plaintext))
  unfolding decrypt decrypt_checked
  decrypt-eq-ok_iff e enc_key mac_key mac plaintext m = (
    λ h. elim (Option-cases (c.decrypt_padded enc_key e.iv e.ciphertext)) [
      | inl d ↦ absurd (ground arith)
      | inr (p, d) ↦ ground arith
    ],
    λ (v, l, d). ground arith,
  )

  padded_room : (p : List ℕ) → (length p / 16 + 1) * 16 ≤ length (padded c p)
  padded_room p = omega (
    arith,
    length-append p (replicate (16 - length p % 16) 0),
    length-replicate {A = ℕ} (16 - length p % 16) 0,
  )

module _ (c : Crates) (cipher : IsCipher c) (iv enc_key mac_key : List ℕ)
    (key_32 : length enc_key ≡ 32) (iv_16 : length iv ≡ 16) where
  -- With a key of 32 bytes, a random IV of 16 and crates that behave as documented, encryption
  -- returns for every plaintext: an encrypted string of type 2 with a MAC, which decrypts to the
  -- plaintext under the same keys.
  pub decrypt-encrypt :
      (plaintext : List ℕ)
      → (e : EncString) × (encrypt c (some iv) plaintext enc_key mac_key ≡ ok e)
        × (decrypt c e enc_key mac_key ≡ ok plaintext)
        × IsSupported e
        × (e.enc_type ≡ 2)
  unfolding encrypt
  decrypt-encrypt plaintext =
      let (ct, sealed, opened) =
        cipher.decrypts_back enc_key iv plaintext _ key_32 iv_16 (padded_room c plaintext) in
      let tag = c.hmac_sign mac_key (iv ++ ct) in
      let e : EncString = record { enc_type = 2; iv = iv; ciphertext = ct; mac = some tag } in
      (
        e,
        rw sealed refl,
        (decrypt-eq-ok_iff c e enc_key mac_key tag plaintext refl).1
            (cipher.verify-sign mac_key (iv ++ ct), iv_16, opened),
        inl (refl, tag, refl),
        refl,
      )

  -- With keys of 32 bytes, a random IV of 16 and crates that behave as documented, a text that reads
  -- back from its UTF-8 bytes is encrypted to a string, and this string decrypts to the text in the
  -- same context.
  pub decrypt_str-encrypt_str :
      IsBase64 c
      → (plaintext : Text) → c.from_utf8 (utf8 plaintext) ≡ some plaintext
      → let ctx : DecryptContext = record { enc_key = enc_key; mac_key = mac_key } in
        (s : Text) × (encrypt_str c ctx (some iv) plaintext ≡ ok s)
        × (decrypt_str c ctx s ≡ ok plaintext)
  unfolding encrypt_str decrypt_str decrypt_to_string
  decrypt_str-encrypt_str base64 plaintext text_back =
      let (e, sealed, opened, supported, _) = decrypt-encrypt (utf8 plaintext) in
      (
        to_string c e,
        rw sealed refl,
        rw (parse-to_string c base64 e supported) (rw opened (rw text_back refl)),
      )

take-append : (a b : List ℕ) → take (length a) (a ++ b) ≡ a
take-append [] b = refl
take-append (x ∷ a) b = ap (◌∷◌ x) (take-append a b)

drop-append : (a b : List ℕ) → drop (length a) (a ++ b) ≡ b
drop-append [] b = refl
drop-append (x ∷ a) b = drop-append a b

take-length : (a : List ℕ) → take (length a) a ≡ a
take-length [] = refl
take-length (x ∷ a) = ap (◌∷◌ x) (take-length a)

halves :
    (a b : List ℕ)
    → length a ≡ 32
    → length b ≡ 32
    → (take 32 (a ++ b) ≡ a) × (take 32 (drop 32 (a ++ b)) ≡ b)
halves a b la lb =
    let rest : drop 32 (a ++ b) ≡ b = rw⁻¹ la (drop-append a b) in
    (rw⁻¹ la (take-append a b), ap (take 32) rest ∙ rw⁻¹ lb (take-length b))

-- With crates that behave as documented, a key of the user that was protected as its two halves of 32 bytes comes out of the protected
-- string as these two halves, under the stretched keys that protected it.
pub from_protected_key-encrypt :
    (c : Crates) (cipher : IsCipher c) (iv enc_key mac_key user_enc user_mac : List ℕ)
    → length enc_key ≡ 32
    → length iv ≡ 16
    → length user_enc ≡ 32
    → length user_mac ≡ 32
    → (e : EncString) × (encrypt c (some iv) (user_enc ++ user_mac) enc_key mac_key ≡ ok e)
      × (from_protected_key c e enc_key mac_key
          ≡ ok (record { enc_key = user_enc; mac_key = user_mac }))
unfolding from_protected_key
from_protected_key-encrypt c cipher iv enc_key mac_key user_enc user_mac key_32 iv_16 enc_32
      mac_32 =
    let (e, sealed, opened, _, _) =
      decrypt-encrypt c cipher iv enc_key mac_key key_32 iv_16 (user_enc ++ user_mac) in
    let whole : length (user_enc ++ user_mac) ≡ 64 =
      omega (arith, length-append user_enc user_mac) in
    let (first, second) = halves user_enc user_mac enc_32 mac_32 in
    (e, sealed, rw opened (rw (whole, first, second) refl))
