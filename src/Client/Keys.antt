-- ===== src/Client/Keys.antt =====
-- client/src-tauri/src/crypto/keys.rs: the encrypted strings of the vault, and the keys that read
-- them. Bytes are numbers; a key of type `[u8; 32]` is a list of bytes. The crates base64, ring, aes,
-- hkdf and argon2 are the fields of `Crates`, and so is `String::from_utf8`.
pub mod Strings
pub mod Chain
pub mod Sealed
mod Tests
use umewarden.Prelude.{
  ℕ, suc, ◌+◌, ◌-◌, ◌*◌, ◌%◌, ◌^◌, Bool, true, false, not, Option, none, some, ◌⊎◌, inl, inr, List,
  [], ◌∷◌, ◌++◌, length, take, drop, replicate, ltb, ◌==◌, if◌then◌else◌,
}
use umewarden.Prelude.Text.{Text, codes, split_once, split, parse_uint, decimal_fuel, utf8, trim}
use umewarden.Client.{VaultError, crypto, Outcome, ok, err, ◌>>=◌, ok_or}

pub record Crates : Type 0 where
  -- the standard alphabet with padding; the error's message
  pub b64_encode : List ℕ → Text
  pub b64_decode : Text → Text ⊎ List ℕ
  -- HMAC-SHA256 by key and message
  pub hmac_sign : List ℕ → List ℕ → List ℕ
  pub hmac_verify : List ℕ → List ℕ → List ℕ → Bool
  -- AES-256 in CBC mode with PKCS #7 padding: key, IV, buffer, and the bytes of it that count
  pub encrypt_padded : List ℕ → List ℕ → List ℕ → ℕ → Option (List ℕ)
  pub decrypt_padded : List ℕ → List ℕ → List ℕ → Option (List ℕ)
  pub from_utf8 : List ℕ → Option Text
  -- HKDF with SHA-256: whether the key is long enough, and the 32 bytes for a label
  pub is_prk : List ℕ → Bool
  pub expand : List ℕ → List ℕ → Option (List ℕ)
  -- PBKDF2 with HMAC-SHA256: iterations, salt, secret; 32 bytes
  pub pbkdf2 : ℕ → List ℕ → List ℕ → List ℕ
  -- Argon2id, version 0x13: memory in KiB, iterations, lanes, password, salt; 32 bytes or a message
  pub argon2id : ℕ → ℕ → ℕ → List ℕ → List ℕ → Text ⊎ List ℕ
  pub to_lowercase : Text → Text

pub record EncString : Type 0 where
  pub enc_type : ℕ
  pub iv : List ℕ
  pub ciphertext : List ℕ
  pub mac : Option (List ℕ)

-- `to_string` of a u32
decimal : ℕ → Text
unfolding decimal_fuel
decimal n = decimal_fuel 10 n

abbrev or_message : {A : Type 0} → (Text → Text) → Text ⊎ A → Outcome A
or_message f (inl e) = err (crypto (f e))
or_message f (inr a) = ok a

unsupported : ℕ → Text
unfolding decimal
unsupported other =
    codes "EncString: unsupported type "
    ++ decimal other
    ++ codes " (asymmetric/org-key EncStrings not implemented)"

module _ (c : Crates) where
  pub b64_decode : Text → Outcome (List ℕ)
  b64_decode s = or_message (λ e. codes "base64 decode failed: " ++ e) (c.b64_decode s)

  pub parse_2 : List Text → Outcome EncString
  unfolding b64_decode
  parse_2 (iv ∷ ct ∷ mac ∷ []) = do
    iv' ← b64_decode iv
    ct' ← b64_decode ct
    mac' ← b64_decode mac
    ok (record { enc_type = 2; iv = iv'; ciphertext = ct'; mac = some mac' })
  parse_2 _ = err (crypto (codes "EncString: type 2 requires iv|ct|mac"))

  pub parse_0 : List Text → Outcome EncString
  unfolding b64_decode
  parse_0 (iv ∷ ct ∷ []) = do
    iv' ← b64_decode iv
    ct' ← b64_decode ct
    ok (record { enc_type = 0; iv = iv'; ciphertext = ct'; mac = none })
  parse_0 _ = err (crypto (codes "EncString: type 0 requires iv|ct"))

  -- the match on the type
  pub parse_parts : ℕ → List Text → Outcome EncString
  unfolding parse_2 parse_0 unsupported
  parse_parts enc_type parts =
      if enc_type == 2
      then parse_2 parts
      else if enc_type == 0
      then parse_0 parts
      else err (crypto (unsupported enc_type))

  unfoldable pub parse : Text → Outcome EncString
  unfolding parse_parts
  parse s = do
    (type_part, rest) ←
        ok_or (crypto (codes "EncString: missing type separator")) (split_once b'.' s)
    enc_type ← ok_or (crypto (codes "EncString: invalid type prefix")) (parse_uint 255 type_part)
    parse_parts enc_type (split b'|' rest)

  abbrev mac_part : Option (List ℕ) → Text
  mac_part none = []
  mac_part (some mac) = b'|' ∷ c.b64_encode mac

  -- `Display`
  unfoldable pub to_string : EncString → Text
  unfolding decimal
  to_string e =
      decimal e.enc_type
      ++ (b'.' ∷ (c.b64_encode e.iv ++ (b'|' ∷ (c.b64_encode e.ciphertext ++ mac_part e.mac))))

  -- behind the check of the MAC
  pub decrypt_checked : EncString → List ℕ → Outcome (List ℕ)
  decrypt_checked e enc_key =
      if not (length e.iv == 16)
      then err (crypto (codes "EncString: IV must be 16 bytes"))
      else ok_or (crypto (codes "EncString: AES-CBC decryption failed (bad padding)"))
          (c.decrypt_padded enc_key e.iv e.ciphertext)

  unfoldable pub decrypt : EncString → List ℕ → List ℕ → Outcome (List ℕ)
  unfolding decrypt_checked
  decrypt e enc_key mac_key = elim e.mac [
    | none ↦ decrypt_checked e enc_key
    | some mac ↦
        if not (c.hmac_verify mac_key (e.iv ++ e.ciphertext) mac)
        then err (crypto (codes "EncString: MAC verification failed (wrong key or tampered data)"))
        else decrypt_checked e enc_key
  ]

  unfoldable pub decrypt_to_string : EncString → List ℕ → List ℕ → Outcome Text
  unfolding decrypt
  decrypt_to_string e enc_key mac_key = do
    bytes ← decrypt e enc_key mac_key
    ok_or (crypto (codes "EncString: decrypted data is not valid UTF-8")) (c.from_utf8 bytes)

  -- the buffer with room for the padding
  abbrev pub padded : List ℕ → List ℕ
  padded plaintext = plaintext ++ replicate (16 - length plaintext % 16) 0

  -- with what the random generator filled in
  unfoldable pub encrypt : Option (List ℕ) → List ℕ → List ℕ → List ℕ → Outcome EncString
  encrypt random plaintext enc_key mac_key = do
    iv ← ok_or (crypto (codes "IV generation failed")) random
    ciphertext ←
        ok_or (crypto (codes "AES-CBC encryption failed"))
          (c.encrypt_padded enc_key iv (padded plaintext) (length plaintext))
    ok (record {
      enc_type = 2;
      iv = iv;
      ciphertext = ciphertext;
      mac = some (c.hmac_sign mac_key (iv ++ ciphertext));
    })
