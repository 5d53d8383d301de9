-- ===== src/Client/Keys/Chain.antt =====
-- From the password to the keys of the vault, and text under these keys.
use umewarden.Prelude.{
  ℕ, ◌*◌, ◌%◌, ◌^◌, not, Option, List, ◌++◌, length, take, drop, ◌==◌, if◌then◌else◌,
}
use umewarden.Prelude.Text.{Text, codes, utf8, trim}
use umewarden.Client.{crypto, Outcome, ok, err, ◌>>=◌, ok_or}
use umewarden.Client.Keys.{
  Crates, EncString, decimal, or_message, parse, to_string, decrypt, decrypt_to_string, encrypt,
}

pub data KdfType : Type 0 where
  pbkdf2_sha256 argon2id : KdfType

pub from_server_value : ℕ → Outcome KdfType
unfolding decimal
from_server_value v =
    if v == 0
    then ok pbkdf2_sha256
    else if v == 1
    then ok argon2id
    else err (crypto (codes "unknown KDF type from server: " ++ decimal v))

pub record KdfParams : Type 0 where
  pub kdf_type : KdfType
  pub iterations : ℕ
  pub memory_mib : Option ℕ
  pub parallelism : Option ℕ

-- `max(1)`
abbrev at_least_one : ℕ → ℕ
at_least_one n = if n == 0 then 1 else n

pub record DecryptContext : Type 0 where
  pub enc_key : List ℕ
  pub mac_key : List ℕ

module _ (c : Crates) where
  unfoldable pub stretch_master_key : List ℕ → Outcome (List ℕ × List ℕ)
  stretch_master_key master_key =
      if not (c.is_prk master_key)
      then err (crypto (codes "HKDF: master_key too short as PRK"))
      else (do
        enc_key ←
            ok_or (crypto (codes "HKDF expand(enc) failed")) (c.expand master_key (codes "enc"))
        mac_key ←
            ok_or (crypto (codes "HKDF expand(mac) failed")) (c.expand master_key (codes "mac"))
        ok (enc_key, mac_key))

  -- behind the salt; the product of u32 wraps around in a release build
  pub derive_from : List ℕ → Text → KdfParams → KdfType → Outcome (List ℕ)
  derive_from salt password params pbkdf2_sha256 =
      ok (c.pbkdf2 (at_least_one params.iterations) salt (utf8 password))
  derive_from salt password params argon2id = do
    memory_mib ← ok_or (crypto (codes "Argon2id requires memory_mib")) params.memory_mib
    parallelism ← ok_or (crypto (codes "Argon2id requires parallelism")) params.parallelism
    or_message (λ e. e)
        (c.argon2id (memory_mib * 1024 % 2 ^ 32) (at_least_one params.iterations) parallelism
          (utf8 password) salt)

  unfoldable pub derive_master_key : Text → Text → KdfParams → Outcome (List ℕ)
  unfolding derive_from
  derive_master_key password email params =
      derive_from (utf8 (c.to_lowercase (trim email))) password params params.kdf_type

  unfoldable pub master_password_hash : List ℕ → Text → Text
  master_password_hash master_key password = c.b64_encode (c.pbkdf2 1 (utf8 password) master_key)

  unfoldable pub from_protected_key : EncString → List ℕ → List ℕ → Outcome DecryptContext
  unfolding decimal
  from_protected_key protected_key stretched_enc_key stretched_mac_key = do
    raw ← decrypt c protected_key stretched_enc_key stretched_mac_key
    if not (length raw == 64)
        then err (
            crypto (
              codes "decrypted user key has unexpected length "
              ++ decimal (length raw)
              ++ codes " (expected 64)"))
        else ok (record { enc_key = take 32 raw; mac_key = take 32 (drop 32 raw) })

  unfoldable pub decrypt_str : DecryptContext → Text → Outcome Text
  decrypt_str ctx enc_string = do
    e ← parse c enc_string
    decrypt_to_string c e ctx.enc_key ctx.mac_key

  unfoldable pub encrypt_str : DecryptContext → Option (List ℕ) → Text → Outcome Text
  encrypt_str ctx random plaintext = do
    e ← encrypt c random (utf8 plaintext) ctx.enc_key ctx.mac_key
    ok (to_string c e)
