-- ===== src/Server/Api/Accounts/Register.antt =====
-- server/src/api/core/accounts.rs, register.
use umewarden.Prelude.{
  ℕ, Bool, true, false, not, ◌&&◌, ◌||◌, Option, none, some, List, [], ◌∷◌, if◌then◌else◌,
}
use umewarden.Prelude.Text.{Text, codes, text_eq, trim}
use umewarden.Server.Db.{
  User, Db, Result, ok, err, register_malformed, register_unproven, name_long, claim_bad,
  not_allowed_or_exists, M, pure, raise, query, guard, modify, ◌>>=◌, ◌>>◌,
}
use umewarden.Server.Models.User
use umewarden.Server.Models.User.{Reader, take_invitation}
use umewarden.Server.Models.User.Password.{Pbkdf2, StampCodec, Draws, set_password}
use umewarden.Server.Auth
use umewarden.Server.Auth.{Jwt, decode_jwt}
use umewarden.Server.Auth.Claims.{RegisterVerifyClaims, issuer}
use umewarden.Server.Api.Email
use umewarden.Server.Api.Email.{activate_email_2fa}
use umewarden.Server.Api.Accounts.{
  Settings, KdfData, set_kdf_data, clean_password_hint, enforce_password_hint_setting, is_long,
}
use umewarden.Server.Api.Accounts.Change.{KeysData, with_keys, same_kdf}

-- `MasterPasswordAuthentication` and `MasterPasswordUnlock`, whose secret is the hash or the key
pub record MasterPassword : Type 0 where
  pub kdf : KdfData
  pub salt : Text
  pub secret : Text

-- `RegisterDataCompat`
pub data RegisterDataCompat : Type 0 where
  -- the settings, the key and the hash
  register_data_old : KdfData → Text → Text → RegisterDataCompat
  -- for authentication and for unlocking
  register_data_cur : MasterPassword → MasterPassword → RegisterDataCompat

pub record RegisterData : Type 0 where
  pub email : Text
  pub compat : RegisterDataCompat
  pub keys : Option KeysData
  pub master_password_hint : Option Text
  pub name : Option Text
  pub email_verification_token : Option Text

abbrev hash_of : RegisterDataCompat → Text
hash_of (register_data_old kdf key hash) = hash
hash_of (register_data_cur authentication unlock) = authentication.secret

abbrev kdf_of : RegisterDataCompat → KdfData
kdf_of (register_data_old kdf key hash) = kdf
kdf_of (register_data_cur authentication unlock) = authentication.kdf

abbrev key_of : RegisterDataCompat → Text
key_of (register_data_old kdf key hash) = key
key_of (register_data_cur authentication unlock) = unlock.secret

-- `unprocessable`, with the normalized address
abbrev unprocessable : Text → RegisterDataCompat → Bool
unprocessable email (register_data_old kdf key hash) = false
unprocessable email (register_data_cur authentication unlock) =
    not (same_kdf authentication.kdf unlock.kdf)
    || (not (text_eq authentication.salt email) || not (text_eq unlock.salt email))

-- the name, and whether the address is verified
pub record Proof : Type 0 where
  pub name : Option Text
  pub verified : Bool

abbrev or_given : Option Text → Option Text → Option Text
or_given none given = given
or_given (some name) given = some name

abbrev name_is_long : Option Text → Bool
name_is_long none = false
name_is_long (some name) = is_long name

abbrev is_initialized : User → Bool
is_initialized u = is_filled u.password_hash
  where
    is_filled : List ℕ → Bool
    is_filled [] = false
    is_filled (_ ∷ _) = true

abbrev named : Option Text → User → User
named none u = u
named (some name) u = record u { name = name }

abbrev verified_at_if : ℕ → Bool → User → User
verified_at_if now true u = record u { verified_at = some now }
verified_at_if now false u = u

module _ (settings : Settings) (config : Auth.Config) (jwt : Jwt RegisterVerifyClaims)
    (mails : Email.Env) (reader : Reader) (kdf : Pbkdf2) (stamps : StampCodec) (draws : Draws)
    (now : ℕ) (fresh_id : ℕ) (new_user : User) where
  abbrev returned : Result RegisterVerifyClaims → M RegisterVerifyClaims
  returned (ok c) = pure c
  returned (err e) = raise e

  abbrev read_token : RegisterData → Option Text → M Proof
  read_token asked none = raise register_unproven
  read_token asked (some token) = do
    claims ← returned (decode_jwt jwt now token (issuer config (codes "|register_verify")))
    guard (text_eq claims.sub asked.email) claim_bad
    pure (record { name = or_given claims.name asked.name; verified = claims.verified })

  abbrev prove : Bool → RegisterData → M Proof
  prove true asked = read_token asked asked.email_verification_token
  prove false asked = pure (record { name = asked.name; verified = false })

  -- an invitation comes before the other restrictions
  abbrev admit : Text → User → M User
  admit email u = do
    invited ← take_invitation reader email
    if invited || settings.is_signup_allowed email then pure u else raise not_allowed_or_exists

  abbrev find_or_new : Text → Option User → M User
  find_or_new email none = admit email new_user
  find_or_new email (some u) = do
    guard (not (is_initialized u)) not_allowed_or_exists
    admit email u

  -- an error of the activation is dropped
  abbrev activate : Bool → User → Db → Db
  activate email_verified u db =
      if settings.mail_enabled
        && (email_verified && (settings.email_2fa_enabled && settings.email_2fa_enforced))
      then (activate_email_2fa mails now fresh_id u db).1
      else db

  abbrev welcome : Bool → User → User
  welcome email_verified u =
      if settings.mail_enabled && (settings.signups_verify && not email_verified)
      then record u { last_verifying_at = some u.created_at }
      else u

  -- `new_user` is `User::new` with the address in lower case; errors of the mails are logged
  unfoldable pub register : Bool → RegisterData → M User
  register email_verification asked = do
    let email = reader.to_lowercase asked.email
    guard (not (unprocessable (reader.to_lowercase (trim asked.email)) asked.compat))
        register_malformed
    proof ← prove email_verification asked
    guard (not (name_is_long proof.name)) name_long
    let password_hint = clean_password_hint asked.master_password_hint
    enforce_password_hint_setting settings password_hint
    found ← query (User.find_by_mail reader email)
    u ← find_or_new email found
    _ ← take_invitation reader email
    derived ← set_kdf_data u (kdf_of asked.compat)
    changed ←
        set_password stamps kdf draws now (hash_of asked.compat) (some (key_of asked.compat)) true
          none derived
    let filled = welcome proof.verified (
        verified_at_if now proof.verified (
          with_keys asked.keys
            (named proof.name (record changed { password_hint = password_hint }))))
    modify (activate proof.verified filled)
    User.save reader now filled
