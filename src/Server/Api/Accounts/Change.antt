-- ===== src/Server/Api/Accounts/Change.antt =====
-- server/src/api/core/accounts.rs: new passwords, key derivations, stamps and addresses. Each of them
-- ends the other sessions of the user.
use umewarden.Prelude.{
  ℕ, Bool, true, false, not, ◌&&◌, ◌||◌, Option, none, some, List, [], ◌∷◌, ◌==◌, if◌then◌else◌,
}
use umewarden.Prelude.Int.{ℤ, pos, negsuc}
use umewarden.Prelude.Text.{Text, codes, text_eq}
use umewarden.Server.Db.{
  User, Db, invalid_password, panicked, already_initialized, mail_refused, kdf_unequal, salt_bad,
  email_change_forbidden, email_in_use, domain_forbidden, email_mismatch, no_email_change,
  code_mismatch, M, Result, ok, err, pure, raise, query, require, guard, ◌>>=◌, ◌>>◌,
}
use umewarden.Server.Models.Device
use umewarden.Server.Models.User
use umewarden.Server.Models.User.{Reader}
use umewarden.Server.Models.User.Password.{
  Pbkdf2, StampCodec, Draws, set_password, reset_security_stamp, check_valid_password,
}
use umewarden.Server.Api.ProtectedActions
use umewarden.Server.Api.ProtectedActions.{validate_password_or_otp}
use umewarden.Server.Api.Accounts.{
  Settings, KdfData, set_kdf_data, clean_password_hint, enforce_password_hint_setting,
}

pub record KeysData : Type 0 where
  pub encrypted_private_key : Text
  pub public_key : Text

abbrev pub with_keys : Option KeysData → User → User
with_keys none u = u
with_keys (some k) u = record u {
  private_key = some k.encrypted_private_key;
  public_key = some k.public_key;
}

abbrev is_none : Option Text → Bool
is_none none = true
is_none (some _) = false

abbrev pub is_found : Option User → Bool
is_found none = false
is_found (some _) = true

abbrev same_int : ℤ → ℤ → Bool
same_int (pos m) (pos n) = m == n
same_int (negsuc m) (negsuc n) = m == n
same_int _ _ = false

abbrev same_option : Option ℤ → Option ℤ → Bool
same_option none none = true
same_option (some m) (some n) = same_int m n
same_option _ _ = false

-- `KDFData`'s equality
abbrev pub same_kdf : KdfData → KdfData → Bool
same_kdf a b =
    same_int a.kdf b.kdf
    && (same_int a.kdf_iterations b.kdf_iterations
        && (same_option a.kdf_memory b.kdf_memory
            && same_option a.kdf_parallelism b.kdf_parallelism))

-- `ChangePassData`
pub record ChangePassData : Type 0 where
  pub master_password_hash : Text
  pub new_master_password_hash : Text
  pub master_password_hint : Option Text
  pub key : Text

-- `AuthenticationData` and `UnlockData` of `ChangeKdfData`
pub record ChangeKdfData : Type 0 where
  pub authentication_salt : Text
  pub authentication_kdf : KdfData
  pub authentication_hash : Text
  pub unlock_salt : Text
  pub unlock_kdf : KdfData
  pub wrapped_user_key : Text
  pub master_password_hash : Text

-- `ChangeEmailData`, whose token is written out
pub record ChangeEmailData : Type 0 where
  pub master_password_hash : Text
  pub new_email : Text
  pub key : Text
  pub new_master_password_hash : Text
  pub token : Text

-- `SetPasswordData`
pub record SetPasswordData : Type 0 where
  pub kdf : KdfData
  pub key : Text
  pub keys : Option KeysData
  pub master_password_hash : Text
  pub master_password_hint : Option Text

abbrev returned : Result User → M User
returned (ok u) = pure u
returned (err e) = raise e

module _ (settings : Settings) (reader : Reader) (kdf : Pbkdf2) (stamps : StampCodec)
    (draws : Draws) (now : ℕ) where
  abbrev pub check_password : User → Text → M (Unit {0})
  check_password u given = do
    valid ← require panicked (check_valid_password kdf u given)
    guard valid invalid_password

  unfoldable pub post_set_password : SetPasswordData → User → M User
  post_set_password asked u = do
    guard (is_none u.private_key) already_initialized
    let password_hint = clean_password_hint asked.master_password_hint
    enforce_password_hint_setting settings password_hint
    derived ← set_kdf_data u asked.kdf
    changed ←
        set_password stamps kdf draws now asked.master_password_hash (some asked.key) false
          (some (codes "revision_date" ∷ [])) derived
    guard (not settings.mail_enabled || settings.mail_sent) mail_refused
    User.save reader now (with_keys asked.keys (record changed { password_hint = password_hint }))

  -- the routes that may still use the old stamp
  abbrev pub next_routes : List Text
  next_routes =
      codes "post_rotatekey"
      ∷ codes "get_contacts"
      ∷ codes "get_public_keys"
      ∷ codes "get_api_webauthn"
      ∷ []

  unfoldable pub post_password : ChangePassData → User → M User
  post_password asked u = do
    check_password u asked.master_password_hash
    let password_hint = clean_password_hint asked.master_password_hint
    enforce_password_hint_setting settings password_hint
    changed ←
        set_password stamps kdf draws now asked.new_master_password_hash (some asked.key) true
          (some next_routes) (record u { password_hint = password_hint })
    User.save reader now changed

  unfoldable pub post_kdf : ChangeKdfData → User → M User
  post_kdf asked u = do
    check_password u asked.master_password_hash
    guard (same_kdf asked.authentication_kdf asked.unlock_kdf) kdf_unequal
    guard (text_eq u.email asked.authentication_salt && text_eq u.email asked.unlock_salt) salt_bad
    derived ← set_kdf_data u asked.unlock_kdf
    changed ←
        set_password stamps kdf draws now asked.authentication_hash (some asked.wrapped_user_key)
          true none derived
    User.save reader now changed

  unfoldable pub post_email_token : Text → Text → Text → User → M User
  post_email_token drawn master_password_hash new_email u = do
    guard settings.email_change_allowed email_change_forbidden
    check_password u master_password_hash
    existing ← query (User.find_by_mail reader new_email)
    guard (not (is_found existing)) email_in_use
    guard (settings.is_email_domain_allowed new_email) domain_forbidden
    User.save reader now (record u { email_new = some new_email; email_new_token = some drawn })

  abbrev pub check_code : Text → Option Text → M (Unit {0})
  check_code given none = raise no_email_change
  check_code given (some val) = guard (text_eq val given) code_mismatch

  -- the token is only checked if a mail was sent
  abbrev pub verified : Text → User → M User
  verified token u =
      if settings.mail_enabled
      then (do check_code token u.email_new_token; pure (record u { verified_at = some now }))
      else pure (record u { verified_at = none })

  unfoldable pub post_email : ChangeEmailData → User → M (Unit {0})
  post_email asked u = do
    guard settings.email_change_allowed email_change_forbidden
    check_password u asked.master_password_hash
    existing ← query (User.find_by_mail reader asked.new_email)
    guard (not (is_found existing)) email_in_use
    pending ← require no_email_change u.email_new
    guard (text_eq pending asked.new_email) email_mismatch
    proven ← verified asked.token u
    changed ←
        set_password stamps kdf draws now asked.new_master_password_hash (some asked.key) true none
          (record proven { email = asked.new_email; email_new = none; email_new_token = none })
    _ ← User.save reader now changed
    pure tt

  -- the result of the save, once the devices are deleted
  abbrev then_forget : ℕ → Result User × Db → Result User × Db
  then_forget user (r, db) = (Device.delete_all_by_user user >> returned r) db

  abbrev save_and_forget : User → M User
  save_and_forget u db = then_forget u.uuid (User.save reader now u db)

  unfoldable pub post_sstamp : ProtectedActions.Env → Option Text → Option Text → User → M User
  post_sstamp otp_env hash otp u = do
    validate_password_or_otp otp_env now hash otp u.uuid true
    changed ← reset_security_stamp draws now u
    save_and_forget changed
