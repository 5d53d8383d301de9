-- ===== src/Server/Api/TwoFactor.antt =====
-- server/src/api/core/two_factor/mod.rs: which second factors can be used, how they are turned off, and
-- the recovery code. The settings are `Providers`, and the code that is drawn is an argument.
use umewarden.Prelude.{
  ℕ, Bool, true, false, not, ◌&&◌, ◌||◌, Option, none, some, List, [], ◌∷◌, filter,
}
use umewarden.Prelude.Text.{Text}
use umewarden.Server.Db.{User, TwoFactor, Db, M, pure, query, ◌>>=◌, ◌>>◌}
use umewarden.Server.Models.TwoFactor
use umewarden.Server.Models.TwoFactor.{
  TwoFactorType, authenticator, email, duo, yubi_key, remember, organization_duo, webauthn,
  recovery_code, from_i32,
}
use umewarden.Server.Models.User
use umewarden.Server.Models.User.{Reader}
use umewarden.Server.Api.ProtectedActions
use umewarden.Server.Api.ProtectedActions.{validate_password_or_otp}

pub record DuoProviderData : Type 0 where
  pub host : Text
  pub ik : Text
  pub sk : Text

pub record Providers : Type 0 where
  -- `CONFIG._enable_email_2fa()`
  pub email_enabled : Bool
  -- `_enable_duo()`, `duo_host()`, `duo_ikey()` and `duo_skey()`
  pub duo_enabled : Bool
  pub duo_host : Option Text
  pub duo_ikey : Option Text
  pub duo_skey : Option Text
  -- `_enable_yubico()`, `yubico_client_id()` and `yubico_secret_key()`
  pub yubico_enabled : Bool
  pub yubico_client_id : Option Text
  pub yubico_secret_key : Option Text
  -- `is_webauthn_2fa_supported()` and `disable_2fa_remember()`
  pub webauthn_supported : Bool
  pub remember_disabled : Bool
  -- `serde_json::from_str`
  pub read_duo : Text → Option DuoProviderData

abbrev is_some : Option Text → Bool
is_some none = false
is_some (some _) = true

abbrev is_filled : Text → Bool
is_filled [] = false
is_filled (_ ∷ _) = true

abbrev is_complete : Option DuoProviderData → Bool
is_complete none = false
is_complete (some d) = is_filled d.host && (is_filled d.ik && is_filled d.sk)

module _ (p : Providers) where
  abbrev has_global_duo_credentials : Bool
  has_global_duo_credentials =
      p.duo_enabled && (is_some p.duo_host && (is_some p.duo_ikey && is_some p.duo_skey))

  abbrev read_data : Option Text → Option DuoProviderData
  read_data none = none
  read_data (some raw) = p.read_duo raw

  abbrev duo_usable : Option Text → Bool
  duo_usable data_ = is_complete (read_data data_) || has_global_duo_credentials

  unfoldable pub is_twofactor_provider_usable : TwoFactorType → Option Text → Bool
  is_twofactor_provider_usable authenticator data_ = true
  is_twofactor_provider_usable recovery_code data_ = true
  is_twofactor_provider_usable email data_ = p.email_enabled
  is_twofactor_provider_usable duo data_ = duo_usable data_
  is_twofactor_provider_usable organization_duo data_ = duo_usable data_
  is_twofactor_provider_usable yubi_key data_ =
      p.yubico_enabled && (is_some p.yubico_client_id && is_some p.yubico_secret_key)
  is_twofactor_provider_usable webauthn data_ = p.webauthn_supported
  is_twofactor_provider_usable remember data_ = not p.remember_disabled
  is_twofactor_provider_usable _ data_ = false

  abbrev is_type_usable : Option TwoFactorType → Text → Bool
  is_type_usable none data_ = false
  is_type_usable (some t) data_ = is_twofactor_provider_usable t (some data_)

  -- whether the row is of a type that can be used
  abbrev pub is_row_usable : TwoFactor → Bool
  is_row_usable row = is_type_usable (from_i32 row.atype) row.data_

  unfoldable pub get_twofactor : ℕ → Db → List TwoFactor
  get_twofactor user db = filter is_row_usable (TwoFactor.find_by_user user db)

module _ (otp_env : ProtectedActions.Env) where
  -- the recovery code of the user
  unfoldable pub get_recover : ℕ → Option Text → Option Text → User → M (Option Text)
  get_recover now hash otp u = do
    validate_password_or_otp otp_env now hash otp u.uuid true
    pure u.totp_recover

  abbrev drop_row : Option TwoFactor → M (Unit {0})
  drop_row none = pure tt
  drop_row (some row) = TwoFactor.delete row

  -- `enforce_2fa_policy` does nothing
  unfoldable pub disable_twofactor : ℕ → Option Text → Option Text → ℕ → ℕ → M (Unit {0})
  disable_twofactor now hash otp type_ user = do
    validate_password_or_otp otp_env now hash otp user true
    found ← query (TwoFactor.find_by_user_and_type user type_)
    drop_row found

-- an error of the statement is dropped
abbrev draw_code : Reader → ℕ → Text → User → Option Text → Db → Db
draw_code reader now drawn u (some _) db = db
draw_code reader now drawn u none db =
    (User.save reader now (record u { totp_recover = some drawn }) db).1

unfoldable pub generate_recover_code : Reader → ℕ → Text → User → Db → Db
generate_recover_code reader now drawn u db = draw_code reader now drawn u u.totp_recover db
