-- ===== src/Server/Api/Identity/Tests.antt =====
-- Runs of the login by password, and its theorem at a concrete input.
use umewarden.Prelude.{◌≡◌, refl, Bool, true, false, Option, some, none, [], ◌∷◌}
use umewarden.Prelude.Int.{◌+ℤ◌}
use umewarden.Prelude.Text.{codes, trim, utf8}
use umewarden.Server.Db.{Db, Result, Error, ok, err, wrong_login, factor_required}
use umewarden.Server.Ensures.{Ensures}
use umewarden.Server.Models.Device
use umewarden.Server.Models.TwoFactor
use umewarden.Server.Models.TwoFactorIncomplete
use umewarden.Server.Models.User.{find_by_mail}
use umewarden.Server.Models.User.Password.{check_valid_password, verify_password_hash}
use umewarden.Server.Api.Accounts.{kdf_upgrade}
use umewarden.Server.Api.Authenticator.{try_steps, validate_totp_code_str, validate_totp_code}
use umewarden.Server.Api.TwoFactor.{is_twofactor_provider_usable}
use umewarden.Server.Api.Identity.{get_device}
use umewarden.Server.Api.Identity.Samples.{env, fresh, stored, form, guarded}
use umewarden.Server.Api.Identity.Second.{
  twofactor_auth, with_rows, second_step, refuse, challenge_each, validate, check_factor,
  remember_device,
}
use umewarden.Server.Api.Identity.Login.{
  password_login, check_primary, check_verified, authenticated_response, notify_device,
}
use umewarden.Server.Api.Identity.Sound.{IsAuthenticated, password_login-IsAuthenticated}

abbrev is_ok : {A : Type 0} → Result A × Db → Bool
is_ok (ok a, db) = true
is_ok (err e, db) = false

abbrev error_of : {A : Type 0} → Result A × Db → Option Error
error_of (ok a, db) = none
error_of (err e, db) = some e

logs_in : is_ok (password_login env 1000 fresh (codes "ip") true form stored) ≡ true
unfolding password_login find_by_mail trim check_primary check_valid_password verify_password_hash
    utf8 kdf_upgrade check_verified get_device Device.find_by_uuid_and_user twofactor_auth with_rows
    TwoFactor.find_by_user authenticated_response notify_device Device.save
logs_in = refl

wrong_password :
    error_of (
      password_login env 1000 fresh
        (codes "ip")
        true
        (record form { password = some (codes "pv") })
        stored)
    ≡ some wrong_login
unfolding password_login find_by_mail trim check_primary check_valid_password verify_password_hash
    utf8 kdf_upgrade check_verified get_device Device.find_by_uuid_and_user twofactor_auth with_rows
    TwoFactor.find_by_user authenticated_response notify_device Device.save
wrong_password = refl

-- with an authenticator, the password alone is not enough
asks_for_code :
    error_of (password_login env 1000 fresh (codes "ip") true form guarded)
    ≡ some (factor_required (0 ∷ []))
unfolding password_login find_by_mail trim check_primary check_valid_password verify_password_hash
    utf8 kdf_upgrade check_verified get_device Device.find_by_uuid_and_user twofactor_auth with_rows
    TwoFactor.find_by_user authenticated_response notify_device Device.save second_step refuse
    challenge_each validate check_factor validate_totp_code_str validate_totp_code
    TwoFactorIncomplete.mark_incomplete TwoFactor.from_i32 is_twofactor_provider_usable
asks_for_code = refl

accepts_code :
    is_ok (
      password_login env 1000 fresh
        (codes "ip")
        true
        (record form { two_factor_token = some (codes "000000") })
        guarded)
    ≡ true
unfolding password_login find_by_mail trim check_primary check_valid_password verify_password_hash
    utf8 kdf_upgrade check_verified get_device Device.find_by_uuid_and_user twofactor_auth with_rows
    TwoFactor.find_by_user authenticated_response notify_device Device.save second_step refuse
    challenge_each validate check_factor validate_totp_code_str validate_totp_code
    TwoFactorIncomplete.mark_incomplete TwoFactor.from_i32 is_twofactor_provider_usable try_steps
    TwoFactor.find_by_user_and_type ◌+ℤ◌ TwoFactor.save TwoFactorIncomplete.mark_complete
    remember_device
accepts_code = refl

password_login-IsAuthenticated_example :
    Ensures
      (λ db. db ≡ stored)
      (password_login env 1000 fresh (codes "ip") true form)
      (λ a _. IsAuthenticated env 1000 fresh (codes "ip") true form stored a)
password_login-IsAuthenticated_example =
    password_login-IsAuthenticated env 1000 fresh (codes "ip") true form stored
