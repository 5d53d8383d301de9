-- ===== src/Server/Api/Identity.antt =====
-- server/src/api/identity.rs: the request for a token. The form is `ConnectData`; the settings, the
-- limiter of logins, the mailer, the keys and the second factors whose code is elsewhere are fields of
-- `Env`. What is drawn at random is `Fresh`. The calls of the clock in one request are one instant.
pub mod Second
pub mod Login
pub mod Token
pub mod FactorSound
pub mod SecondSound
pub mod HolderSound
pub mod PrimarySound
pub mod Sound
pub mod Samples
mod Tests
use mathlib.Core.Option
use umewarden.Prelude.{
  ℕ, zero, suc, ◌-◌, ◌^◌, Bool, true, false, Option, none, some, List, [], ◌∷◌, ◌==◌, if◌then◌else◌,
}
use umewarden.Prelude.Int.{ℤ, pos, negsuc}
use umewarden.Prelude.Text.{Text, parse_uint}
use umewarden.Server.Db.{User, Device, M, pure, require, query, panicked, ◌>>=◌, ◌>>◌}
use umewarden.Server.Models.Device
use umewarden.Server.Models.TwoFactorIncomplete
use umewarden.Server.Models.User.{Reader}
use umewarden.Server.Models.User.Password.{Pbkdf2, StampCodec, Draws}
use umewarden.Server.Auth
use umewarden.Server.Auth.{Jwt, LoginJwtClaims, RefreshJwtClaims}
use umewarden.Server.Auth.Claims.{TwoFactorRememberClaims}
use umewarden.Server.Api.Authenticator.{Totp}
use umewarden.Server.Api.Email
use umewarden.Server.Api.TwoFactor.{Providers}

-- a negative number of a provider stands for none of them, like any unused number
pub record ConnectData : Type 0 where
  pub grant_type : Text
  pub refresh_token : Option Text
  pub client_id : Option Text
  pub client_secret : Option Text
  pub password : Option Text
  pub scope : Option Text
  pub username : Option Text
  pub device_identifier : Option ℕ
  pub device_name : Option Text
  pub device_type : Option Text
  pub two_factor_provider : Option ℕ
  pub two_factor_token : Option Text
  pub two_factor_remember : Option ℤ
  pub auth_request : Option ℕ

-- what a request draws at random
pub record Fresh : Type 0 where
  pub draws : Draws
  pub push_id : ℕ
  pub refresh_token : Text
  pub row_id : ℕ
  pub email_token : Text

pub record Env : Type 0 where
  pub reader : Reader
  pub kdf : Pbkdf2
  pub stamps : StampCodec
  pub auth : Auth.Config
  pub login_jwt : Jwt LoginJwtClaims
  pub refresh_jwt : Jwt RefreshJwtClaims
  pub remember_jwt : Jwt TwoFactorRememberClaims
  pub totp : Totp
  pub mails : Email.Env
  pub providers : Providers
  pub incomplete : TwoFactorIncomplete.Config
  -- `check_limit_login`
  pub login_allowed : Text → Bool
  -- `CONFIG.password_iterations()`, `signups_verify()`, `signups_verify_resend_time()` and
  -- `signups_verify_resend_limit()` as signed numbers, and `require_device_email()`
  pub password_iterations : ℤ
  pub signups_verify : Bool
  pub resend_time : ℤ
  pub resend_limit : ℤ
  pub require_device_email : Bool
  -- the number that stands for the identifier of a user
  pub user_id : Text → ℕ
  -- whether the mailer takes the message about a new device
  pub mail_sent : Bool
  -- push.rs, webauthn.rs, yubikey.rs, duo.rs and duo_oidc.rs
  pub register_push_device : Device → M (Unit {0})
  pub validate_webauthn : ℕ → Text → M (Unit {0})
  pub validate_yubikey : Text → Text → M (Unit {0})
  pub validate_duo : Text → Text → Option Text → Option ℕ → M (Unit {0})
  pub webauthn_challenge : ℕ → M (Unit {0})
  pub duo_challenge : Text → Option Text → Option ℕ → M (Unit {0})
  -- `serde_json::from_str` of the data of a YubiKey, and whether it is for NFC
  pub read_yubikey : Text → Option Bool

abbrev negative : ℕ → ℤ
negative zero = pos 0
negative (suc n) = negsuc n

-- `str::parse::<i32>`
unfoldable pub parse_i32 : Text → Option ℤ
parse_i32 [] = none
parse_i32 (c ∷ []) = Option.map pos (parse_uint (2 ^ 31 - 1) (c ∷ []))
parse_i32 (c ∷ d ∷ s) =
    if c == b'-'
    then (if d == b'+' then none else Option.map negative (parse_uint (2 ^ 31) (d ∷ s)))
    else Option.map pos (parse_uint (2 ^ 31 - 1) (c ∷ d ∷ s))

abbrev bind_text : Option Text → Option ℤ
bind_text none = none
bind_text (some t) = parse_i32 t

abbrev or_unknown : Option ℤ → ℤ
or_unknown none = pos 14
or_unknown (some t) = t

-- behind the query for the device
abbrev found_or_new : ℕ → Fresh → ℕ → Text → ℤ → ℕ → Option Device → M Device
found_or_new now fresh device_id device_name device_type user (some d) = pure d
found_or_new now fresh device_id device_name device_type user none =
    Device.save now false
      (Device.new now fresh.push_id fresh.refresh_token device_id user device_name device_type)

unfoldable pub get_device : ℕ → Fresh → ConnectData → User → M Device
get_device now fresh asked u = do
  device_id ← require panicked asked.device_identifier
  device_name ← require panicked asked.device_name
  found ← query (Device.find_by_uuid_and_user device_id u.uuid)
  found_or_new now fresh device_id device_name (or_unknown (bind_text asked.device_type)) u.uuid
      found
