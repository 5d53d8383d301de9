-- ===== src/Server/Api/Identity/Samples.antt =====
-- A server, a user with a device, and a form, for the runs of logins and sessions.
use umewarden.Prelude.{true, false, none, some, [], ◌∷◌, leb}
use umewarden.Prelude.Int.{pos}
use umewarden.Prelude.Text.{codes, text_eq}
use umewarden.Server.Db.{User, Device, Db, empty, pure}
use umewarden.Server.Models.Device
use umewarden.Server.Models.TwoFactor
use umewarden.Server.Models.TwoFactor.{authenticator}
use umewarden.Server.Models.User.Password.{Pbkdf2, StampCodec, Draws}
use umewarden.Server.Models.User.Samples.{lenient, someone}
use umewarden.Server.Auth
use umewarden.Server.Auth.{
  Jwt, Decoded, valid, invalid, other_kind, LoginJwtClaims, login_claims, password,
}
use umewarden.Server.Api.Authenticator.{Totp}
use umewarden.Server.Api.Email
use umewarden.Server.Api.TwoFactor.{Providers}
use umewarden.Server.Api.Identity.{Env, Fresh, ConnectData}

abbrev pub silent : Auth.Config
silent = record {
  origin = codes "https://vault";
  mail_enabled = false;
  invitation_hours = 120;
  admin_minutes = 20;
}

-- the derived key is the secret
abbrev pub plain_kdf : Pbkdf2
plain_kdf = record {
  derive = λ n salt secret. secret;
  verify = λ n salt secret hash. text_eq hash secret;
}

abbrev pub drawn : Draws
drawn = record { stamp = codes "new stamp"; refresh_token = λ i. codes "new token" }

-- no token is read
abbrev pub unread : {T : Type 0} → Jwt T
unread = record { encode = λ c. codes "signed"; decode = λ leeway now issuer t. invalid other_kind }

abbrev pub no_stamps : StampCodec
no_stamps = record { to_json = λ e. none; from_json = λ t. none }

abbrev pub shows_counter : Totp
shows_counter = record {
  decode = λ s. some s;
  code = λ secret time. codes "000000";
  is_numeric = λ c. leb 48 c;
  drift_disabled = false;
}

abbrev pub no_mails : Email.Env
no_mails = record {
  to_json = λ d. d.address;
  from_json = λ t. none;
  enabled = false;
  attempts_limit = 3;
  expiration_time = 600;
  mail_sent = false;
  login_allowed = λ ip. true;
}

abbrev pub plain_providers : Providers
plain_providers = record {
  email_enabled = false;
  duo_enabled = false;
  duo_host = none;
  duo_ikey = none;
  duo_skey = none;
  yubico_enabled = false;
  yubico_client_id = none;
  yubico_secret_key = none;
  webauthn_supported = false;
  remember_disabled = false;
  read_duo = λ t. none;
}

abbrev pub env : Env
env = record {
  reader = lenient;
  kdf = plain_kdf;
  stamps = no_stamps;
  auth = silent;
  login_jwt = unread;
  refresh_jwt = unread;
  remember_jwt = unread;
  totp = shows_counter;
  mails = no_mails;
  providers = plain_providers;
  incomplete = record { time_limit = pos 3; mail_enabled = false };
  login_allowed = λ ip. true;
  password_iterations = pos 1;
  signups_verify = false;
  resend_time = pos 3600;
  resend_limit = pos 6;
  require_device_email = false;
  user_id = λ t. 1;
  mail_sent = false;
  register_push_device = λ d. pure tt;
  validate_webauthn = λ user code. pure tt;
  validate_yubikey = λ code data_. pure tt;
  validate_duo = λ mail code client_id device. pure tt;
  webauthn_challenge = λ user. pure tt;
  duo_challenge = λ mail client_id device. pure tt;
  read_yubikey = λ t. none;
}

abbrev pub fresh : Fresh
fresh = record {
  draws = drawn;
  push_id = 70;
  refresh_token = codes "refresh";
  row_id = 71;
  email_token = codes "123456";
}

-- the password is `pw`
abbrev pub owner : User
owner = record someone { password_hash = codes "pw" }

abbrev pub phone : Device
phone = Device.new 0 60 (codes "old token") 20 1 (codes "phone") (pos 0)

abbrev pub stored : Db
stored = record empty { users = owner ∷ []; devices = phone ∷ [] }

abbrev pub form : ConnectData
form = record {
  grant_type = codes "password";
  refresh_token = none;
  client_id = some (codes "web");
  client_secret = none;
  password = some (codes "pw");
  scope = some (codes "api offline_access");
  username = some (codes " a@b.c ");
  device_identifier = some 20;
  device_name = some (codes "phone");
  device_type = some (codes "0");
  two_factor_provider = none;
  two_factor_token = none;
  two_factor_remember = none;
  auth_request = none;
}

-- the same user with an authenticator
abbrev pub guarded : Db
guarded = record stored { twofactor = TwoFactor.new 5 1 authenticator (codes "secret") ∷ [] }
