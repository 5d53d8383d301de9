-- ===== src/Server/Api/Email.antt =====
-- server/src/api/core/two_factor/email.rs: codes by mail as a second factor. The JSON codec
-- (serde_json), the configuration, the limiter of logins and the mailer's answer are fields of `Env`;
-- the codes and identifiers that are drawn are arguments. The choice between password and one-time
-- password is that of ProtectedActions.
pub mod Guesses
pub mod Machine
pub mod Obscure
mod Tests
use umewarden.Prelude.{
  ℕ, ◌+◌, ◌-◌, ◌^◌, Bool, true, false, not, ◌&&◌, ◌||◌, Option, none, some, List, [], ◌∷◌, ltb, leb,
  ◌==◌, if◌then◌else◌,
}
use umewarden.Prelude.Text.{Text, text_eq}
use umewarden.Server.Db.{
  User, TwoFactor, Error, mail_factor_disabled, mail_failed, mail_token_missing, mail_token_invalid,
  mail_token_expired, not_decodable, factor_missing, login_limited, wrong_login,
  login_request_missing, wrong_access_code, blank_field, email_unverified, panicked, M, pure, raise,
  query, require, guard, modify, ◌>>=◌, ◌>>◌,
}
use umewarden.Server.Models.TwoFactor
use umewarden.Server.Models.TwoFactor.{email, email_verification_challenge, as_i32}
use umewarden.Server.Models.AuthRequest
use umewarden.Server.Models.AuthRequest.{check_access_code}
use umewarden.Server.Models.User
use umewarden.Server.Models.User.{Reader}
use umewarden.Server.Models.User.Password.{Pbkdf2, check_valid_password}
use umewarden.Server.Api.TwoFactor.{generate_recover_code}
use umewarden.Server.Api.ProtectedActions
use umewarden.Server.Api.ProtectedActions.{validate_password_or_otp}

pub record EmailTokenData : Type 0 where
  pub address : Text
  pub last_token : Option Text
  pub token_sent : ℕ
  pub attempts : ℕ

pub record Env : Type 0 where
  pub to_json : EmailTokenData → Text
  pub from_json : Text → Option EmailTokenData
  -- `CONFIG._enable_email_2fa()`, `email_attempts_limit()` and `email_expiration_time()`, in seconds
  -- that a date can be moved by
  pub enabled : Bool
  pub attempts_limit : ℕ
  pub expiration_time : ℕ
  -- whether the mailer takes the message
  pub mail_sent : Bool
  -- whether `check_limit_login` lets the address pass
  pub login_allowed : Text → Bool

-- `EmailTokenData::new`
abbrev pub new : Text → Text → ℕ → EmailTokenData
new address token now = record {
  address = address;
  last_token = some token;
  token_sent = now;
  attempts = 0;
}

abbrev pub set_token : Text → ℕ → EmailTokenData → EmailTokenData
set_token token now d = record d { last_token = some token; token_sent = now }

abbrev pub reset_token : EmailTokenData → EmailTokenData
reset_token d = record d { last_token = none; attempts = 0 }

-- `saturating_add` on u64
abbrev pub add_attempt : EmailTokenData → EmailTokenData
add_attempt d = record d {
  attempts = if ltb d.attempts (2 ^ 64 - 1) then d.attempts + 1 else 2 ^ 64 - 1;
}

-- what the client sends for a mail at login
pub record SendEmailLoginData : Type 0 where
  pub device_identifier : Option ℕ
  pub email : Option Text
  pub master_password_hash : Option Text
  pub auth_request_id : Option ℕ
  pub auth_request_access_code : Option Text

-- `Some(text) if !text.is_empty()`
abbrev filled : Option Text → Option Text
filled none = none
filled (some []) = none
filled (some (c ∷ s)) = some (c ∷ s)

module _ (env : Env) where
  -- behind the query for the row of type `Email`
  unfoldable pub send_to : Text → ℕ → TwoFactor → M (Unit {0})
  send_to generated_token now row = do
    stored ← require not_decodable (env.from_json row.data_)
    let d = set_token generated_token now stored
    TwoFactor.save (record row { data_ = env.to_json d })
    _ ← require mail_token_missing d.last_token
    guard env.mail_sent mail_failed

  unfoldable pub send_token : Text → ℕ → ℕ → M (Unit {0})
  send_token generated_token now user = do
    found ← query (TwoFactor.find_by_user_and_type user (as_i32 email))
    row ← require factor_missing found
    send_to generated_token now row

  -- how a wrong code is counted: at the limit, the token is dropped
  abbrev pub counted : EmailTokenData → EmailTokenData
  counted d =
      let grown = add_attempt d in
      if leb env.attempts_limit grown.attempts then reset_token grown else grown

  -- `dt + max_time < now`
  abbrev pub is_late : ℕ → EmailTokenData → Bool
  is_late now d = ltb (d.token_sent + env.expiration_time) now

  -- behind the checks that there are a row and a token
  unfoldable pub check_code : ℕ → Text → TwoFactor → Text → EmailTokenData → M (Unit {0})
  check_code now token row issued_token d =
      if not (text_eq issued_token token)
      then (do
        TwoFactor.save (record row { data_ = env.to_json (counted d) })
        raise mail_token_invalid)
      else (do
        TwoFactor.save (record row { data_ = env.to_json (reset_token d) })
        if is_late now (reset_token d) then raise mail_token_expired else pure tt)

  -- `data_` is the stored text that the caller has read
  unfoldable pub validate_email_code_str : ℕ → ℕ → Text → Text → M (Unit {0})
  validate_email_code_str now user token data_ = do
    d ← require not_decodable (env.from_json data_)
    found ← query (TwoFactor.find_by_user_and_type user (as_i32 email))
    row ← require factor_missing found
    issued_token ← require mail_token_missing d.last_token
    check_code now token row issued_token d

  unfoldable pub activate_email_2fa : ℕ → ℕ → User → M (Unit {0})
  activate_email_2fa now fresh_id u = do
    _ ← require email_unverified u.verified_at
    TwoFactor.save (TwoFactor.new fresh_id u.uuid email (env.to_json (new u.email [] now)))

  unfoldable pub find_and_activate_email_2fa : ℕ → ℕ → ℕ → M (Unit {0})
  find_and_activate_email_2fa now fresh_id user = do
    found ← query (User.find_by_uuid user)
    u ← require wrong_login found
    activate_email_2fa now fresh_id u

  module _ (otp_env : ProtectedActions.Env) where
    -- the address of the stored data, when there is any
    abbrev read_email : Option TwoFactor → M (Option Text)
    read_email none = pure none
    read_email (some row) = do
      d ← require not_decodable (env.from_json row.data_)
      pure (some d.address)

    -- with a password hash or a one-time password; the answer tells whether the factor is enabled
    unfoldable pub get_email : ℕ → Option Text → Option Text → ℕ → M (Option Text)
    get_email now hash otp user = do
      validate_password_or_otp otp_env now hash otp user false
      found ← query (TwoFactor.find_by_user_and_type user (as_i32 email))
      read_email found

    abbrev drop_previous : Option TwoFactor → M (Unit {0})
    drop_previous none = pure tt
    drop_previous (some row) = TwoFactor.delete row

    unfoldable pub send_email : ℕ → ℕ → Text → Text → Option Text → Option Text → ℕ → M (Unit {0})
    send_email now fresh_id generated_token address hash otp user = do
      validate_password_or_otp otp_env now hash otp user false
      guard env.enabled mail_factor_disabled
      previous ← query (TwoFactor.find_by_user_and_type user (as_i32 email))
      drop_previous previous
      let d = new address generated_token now
      TwoFactor.save (TwoFactor.new fresh_id user email_verification_challenge (env.to_json d))
      _ ← require mail_token_missing d.last_token
      guard env.mail_sent mail_failed

    -- the route `email`, with the recovery code that is drawn if the user has none
    unfoldable pub verify_email :
        Reader → ℕ → Text → Text → Option Text → Option Text → User → M Text
    verify_email reader now drawn token hash otp u = do
      validate_password_or_otp otp_env now hash otp u.uuid true
      found ← query (TwoFactor.find_by_user_and_type u.uuid (as_i32 email_verification_challenge))
      row ← require factor_missing found
      d ← require not_decodable (env.from_json row.data_)
      issued_token ← require mail_token_missing d.last_token
      guard (text_eq issued_token token) mail_token_invalid
      TwoFactor.save (record row { atype = as_i32 email; data_ = env.to_json (reset_token d) })
      modify (generate_recover_code reader now drawn u)
      pure d.address

  module _ (reader : Reader) (kdf : Pbkdf2) (device_type : ℕ) (ip : Text) where
    -- by an approved or pending request of a device
    abbrev by_request : Option ℕ → Option Text → M (Unit {0})
    by_request none code = raise blank_field
    by_request (some id) code = do
      found ← query (AuthRequest.find_by_uuid id)
      r ← require login_request_missing found
      given ← require blank_field code
      guard (r.device_type == device_type && (text_eq r.request_ip ip && check_access_code r given))
          wrong_access_code

    abbrev by_password : Option Text → Option ℕ → Option Text → User → M (Unit {0})
    by_password none id code u = by_request id code
    by_password (some hash) id code u = do
      valid ← require panicked (check_valid_password kdf u hash)
      guard valid wrong_login

    abbrev identify : SendEmailLoginData → Option Text → M User
    identify asked none = do
      device ← require blank_field asked.device_identifier
      found ← query (User.find_by_device_for_email2fa device)
      require wrong_login found
    identify asked (some mail) = do
      found ← query (User.find_by_mail reader mail)
      u ← require wrong_login found
      by_password (filled asked.master_password_hash) asked.auth_request_id
          asked.auth_request_access_code u
      pure u

    unfoldable pub send_email_login : Text → ℕ → SendEmailLoginData → M (Unit {0})
    send_email_login generated_token now asked = do
      guard env.enabled mail_factor_disabled
      guard (env.login_allowed ip) login_limited
      u ← identify asked (filled asked.email)
      send_token generated_token now u.uuid
