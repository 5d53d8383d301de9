-- ===== src/Server/Api/ProtectedActions.antt =====
-- server/src/api/core/two_factor/protected_actions.rs: one-time passwords by mail, and the choice
-- between password and one-time password of server/src/api/mod.rs. The JSON codec (serde_json), the
-- configuration, the mailer's answer and the check of a password are fields of `Env`. The calls of
-- the clock within one request are one instant, `now`.
pub mod Guesses
pub mod Reuse
mod Tests
use umewarden.Prelude.{
  ℕ, suc, ◌+◌, ◌-◌, ◌^◌, Bool, true, false, not, Option, none, some, ltb, leb, if◌then◌else◌,
}
use umewarden.Prelude.Text.{Text, text_eq}
use umewarden.Server.Db.{
  TwoFactor, Error, mail_disabled, mail_failed, otp_not_found, bad_json, token_expired,
  token_invalid, please_wait, invalid_password, no_validation, M, pure, raise, query, require,
  ◌>>=◌, ◌>>◌,
}
use umewarden.Server.Models.TwoFactor
use umewarden.Server.Models.TwoFactor.{protected_actions, as_i32}

pub record ProtectedActionData : Type 0 where
  pub token : Text
  pub token_sent : ℕ
  pub attempts : ℕ

pub record Env : Type 0 where
  pub to_json : ProtectedActionData → Text
  pub from_json : Text → Option ProtectedActionData
  -- `CONFIG.mail_enabled()`, `email_attempts_limit()` and `email_expiration_time()`
  pub mail_enabled : Bool
  pub attempts_limit : ℕ
  pub expiration_time : ℕ
  -- whether the mailer takes the message
  pub mail_sent : Bool
  -- `User::check_valid_password`
  pub check_valid_password : ℕ → Text → Bool

-- `ProtectedActionData::new`
abbrev pub first_attempt : Text → ℕ → ProtectedActionData
first_attempt token now = record { token = token; token_sent = now; attempts = 0 }

-- `saturating_add` on u64
abbrev pub add_attempt : ProtectedActionData → ProtectedActionData
add_attempt d = record d {
  attempts = if ltb d.attempts (2 ^ 64 - 1) then d.attempts + 1 else 2 ^ 64 - 1;
}

-- `time_since_sent().num_seconds() > max_time`; from 2 ^ 63 on, the cast makes `max_time` negative
abbrev pub is_expired : ℕ → ℕ → ProtectedActionData → Bool
is_expired now max d =
    if ltb max (2 ^ 63)
    then ltb (d.token_sent + max) now
    else ltb d.token_sent (now + (2 ^ 64 - max))

module _ (env : Env) where
  -- the `if let` on an earlier one-time password
  abbrev pub clear_previous : ℕ → Option TwoFactor → M (Unit {0})
  clear_previous now none = pure tt
  clear_previous now (some pa) = do
    pa_data ← require bad_json (env.from_json pa.data_)
    (if ltb now (pa_data.token_sent + 30)
        then raise (please_wait (pa_data.token_sent + 30 - now))
        else TwoFactor.delete pa)

  unfoldable pub request_otp : ℕ → ℕ → Text → ℕ → M (Unit {0})
  request_otp now fresh_id generated_token user =
      if not env.mail_enabled then raise mail_disabled else (do
        previous ← query (TwoFactor.find_by_user_and_type user (as_i32 protected_actions))
        clear_previous now previous
        TwoFactor.save (
            TwoFactor.new fresh_id user protected_actions
              (env.to_json (first_attempt generated_token now)))
        if env.mail_sent then pure tt else raise mail_failed)

  -- behind the two queries: the row with the counted attempt, and its data
  unfoldable pub check_otp : ℕ → Text → Bool → TwoFactor → ProtectedActionData → M (Unit {0})
  check_otp now otp delete_if_valid pa pa_data =
      if leb env.attempts_limit pa_data.attempts
      then raise token_expired
      else if is_expired now env.expiration_time pa_data
      then (do TwoFactor.delete pa; raise token_expired)
      else if not (text_eq pa_data.token otp)
      then (do TwoFactor.save pa; raise token_invalid)
      else if delete_if_valid
      then TwoFactor.delete pa
      else pure tt

  unfoldable pub validate_protected_action_otp : ℕ → Text → ℕ → Bool → M (Unit {0})
  validate_protected_action_otp now otp user delete_if_valid = do
    found ← query (TwoFactor.find_by_user_and_type user (as_i32 protected_actions))
    pa ← require otp_not_found found
    stored ← require bad_json (env.from_json pa.data_)
    let pa_data = add_attempt stored
    check_otp now otp delete_if_valid (record pa { data_ = env.to_json pa_data }) pa_data

  unfoldable pub verify_otp : ℕ → Text → ℕ → M (Unit {0})
  verify_otp now otp user =
      if not env.mail_enabled
      then raise mail_disabled
      else validate_protected_action_otp now otp user true

  -- `PasswordOrOtpData::validate`
  unfoldable pub validate_password_or_otp : ℕ → Option Text → Option Text → ℕ → Bool → M (Unit {0})
  validate_password_or_otp now (some pw_hash) none user delete_if_valid =
      if not (env.check_valid_password user pw_hash) then raise invalid_password else pure tt
  validate_password_or_otp now none (some otp) user delete_if_valid =
      validate_protected_action_otp now otp user delete_if_valid
  validate_password_or_otp now (some _) (some _) user delete_if_valid = raise no_validation
  validate_password_or_otp now none none user delete_if_valid = raise no_validation
