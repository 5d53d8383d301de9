-- ===== src/Server/Api/Authenticator.antt =====
-- server/src/api/core/two_factor/authenticator.rs, the validation of a TOTP code. The decoder of
-- base 32 (data_encoding) and the generator of codes (totp_lite, steps of 30 seconds, 6 digits) are
-- parameters, and so is the setting that turns the time drift off.
pub mod Steps
pub mod Accept
mod Tests
use umewarden.Prelude.{
  ℕ, ◌+◌, ◌-◌, ◌*◌, ◌/◌, ◌%◌, ◌^◌, Bool, true, false, not, ◌&&◌, Option, none, some, List, [], ◌∷◌,
  all, if◌then◌else◌,
}
use umewarden.Prelude.Int.{ℤ, pos, negsuc, ◌+ℤ◌, ltb_ℤ, neg_part, pos_part}
use umewarden.Prelude.Text.{Text, text_eq}
use umewarden.Server.Db.{
  TwoFactor, Error, not_a_number, invalid_totp_secret, invalid_totp_code, M, raise, query, require,
  ◌>>=◌, ◌>>◌,
}
use umewarden.Server.Models.TwoFactor
use umewarden.Server.Models.TwoFactor.{authenticator, as_i32}

pub record Totp : Type 0 where
  -- `BASE32.decode`
  pub decode : Text → Option (List ℕ)
  -- `totp_custom::<Sha1>(30, 6, secret, time)`
  pub code : List ℕ → ℕ → Text
  -- `char::is_numeric`
  pub is_numeric : ℕ → Bool
  -- `CONFIG.authenticator_disable_time_drift()`
  pub drift_disabled : Bool

-- `-steps..=steps`
abbrev pub window : Bool → List ℤ
window true = pos 0 ∷ []
window false = negsuc 0 ∷ pos 0 ∷ pos 1 ∷ []

-- `step * 30` and `cast_unsigned`
abbrev pub seconds : ℤ → ℤ
seconds (pos n) = pos (30 * n)
seconds (negsuc n) = negsuc (30 * n + 29)

abbrev pub cast_unsigned : ℤ → ℕ
cast_unsigned (pos n) = n % 2 ^ 64
cast_unsigned (negsuc n) = 2 ^ 64 - (n % 2 ^ 64 + 1)

abbrev pub time_step : ℕ → ℤ → ℤ
time_step now step = pos (now / 30) +ℤ step

-- the row of the user, or a new one with the uuid `fresh_id`
abbrev pub row_or_new : ℕ → ℕ → Text → Option TwoFactor → TwoFactor
row_or_new fresh_id user secret none = TwoFactor.new fresh_id user authenticator secret
row_or_new fresh_id user secret (some row) = row

module _ (t : Totp) where
  abbrev pub generated : List ℕ → ℕ → ℤ → Text
  generated secret now step = t.code secret (cast_unsigned (pos now +ℤ seconds step))

  -- the loop over the steps
  unfoldable pub try_steps : List ℕ → Text → TwoFactor → ℕ → List ℤ → M (Unit {0})
  try_steps secret totp_code twofactor now [] = raise invalid_totp_code
  try_steps secret totp_code twofactor now (step ∷ steps) =
      let equal = text_eq (generated secret now step) totp_code in
      let fresh = ltb_ℤ twofactor.last_used (time_step now step) in
      if equal && fresh
      then TwoFactor.save (record twofactor { last_used = time_step now step })
      else if equal && not fresh
      then raise invalid_totp_code
      else try_steps secret totp_code twofactor now steps

  unfoldable pub validate_totp_code : ℕ → ℕ → ℕ → Text → Text → M (Unit {0})
  validate_totp_code now fresh_id user totp_code secret = do
    decoded ← require invalid_totp_secret (t.decode secret)
    found ← query (TwoFactor.find_by_user_and_type user (as_i32 authenticator))
    try_steps decoded totp_code (row_or_new fresh_id user secret found) now
        (window t.drift_disabled)

  unfoldable pub validate_totp_code_str : ℕ → ℕ → ℕ → Text → Text → M (Unit {0})
  validate_totp_code_str now fresh_id user totp_code secret =
      if all t.is_numeric totp_code
      then validate_totp_code now fresh_id user totp_code secret
      else raise not_a_number
