-- ===== src/Server/Api/Authenticator/Tests.antt =====
-- Runs of the validation, and the theorems at concrete inputs.
use umewarden.Prelude.{ℕ, ◌+◌, ◌/◌, ◌≡◌, refl, inl, false, some, List, [], ◌∷◌, arith, leb}
use umewarden.Prelude.Int.{ℤ, pos, ◌+ℤ◌, ◌<ℤ◌, ◌≤ℤ◌}
use umewarden.Prelude.Text.{codes}
use umewarden.Server.Db.{empty, Db, not_a_number, invalid_totp_code, ok, err}
use umewarden.Server.Models.TwoFactor
use umewarden.Server.Api.Authenticator.{
  Totp, window, time_step, try_steps, validate_totp_code, validate_totp_code_str,
}
use umewarden.Server.Api.Authenticator.Steps.{first_match}
use umewarden.Server.Api.Authenticator.Accept.{
  last_used_by, validate, validate_accepts, validate_complete, validate_replay, Attempt, attempts,
  attempts-le,
}

-- a generator of codes that shows the counter
abbrev counter_totp : Totp
counter_totp = record {
  decode = λ s. some s;
  code = λ secret time. (48 + time / 30) ∷ [];
  is_numeric = λ c. leb 48 c;
  drift_disabled = false;
}

-- at second 95 the step is 3; the code of step 4 comes from a clock that is ahead
abbrev after : Db
after = record empty {
  twofactor =
      record (TwoFactor.new 9 1 TwoFactor.authenticator (codes "k")) { last_used = pos 4 } ∷ [];
}

accepts_4 : validate counter_totp 95 9 1 (codes "4") (codes "k") empty ≡ (ok tt, after)
unfolding validate_totp_code try_steps TwoFactor.save TwoFactor.find_by_user_and_type ◌+ℤ◌
accepts_4 = refl

not_numeric :
    validate_totp_code_str counter_totp 95 9 1 (codes "!") (codes "k") empty
    ≡ (err not_a_number, empty)
unfolding validate_totp_code_str
not_numeric = refl

validate_accepts_example :
    (decoded : List ℕ) × (step : ℤ) × (counter_totp.decode (codes "k") ≡ some decoded)
    × (first_match counter_totp decoded (codes "4") 95 (window false) ≡ some step)
    × (last_used_by 1 empty <ℤ time_step 95 step)
    × (last_used_by 1 after ≡ time_step 95 step)
validate_accepts_example =
    validate_accepts counter_totp 95 9 1 (codes "4") (codes "k") empty after accepts_4

validate_complete_example : (validate counter_totp 95 9 1 (codes "4") (codes "k") empty).0 ≡ ok tt
unfolding ◌+ℤ◌ TwoFactor.find_by_user_and_type
validate_complete_example =
    validate_complete counter_totp 95 9 1 (codes "4") (codes "k") (codes "k") (pos 1) empty refl
      refl (omega arith) (inl refl)

validate_replay_example :
    validate counter_totp 95 8 1 (codes "4") (codes "k") after ≡ (err invalid_totp_code, after)
validate_replay_example =
    validate_replay counter_totp 95 9 8 1 (codes "4") (codes "k") empty after accepts_4

abbrev tries : List Attempt
tries =
    record { now = 95; fresh_id = 9; totp_code = codes "4"; secret = codes "k" }
    ∷ record { now = 96; fresh_id = 9; totp_code = codes "4"; secret = codes "k" }
    ∷ []

attempts-le_example :
    pos (attempts counter_totp 1 tries empty).0 +ℤ last_used_by 1 empty
    ≤ℤ last_used_by 1 (attempts counter_totp 1 tries empty).1
attempts-le_example = attempts-le counter_totp 1 tries empty
