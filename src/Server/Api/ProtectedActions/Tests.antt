-- ===== src/Server/Api/ProtectedActions/Tests.antt =====
-- Runs of the one-time passwords, and the theorems at concrete inputs.
use umewarden.Prelude.{◌<◌, ◌≡◌, refl, inr, true, false, Option, none, some, List, [], ◌∷◌, arith}
use umewarden.Prelude.Text.{Text, codes, text_eq}
use umewarden.Server.Db.{empty, Db, ok, err, token_expired, otp_not_found}
use umewarden.Server.Models.TwoFactor
use umewarden.Server.Api.ProtectedActions.{
  ProtectedActionData, first_attempt, Env, add_attempt, is_expired, check_otp, request_otp,
  validate_protected_action_otp,
}
use umewarden.Server.Api.ProtectedActions.Guesses.{
  IsCodec, IsPending, Guess, after_guesses, guesses_exhaust,
}
use umewarden.Server.Api.ProtectedActions.Reuse.{accepted_otp, single_use, request_otp_fresh}

-- a codec that puts the two numbers in front of the token
abbrev read_fields : Text → Option ProtectedActionData
read_fields (sent ∷ attempts ∷ token) =
    some (record { token = token; token_sent = sent; attempts = attempts })
read_fields _ = none

abbrev env : Env
env = record {
  to_json = λ d. d.token_sent ∷ d.attempts ∷ d.token;
  from_json = read_fields;
  mail_enabled = true;
  attempts_limit = 3;
  expiration_time = 600;
  mail_sent = true;
  check_valid_password = λ user hash. false;
}

env-IsCodec : IsCodec env
env-IsCodec = record { from_json-to_json = λ d. refl }

abbrev holding : ProtectedActionData → Db
holding d = record empty {
  twofactor = TwoFactor.new 5 1 TwoFactor.protected_actions (env.to_json d) ∷ [];
}

abbrev sent : ProtectedActionData
sent = first_attempt (codes "123456") 1000

holding-IsPending : (d : ProtectedActionData) → IsPending env 1 d (holding d)
unfolding TwoFactor.find_by_user_and_type
holding-IsPending d = record {
  row = TwoFactor.new 5 1 TwoFactor.protected_actions (env.to_json d);
  found = refl;
  stored = refl;
}

accepted :
    validate_protected_action_otp env 1100 (codes "123456") 1 true (holding sent) ≡ (ok tt, empty)
unfolding validate_protected_action_otp check_otp TwoFactor.find_by_user_and_type TwoFactor.delete
accepted = refl

accepted_otp_example :
    (d : ProtectedActionData) × IsPending env 1 d (holding sent)
    × (text_eq d.token (codes "123456") ≡ true)
    × ((add_attempt d).attempts < 3)
    × (is_expired 1100 600 d ≡ false)
accepted_otp_example = accepted_otp env 1100 (codes "123456") 1 true (holding sent) empty accepted

single_use_example :
    validate_protected_action_otp env 1101 (codes "123456") 1 true empty
    ≡ (err otp_not_found, empty)
single_use_example =
    single_use env 1100 1101 (codes "123456") (codes "123456") 1 true (holding sent) empty (tt, tt)
      accepted

abbrev wrong : List Guess
wrong =
    record { now = 1100; otp = codes "000000"; delete_if_valid = true }
    ∷ record { now = 1101; otp = codes "000001"; delete_if_valid = true }
    ∷ []

guesses_exhaust_example :
    validate_protected_action_otp env 1102
      (codes "123456")
      1
      true
      (after_guesses env 1 wrong (holding sent))
    ≡ (err token_expired, after_guesses env 1 wrong (holding sent))
guesses_exhaust_example =
    guesses_exhaust env env-IsCodec 1 wrong sent (holding sent) 1102 (codes "123456") true
      (holding-IsPending sent) refl ((refl, refl), ((refl, refl), tt)) (omega arith) (omega arith)
      (omega arith)

request_otp_fresh_example :
    (db' : Db) × (request_otp env 1030 6 (codes "654321") 1 (holding sent) ≡ (ok tt, db'))
    × IsPending env 1 (first_attempt (codes "654321") 1030) db'
request_otp_fresh_example =
    request_otp_fresh env 1030 6 (codes "654321") 1 (holding sent) refl env-IsCodec refl refl
      (inr (sent, holding-IsPending sent, omega arith))
