-- ===== src/Server/Api/Email/Tests.antt =====
-- Runs of the codes by mail, and the theorems at concrete inputs.
use umewarden.Prelude.{ℕ, zero, suc, ◌≡◌, refl, ◌↔◌, true, Option, none, some, List, [], ◌∷◌, arith}
use umewarden.Prelude.Text.{Text, codes, utf8}
use umewarden.Server.Db.{TwoFactor, Db, empty, ok, err, mail_token_missing, mail_token_invalid}
use umewarden.Server.Models.TwoFactor
use umewarden.Server.Models.TwoFactor.{email}
use umewarden.Server.Models.User.Samples.{someone}
use umewarden.Server.Api.Email.{
  EmailTokenData, Env, new, activate_email_2fa, validate_email_code_str, check_code,
}
use umewarden.Server.Api.Email.Guesses.{
  IsCodec, IsStored, Guess, enter, after_guesses, guesses_spend,
}
use umewarden.Server.Api.Email.Machine.{expected, valid, answers, answers-expected}
use umewarden.Server.Api.Email.Obscure.{
  IsUnshown, rsplit_once, new_name, truncate, obscure_email, obscure_email-eq-none,
}

-- a codec: the two numbers, the token with its end marked by a zero, and the address
abbrev shifted : Text → Text → Text
shifted [] address = zero ∷ address
shifted (c ∷ s) address = suc c ∷ shifted s address

abbrev unshifted : Text → Text × Text
unshifted [] = ([], [])
unshifted (zero ∷ address) = ([], address)
unshifted (suc c ∷ s) = let (token, address) = unshifted s in (c ∷ token, address)

unshifted-shifted : (token address : Text) → unshifted (shifted token address) ≡ (token, address)
unshifted-shifted [] address = refl
unshifted-shifted (c ∷ s) address = rw (unshifted-shifted s address) refl

abbrev write_token : Option Text → Text → Text
write_token none address = zero ∷ address
write_token (some token) address = 1 ∷ shifted token address

abbrev data_of : ℕ → ℕ → Option Text → Text → EmailTokenData
data_of attempts sent token address = record {
  address = address;
  last_token = token;
  token_sent = sent;
  attempts = attempts;
}

abbrev read_fields : Text → Option EmailTokenData
read_fields (attempts ∷ sent ∷ zero ∷ address) = some (data_of attempts sent none address)
read_fields (attempts ∷ sent ∷ suc _ ∷ s) =
    let (token, address) = unshifted s in some (data_of attempts sent (some token) address)
read_fields _ = none

abbrev env : Env
env = record {
  to_json = λ d. d.attempts ∷ d.token_sent ∷ write_token d.last_token d.address;
  from_json = read_fields;
  enabled = true;
  attempts_limit = 3;
  expiration_time = 600;
  mail_sent = true;
  login_allowed = λ ip. true;
}

read_lem :
    (d : EmailTokenData) (o : Option Text)
    → d.last_token ≡ o
    → env.from_json (d.attempts ∷ d.token_sent ∷ write_token o d.address)
      ≡ some (data_of d.attempts d.token_sent o d.address)
read_lem d none e = refl
read_lem d (some token) e = rw (unshifted-shifted token d.address) refl

env-IsCodec : IsCodec env
env-IsCodec = record { from_json-to_json = λ d. read_lem d d.last_token refl }

abbrev sent : EmailTokenData
sent = new (codes "a@b.c") (codes "123456") 1000

abbrev row_of : EmailTokenData → TwoFactor
row_of d = TwoFactor.new 5 1 email (env.to_json d)

abbrev holding : EmailTokenData → Db
holding d = record empty { twofactor = row_of d ∷ [] }

sent-IsStored : IsStored env 1 sent (holding sent)
unfolding TwoFactor.find_by_user_and_type
sent-IsStored = record { row = row_of sent; found = refl; stored = refl }

abbrev wrong : List Guess
wrong =
    record { now = 1001; token = codes "000000" }
    ∷ record { now = 1002; token = codes "12345" }
    ∷ record { now = 1003; token = codes "1234567" }
    ∷ []

guesses_spend_example :
    enter env 1 1004 (codes "123456") (after_guesses env 1 wrong (holding sent))
    ≡ (err mail_token_missing, after_guesses env 1 wrong (holding sent))
guesses_spend_example =
    guesses_spend env 1 env-IsCodec wrong (codes "123456") sent (holding sent) 1004 (codes "123456")
      sent-IsStored refl refl (refl, (refl, (refl, tt))) (omega arith) (omega arith) (omega arith)

abbrev mixed : List Guess
mixed =
    record { now = 1001; token = codes "000000" }
    ∷ record { now = 1600; token = codes "123456" }
    ∷ record { now = 1600; token = codes "123456" }
    ∷ []

answers-expected_example :
    answers env 1 mixed (holding sent) ≡ expected (codes "123456") 1600 mixed (valid 3)
answers-expected_example =
    answers-expected env 1 env-IsCodec (codes "123456") mixed sent (holding sent) sent-IsStored refl
      refl (omega arith) (omega arith)

mixed_answers :
    expected (codes "123456") 1600 mixed (valid 3)
    ≡ err mail_token_invalid ∷ ok tt ∷ err mail_token_missing ∷ []
unfolding expected
mixed_answers = refl

-- an ASCII letter, then one of two bytes
abbrev accented : Text
accented = b'a' ∷ 233 ∷ b'b' ∷ b'c' ∷ []

obscure_email-eq-none_example :
    (obscure_email (b'a' ∷ 233 ∷ b'b' ∷ b'c' ∷ b'@' ∷ codes "b.c") ≡ none) ↔ IsUnshown accented
obscure_email-eq-none_example = obscure_email-eq-none accented (codes "b.c") refl

panics : obscure_email (b'a' ∷ 233 ∷ b'b' ∷ b'c' ∷ b'@' ∷ codes "b.c") ≡ none
unfolding obscure_email rsplit_once new_name truncate utf8
panics = refl

obscured : obscure_email (codes "alice@b.c") ≡ some (codes "al***@b.c")
unfolding obscure_email rsplit_once new_name truncate utf8
obscured = refl

-- behind `activate_email_2fa`, the empty code is the right one
abbrev activated : Db
activated = (activate_email_2fa env 1000 5 (record someone { verified_at = some 900 }) empty).1

empty_code : (enter env 1 1600 [] activated).0 ≡ ok tt
unfolding activate_email_2fa enter validate_email_code_str check_code TwoFactor.save
    TwoFactor.find_by_user_and_type
empty_code = refl
