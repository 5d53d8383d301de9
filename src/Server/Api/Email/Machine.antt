-- ===== src/Server/Api/Email/Machine.antt =====
-- A second factor by mail as a machine of tickets: what a client sees of a sequence of codes, without
-- the rows, the codec and the counters.
use native.Mathlib.Decide.{dec_lt}
use umewarden.Prelude.{
  ℕ, ◌+◌, ◌-◌, ◌^◌, ◌<◌, ◌≡◌, refl, ap, none, some, List, [], ◌∷◌, Bool-cases, inl, inr, arith, ltb,
  if◌then◌else◌,
}
use umewarden.Prelude.Text.{Text, text_eq}
use umewarden.Server.Db.{
  Db, mail_token_missing, mail_token_invalid, mail_token_expired, Result, ok, err,
}
use umewarden.Server.Api.Email.{EmailTokenData, Env, counted, reset_token}
use umewarden.Server.Api.Email.Guesses.{
  IsCodec, IsStored, Guess, enter, spent_lem, wrong_guess, right_guess, accepted,
}

-- an issued code with the number of wrong codes that spend it, or none
pub data Ticket : Type 0 where
  valid : ℕ → Ticket
  spent : Ticket

module _ (issued : Text) (expiry : ℕ) where
  abbrev admit : ℕ → Result (Unit {0})
  admit now = if ltb expiry now then err mail_token_expired else ok tt

  -- one code: the answer, and the ticket afterwards
  abbrev turn : Guess → Ticket → Result (Unit {0}) × Ticket
  turn g spent = (err mail_token_missing, spent)
  turn g (valid left) =
      if text_eq issued g.token
      then (admit g.now, spent)
      else (err mail_token_invalid, if ltb 1 left then valid (left - 1) else spent)

  -- the answers to a sequence of codes
  unfoldable pub expected : List Guess → Ticket → List (Result (Unit {0}))
  expected [] t = []
  expected (g ∷ gs) t = (turn g t).0 ∷ expected gs (turn g t).1

module _ (env : Env) (user : ℕ) where
  unfoldable pub answers : List Guess → Db → List (Result (Unit {0}))
  answers [] db = []
  answers (g ∷ gs) db =
      (enter env user g.now g.token db).0 ∷ answers gs (enter env user g.now g.token db).1

  module _ (codec : IsCodec env) (issued : Text) (expiry : ℕ) where
    answers_spent :
        (gs : List Guess) (d : EmailTokenData) (db : Db)
        → IsStored env user d db
        → d.last_token ≡ none
        → answers gs db ≡ expected issued expiry gs spent
    unfolding answers expected
    answers_spent [] d db p e = refl
    answers_spent (g ∷ gs) d db p e =
        rw (spent_lem env user g.now g.token d db p e)
          (ap (λ rest. err mail_token_missing ∷ rest) (answers_spent gs d db p e))

    answers_from :
        (gs : List Guess) (d : EmailTokenData) (db : Db)
        → IsStored env user d db
        → db.faults ≡ []
        → d.last_token ≡ some issued
        → d.token_sent + env.expiration_time ≡ expiry
        → env.attempts_limit < 2 ^ 64
        → d.attempts < env.attempts_limit
        → answers gs db ≡ expected issued expiry gs (valid (env.attempts_limit - d.attempts))
    unfolding answers expected
    answers_from [] d db p sound e at small below = refl
    answers_from (g ∷ gs) d db p sound e at small below =
        elim (Bool-cases (text_eq issued g.token)) [
          | inl right ↦
              let (db', step, p') =
                right_guess env user codec g.now g.token issued d db p sound e right in
              rw (← at, step, right)
                (ap (λ rest. accepted env user g.now d ∷ rest)
                  (answers_spent gs (reset_token d) db' p' refl))
          | inr other ↦
              let (db', step, p', sound') =
                wrong_guess env user codec g.now g.token issued d db p sound e other in
              elim (dec_lt (d.attempts + 1) env.attempts_limit) [
                | yes more ↦
                    let grown : counted env d ≡ record d { attempts = d.attempts + 1 } =
                      ground arith in
                    let next : (if ltb 1 (env.attempts_limit - d.attempts)
                          then valid (env.attempts_limit - d.attempts - 1)
                          else spent)
                        ≡ valid (env.attempts_limit - (d.attempts + 1)) =
                      ground arith in
                    rw (step, other, next)
                      (ap (λ rest. err mail_token_invalid ∷ rest)
                        (answers_from gs (record d { attempts = d.attempts + 1 }) db'
                          (rw grown at p') sound' e at small more))
                | no full ↦
                    let gone : (counted env d).last_token ≡ none = ground arith in
                    let next : (if ltb 1 (env.attempts_limit - d.attempts)
                          then valid (env.attempts_limit - d.attempts - 1)
                          else spent)
                        ≡ spent =
                      ground arith in
                    rw (step, other, next)
                      (ap (λ rest. err mail_token_invalid ∷ rest)
                        (answers_spent gs (counted env d) db' p' gone))
              ]
        ]

  -- With no faults and a codec that reads what it writes, for a limit of 64 bits that is not yet
  -- reached, the answers to any sequence of codes are those of the ticket machine, from the ticket with
  -- as many wrong codes left as the attempts that were counted leave of the limit, and with the time at
  -- which the stored token expires.
  pub answers-expected :
      IsCodec env
      → (issued : Text) (gs : List Guess) (d : EmailTokenData) (db : Db) → IsStored env user d db
      → db.faults ≡ []
      → d.last_token ≡ some issued
      → env.attempts_limit < 2 ^ 64
      → d.attempts < env.attempts_limit
      → answers gs db
        ≡ expected issued
            (d.token_sent + env.expiration_time)
            gs
            (valid (env.attempts_limit - d.attempts))
  answers-expected codec issued gs d db p sound e small below =
      answers_from codec issued (d.token_sent + env.expiration_time) gs d db p sound e refl small
        below
