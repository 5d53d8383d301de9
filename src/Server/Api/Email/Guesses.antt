-- ===== src/Server/Api/Email/Guesses.antt =====
-- How often a code by mail can be guessed, and how often it is accepted.
use native.Mathlib.Decide.{dec_lt}
use umewarden.Prelude.{
  ℕ, ◌+◌, ◌^◌, ◌≤◌, ◌<◌, ◌≡◌, refl, ◌∙◌, true, false, none, some, List, [], ◌∷◌, length, All, arith,
  Bool-cases, inl, inr, if◌then◌else◌,
}
use umewarden.Prelude.Text.{Text, text_eq}
use umewarden.Server.Db.{
  TwoFactor, Db, ok, err, factor_missing, mail_token_missing, mail_token_invalid,
  mail_token_expired, Result, M, query, require, ◌>>=◌,
}
use umewarden.Server.Models.TwoFactor
use umewarden.Server.Models.TwoFactor.{email, as_i32}
use umewarden.Server.Models.TwoFactor.Laws.{find-save, save_sound, found_lem}
use umewarden.Server.Api.Email.{
  EmailTokenData, Env, counted, reset_token, is_late, check_code, validate_email_code_str,
}

-- What the program relies on of the JSON codec: it reads back what it wrote.
pub record IsCodec (env : Env) : Type 0 where
  pub from_json-to_json : (d : EmailTokenData) → env.from_json (env.to_json d) ≡ some d

-- The user's row for codes by mail, and what it stores.
pub record IsStored (env : Env) (user : ℕ) (d : EmailTokenData) (db : Db) : Type 0 where
  pub row : TwoFactor
  pub found : TwoFactor.find_by_user_and_type user 1 db ≡ some row
  pub stored : env.from_json row.data_ ≡ some d

pub record Guess : Type 0 where
  pub now : ℕ
  pub token : Text

module _ (env : Env) (user : ℕ) where
  -- a code, checked against what is stored for the user
  unfoldable pub enter : ℕ → Text → M (Unit {0})
  enter now token = do
    found ← query (TwoFactor.find_by_user_and_type user (as_i32 email))
    row ← require factor_missing found
    validate_email_code_str env now user token row.data_

  enter-IsStored :
      (now : ℕ) (token issued : Text) (d : EmailTokenData) (db : Db) (p : IsStored env user d db)
      → d.last_token ≡ some issued
      → enter now token db ≡ check_code env now token p.row issued d db
  unfolding enter validate_email_code_str
  enter-IsStored now token issued d db p e = rw (p.found, p.stored, p.found, e) refl

  -- without a token, every code is refused and nothing is written
  pub spent_lem :
      (now : ℕ) (token : Text) (d : EmailTokenData) (db : Db)
      → IsStored env user d db
      → d.last_token ≡ none
      → enter now token db ≡ (err mail_token_missing, db)
  unfolding enter validate_email_code_str
  spent_lem now token d db p e = rw (p.found, p.stored, p.found, e) refl

  -- the database after a list of codes
  pub after_guesses : List Guess → Db → Db
  after_guesses [] db = db
  after_guesses (g ∷ gs) db = after_guesses gs (enter g.now g.token db).1

  -- the answer to the right code
  abbrev pub accepted : ℕ → EmailTokenData → Result (Unit {0})
  accepted now d = if is_late env now d then err mail_token_expired else ok tt

  module _ (codec : IsCodec env) where
    abbrev with_data : TwoFactor → EmailTokenData → TwoFactor
    with_data row d = record row { data_ = env.to_json d }

    after_save :
        (d e : EmailTokenData) (db : Db) (p : IsStored env user d db)
        → db.faults ≡ []
        → let db' = (TwoFactor.save (with_data p.row e) db).1 in
          (TwoFactor.save (with_data p.row e) db ≡ (ok tt, db'))
          × IsStored env user e db'
          × (db'.faults ≡ [])
    after_save d e db p sound =
        let row = with_data p.row e in
        let (saved, sound') = save_sound row db sound in
        let (same_user, same_type) = found_lem user 1 db p.found in
        let db' = (TwoFactor.save row db).1 in
        let whole : TwoFactor.save row db ≡ (ok tt, db') = λ i. (saved i, db') in
        (
          whole,
          record {
            row = row;
            found = find-save user 1 row db db' same_user same_type whole;
            stored = codec.from_json-to_json e;
          },
          sound',
        )

    pub wrong_guess :
        (now : ℕ) (token issued : Text) (d : EmailTokenData) (db : Db)
        → IsStored env user d db
        → db.faults ≡ []
        → d.last_token ≡ some issued
        → text_eq issued token ≡ false
        → (db' : Db) × (enter now token db ≡ (err mail_token_invalid, db'))
          × IsStored env user (counted env d) db'
          × (db'.faults ≡ [])
    unfolding check_code
    wrong_guess now token issued d db p sound e wrong =
        let (saved, p', sound') = after_save d (counted env d) db p sound in
        (
          (TwoFactor.save (with_data p.row (counted env d)) db).1,
          enter-IsStored now token issued d db p e ∙ rw wrong (rw saved refl),
          p',
          sound',
        )

    pub right_guess :
        (now : ℕ) (token issued : Text) (d : EmailTokenData) (db : Db)
        → IsStored env user d db
        → db.faults ≡ []
        → d.last_token ≡ some issued
        → text_eq issued token ≡ true
        → (db' : Db) × (enter now token db ≡ (accepted now d, db'))
          × IsStored env user (reset_token d) db'
    unfolding check_code
    right_guess now token issued d db p sound e right =
        let (saved, p', sound') = after_save d (reset_token d) db p sound in
        let db' = (TwoFactor.save (with_data p.row (reset_token d)) db).1 in
        (
          db',
          enter-IsStored now token issued d db p e ∙ elim (Bool-cases (is_late env now d)) [
            | inl late ↦ rw right (rw saved (rw late refl))
            | inr in_time ↦ rw right (rw saved (rw in_time refl))
          ],
          p',
        )

    -- With no faults, the right code is accepted in time, and no code at all afterwards, as long as
    -- no other is sent.
    pub enter_once :
        (now : ℕ) (token issued : Text) (d : EmailTokenData) (db : Db)
        → IsStored env user d db
        → db.faults ≡ []
        → d.last_token ≡ some issued
        → text_eq issued token ≡ true
        → is_late env now d ≡ false
        → (db' : Db) × (enter now token db ≡ (ok tt, db'))
          × ((later : ℕ) (other : Text) → enter later other db' ≡ (err mail_token_missing, db'))
    enter_once now token issued d db p sound e right in_time =
        let (db', step, p') = right_guess now token issued d db p sound e right in
        (
          db',
          step ∙ rw in_time refl,
          λ later other. spent_lem later other (reset_token d) db' p' refl,
        )

    spent_guesses :
        (d : EmailTokenData) (db : Db)
        → IsStored env user d db
        → d.last_token ≡ none
        → (gs : List Guess) → after_guesses gs db ≡ db
    unfolding after_guesses
    spent_guesses d db p e [] = refl
    spent_guesses d db p e (g ∷ gs) =
        rw (spent_lem g.now g.token d db p e) (spent_guesses d db p e gs)

    abbrev pub IsWrong : Text → Guess → Type 0
    IsWrong issued g = text_eq issued g.token ≡ false

    -- With no faults and a codec that reads what it writes, for a limit of 64 bits that is not yet
    -- reached: when the wrong codes that are entered reach it together with the attempts already
    -- counted, the token is gone: every further code is refused, the right one included, and the call
    -- writes nothing.
    pub guesses_spend :
        (gs : List Guess) (issued : Text) (d : EmailTokenData) (db : Db) (now : ℕ) (token : Text)
        → IsStored env user d db
        → db.faults ≡ []
        → d.last_token ≡ some issued
        → All (IsWrong issued) gs
        → env.attempts_limit < 2 ^ 64
        → d.attempts < env.attempts_limit
        → env.attempts_limit ≤ d.attempts + length gs
        → enter now token (after_guesses gs db) ≡ (err mail_token_missing, after_guesses gs db)
    unfolding after_guesses
    guesses_spend [] issued d db now token p sound e wrong small below reached =
        absurd (omega arith)
    guesses_spend (g ∷ gs) issued d db now token p sound e wrong small below reached =
        let (db', step, p', sound') = wrong_guess g.now g.token issued d db p sound e wrong.0 in
        elim (dec_lt (d.attempts + 1) env.attempts_limit) [
          | yes more ↦
              let grown : counted env d ≡ record d { attempts = d.attempts + 1 } = ground arith in
              rw step (
                guesses_spend gs issued (record d { attempts = d.attempts + 1 }) db' now token
                  (rw grown at p') sound' e wrong.1 small (omega arith) (omega arith))
          | no full ↦
              let gone : (counted env d).last_token ≡ none = ground arith in
              rw step (
                rw (spent_guesses (counted env d) db' p' gone gs)
                  (spent_lem now token (counted env d) db' p' gone))
        ]
