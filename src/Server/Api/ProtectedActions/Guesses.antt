-- ===== src/Server/Api/ProtectedActions/Guesses.antt =====
-- How many guesses at a one-time password are compared with it.
use native.Mathlib.Decide.{dec_lt}
use umewarden.Prelude.{
  ℕ, ◌+◌, ◌^◌, ◌≤◌, ◌<◌, ◌≡◌, refl, ap, ◌∙◌, Bool, false, some, List, [], ◌∷◌, length, All, arith,
  leb,
}
use umewarden.Prelude.Text.{Text, text_eq}
use umewarden.Server.Db.{TwoFactor, Db, ok, err, token_expired, token_invalid}
use umewarden.Server.Models.TwoFactor
use umewarden.Server.Models.TwoFactor.Laws.{find-save, save_sound, found_lem}
use umewarden.Server.Api.ProtectedActions.{
  ProtectedActionData, Env, add_attempt, is_expired, check_otp, validate_protected_action_otp,
}

-- What the program relies on of the JSON codec: it reads back what it wrote.
pub record IsCodec (env : Env) : Type 0 where
  pub from_json-to_json : (d : ProtectedActionData) → env.from_json (env.to_json d) ≡ some d

-- The user's row for a one-time password, and what it stores.
pub record IsPending (env : Env) (user : ℕ) (d : ProtectedActionData) (db : Db) : Type 0 where
  pub row : TwoFactor
  pub found : TwoFactor.find_by_user_and_type user 2000 db ≡ some row
  pub stored : env.from_json row.data_ ≡ some d

module _ (env : Env) (now : ℕ) (otp : Text) (user : ℕ) (delete_if_valid : Bool) where
  abbrev counted : TwoFactor → ProtectedActionData → TwoFactor
  counted row d = record row { data_ = env.to_json (add_attempt d) }

  pub validate-IsPending :
      (d : ProtectedActionData) (db : Db) (p : IsPending env user d db)
      → validate_protected_action_otp env now otp user delete_if_valid db
        ≡ check_otp env now otp delete_if_valid (counted p.row d) (add_attempt d) db
  unfolding validate_protected_action_otp
  validate-IsPending d db p = simp (p.found, p.stored)

  -- Once the stored count of attempts is one below the limit, no password is accepted, the right one
  -- included, and nothing is written: the count stays.
  pub locked_out :
      (d : ProtectedActionData) (db : Db)
      → IsPending env user d db
      → d.attempts + 1 < 2 ^ 64
      → env.attempts_limit ≤ d.attempts + 1
      → validate_protected_action_otp env now otp user delete_if_valid db ≡ (err token_expired, db)
  unfolding check_otp
  locked_out d db p small full = validate-IsPending d db p ∙ ground arith

pub record Guess : Type 0 where
  pub now : ℕ
  pub otp : Text
  pub delete_if_valid : Bool

-- the database after a list of guesses
pub after_guesses : Env → ℕ → List Guess → Db → Db
after_guesses env user [] db = db
after_guesses env user (g ∷ gs) db =
    after_guesses env user gs
      (validate_protected_action_otp env g.now g.otp user g.delete_if_valid db).1

locked_guesses :
    (env : Env) (user : ℕ) (d : ProtectedActionData) (db : Db)
    → IsPending env user d db
    → d.attempts + 1 < 2 ^ 64
    → env.attempts_limit ≤ d.attempts + 1
    → (gs : List Guess) → after_guesses env user gs db ≡ db
unfolding after_guesses
locked_guesses env user d db p room full [] = refl
locked_guesses env user d db p room full (g ∷ gs) =
    rw (locked_out env g.now g.otp user g.delete_if_valid d db p room full)
      (locked_guesses env user d db p room full gs)

wrong_lem :
    (env : Env) (now : ℕ) (otp : Text) (delete_if_valid : Bool) (pa : TwoFactor)
    (d : ProtectedActionData) (db : Db)
    → leb env.attempts_limit d.attempts ≡ false
    → is_expired now env.expiration_time d ≡ false
    → text_eq d.token otp ≡ false
    → (TwoFactor.save pa db).0 ≡ ok tt
    → check_otp env now otp delete_if_valid pa d db ≡ (err token_invalid, (TwoFactor.save pa db).1)
unfolding check_otp
wrong_lem env now otp delete_if_valid pa d db below alive wrong saved =
    rw (below, alive, wrong) (rw saved refl)

module _ (env : Env) (codec : IsCodec env) (user : ℕ) where
  -- a wrong guess within the lifetime of the password
  abbrev IsWrong : Text → ℕ → Guess → Type 0
  IsWrong token sent g =
      (text_eq token g.otp ≡ false)
      × (is_expired g.now env.expiration_time
            (record { token = token; token_sent = sent; attempts = 0 })
          ≡ false)

  wrong_guess :
      (g : Guess) (d : ProtectedActionData) (db : Db)
      → IsPending env user d db
      → db.faults ≡ []
      → IsWrong d.token d.token_sent g
      → d.attempts + 1 < env.attempts_limit
      → env.attempts_limit < 2 ^ 64
      → (db' : Db) × (validate_protected_action_otp env g.now g.otp user g.delete_if_valid db
          ≡ (err token_invalid, db'))
        × IsPending env user (record d { attempts = d.attempts + 1 }) db'
        × (db'.faults ≡ [])
  wrong_guess g d db p sound (wrong, alive) more small =
      let row = counted env g.now g.otp user g.delete_if_valid p.row d in
      let below : leb env.attempts_limit (add_attempt d).attempts ≡ false = ground arith in
      let grown : add_attempt d ≡ record d { attempts = d.attempts + 1 } = ground arith in
      let (saved, sound') = save_sound row db sound in
      let (same_user, same_type) = found_lem user 2000 db p.found in
      let db' = (TwoFactor.save row db).1 in
      (
        db',
        validate-IsPending env g.now g.otp user g.delete_if_valid d db p
            ∙ wrong_lem env g.now g.otp g.delete_if_valid row (add_attempt d) db below alive wrong
                saved,
        record {
          row = row;
          found = find-save user 2000 row db db' same_user same_type (λ i. (saved i, db'));
          stored = codec.from_json-to_json (add_attempt d) ∙ ap some grown;
        },
        sound',
      )

  -- After wrong guesses within the lifetime of the stored password, with no faults, whose count
  -- reaches the limit less one together with the attempts already stored, no password is accepted
  -- any more, the right one included, and the call writes nothing.
  pub guesses_exhaust :
      (gs : List Guess) (d : ProtectedActionData) (db : Db) (now : ℕ) (otp : Text)
      (delete_if_valid : Bool)
      → IsPending env user d db
      → db.faults ≡ []
      → All (IsWrong d.token d.token_sent) gs
      → env.attempts_limit < 2 ^ 64
      → d.attempts + 1 < 2 ^ 64
      → env.attempts_limit ≤ d.attempts + length gs + 1
      → validate_protected_action_otp env now otp user delete_if_valid
          (after_guesses env user gs db)
        ≡ (err token_expired, after_guesses env user gs db)
  unfolding after_guesses
  guesses_exhaust [] d db now otp del p sound wrong small room reached =
      locked_out env now otp user del d db p room (omega arith)
  guesses_exhaust (g ∷ gs) d db now otp del p sound wrong small room reached =
      elim (dec_lt (d.attempts + 1) env.attempts_limit) [
        | yes more ↦
            let (db', e, p', sound') = wrong_guess g d db p sound wrong.0 more small in
            rw e (
              guesses_exhaust gs (record d { attempts = d.attempts + 1 }) db' now otp del p' sound'
                wrong.1 small (omega arith) (omega arith))
        | no full ↦
            let e = locked_out env g.now g.otp user g.delete_if_valid d db p room (omega arith) in
            let stays = locked_guesses env user d db p room (omega arith) gs in
            rw e (rw stays (locked_out env now otp user del d db p room (omega arith)))
      ]
