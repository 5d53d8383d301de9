-- ===== src/Server/Api/Authenticator/Steps.antt =====
-- The loop over the time steps: only the first step with the given code counts.
use umewarden.Prelude.{
  ℕ, ◌≡◌, refl, inl, inr, Bool, true, false, Bool-cases, Option, none, some, List, [], ◌∷◌, find,
  arith, if◌then◌else◌,
}
use umewarden.Prelude.Int.{ℤ, ◌<ℤ◌, ltb_ℤ}
use umewarden.Prelude.Text.{Text, text_eq}
use umewarden.Server.Db.{TwoFactor, Db, Error, M, ok, err, invalid_totp_code, raise}
use umewarden.Server.Models.TwoFactor
use umewarden.Server.Models.TwoFactor.Laws.{NoFault, save-ok, save-err}
use umewarden.Server.Api.Authenticator.{Totp, generated, time_step, try_steps}

module _ (t : Totp) (secret : List ℕ) (totp_code : Text) (now : ℕ) where
  abbrev pub same_code : ℤ → Bool
  same_code step = text_eq (generated t secret now step) totp_code

  abbrev pub first_match : List ℤ → Option ℤ
  first_match = find same_code

  -- what the first matching step decides
  unfoldable pub by_match : TwoFactor → Option ℤ → M (Unit {0})
  by_match row none = raise invalid_totp_code
  by_match row (some step) =
      if ltb_ℤ row.last_used (time_step now step)
      then TwoFactor.save (record row { last_used = time_step now step })
      else raise invalid_totp_code

  pub try_steps-by_match :
      (row : TwoFactor) (steps : List ℤ)
      → try_steps t secret totp_code row now steps ≡ by_match row (first_match steps)
  unfolding try_steps by_match
  try_steps-by_match row [] = refl
  try_steps-by_match row (step ∷ steps) = elim (Bool-cases (same_code step)) [
    | inr e ↦ rw e (try_steps-by_match row steps)
    | inl e ↦ elim (Bool-cases (ltb_ℤ row.last_used (time_step now step))) [
      | inl f ↦ rw (e, f) refl
      | inr f ↦ rw (e, f) refl
    ]
  ]

  -- An accepted step is later than the last one, and the row is stored with it.
  pub by_match-ok :
      (row : TwoFactor) (m : Option ℤ) (db db' : Db)
      → by_match row m db ≡ (ok tt, db')
      → (step : ℤ) × (m ≡ some step)
        × (row.last_used <ℤ time_step now step)
        × (TwoFactor.save (record row { last_used = time_step now step }) db ≡ (ok tt, db'))
  unfolding by_match
  by_match-ok row none db db' h = absurd (ground arith)
  by_match-ok row (some step) db db' h =
      elim (Bool-cases (ltb_ℤ row.last_used (time_step now step))) [
        | inl f ↦ (step, refl, ground arith, rw (f, by_match) at h)
        | inr f ↦ absurd (ground arith)
      ]

  -- With a later step and no fault the code is accepted.
  pub by_match-fresh :
      (row : TwoFactor) (step : ℤ) (db : Db)
      → row.last_used <ℤ time_step now step
      → NoFault db
      → (by_match row (some step) db).0 ≡ ok tt
  unfolding by_match
  by_match-fresh row step db later sound =
      let f : ltb_ℤ row.last_used (time_step now step) ≡ true = ground arith in
      rw f (save-ok (record row { last_used = time_step now step }) db sound)

  -- A step that is not later is refused, and nothing is written.
  pub by_match-used :
      (row : TwoFactor) (step : ℤ) (db : Db)
      → ¬ (row.last_used <ℤ time_step now step)
      → by_match row (some step) db ≡ (err invalid_totp_code, db)
  unfolding by_match
  by_match-used row step db used =
      let f : ltb_ℤ row.last_used (time_step now step) ≡ false = ground arith in rw f refl

  pub by_match-err :
      (row : TwoFactor) (m : Option ℤ) (db : Db) (e : Error)
      → (by_match row m db).0 ≡ err e
      → (by_match row m db).1.twofactor ≡ db.twofactor
  unfolding by_match
  by_match-err row none db e h = refl
  by_match-err row (some step) db e h =
      elim (Bool-cases (ltb_ℤ row.last_used (time_step now step))) [
        | inl f ↦ rw f (save-err (record row { last_used = time_step now step }) db e (rw f at h))
        | inr f ↦ rw f refl
      ]
