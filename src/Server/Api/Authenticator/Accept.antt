-- ===== src/Server/Api/Authenticator/Accept.antt =====
-- Which codes are accepted, and what is stored then: a time step is used once at most.
use umewarden.Prelude.{
  ℕ, ◌+◌, ◌≡◌, refl, ap, inl, inr, none, some, Option-cases, List, [], ◌∷◌, arith,
}
use umewarden.Prelude.Int.{ℤ, pos, ◌+ℤ◌, ◌<ℤ◌, ◌≤ℤ◌, pos_part, neg_part, int_laws}
use umewarden.Prelude.Text.{Text}
use umewarden.Server.Db.{
  TwoFactor, Db, Error, invalid_totp_code, invalid_totp_secret, Result, ok, err,
}
use umewarden.Server.Models.TwoFactor
use umewarden.Server.Models.TwoFactor.Laws.{NoFault, find-save, found_lem}
use umewarden.Server.Api.Authenticator.{Totp, window, time_step, row_or_new, validate_totp_code}
use umewarden.Server.Api.Authenticator.Steps.{
  first_match, by_match, try_steps-by_match, by_match-ok, by_match-fresh, by_match-used,
  by_match-err,
}

-- the last time step that the user's row records, 0 without a row
abbrev pub last_used_by : ℕ → Db → ℤ
last_used_by user db = elim (TwoFactor.find_by_user_and_type user 0 db) [
  | none ↦ pos 0
  | some row ↦ row.last_used
]

module _ (t : Totp) (now fresh_id user : ℕ) (totp_code secret : Text) where
  abbrev pub validate : Db → Result (Unit {0}) × Db
  validate = validate_totp_code t now fresh_id user totp_code secret

  abbrev stored : Db → TwoFactor
  stored db = row_or_new fresh_id user secret (TwoFactor.find_by_user_and_type user 0 db)

  validate_step :
      (decoded : List ℕ) (db : Db)
      → t.decode secret ≡ some decoded
      → validate db
        ≡ by_match t decoded totp_code now
            (stored db)
            (first_match t decoded totp_code now (window t.drift_disabled))
            db
  unfolding validate_totp_code
  validate_step decoded db e =
      rw (e, validate_totp_code)
        (rw (← try_steps-by_match t decoded totp_code now (stored db) (window t.drift_disabled))
          refl)

  undecoded : (db : Db) → t.decode secret ≡ none → validate db ≡ (err invalid_totp_secret, db)
  unfolding validate_totp_code
  undecoded db e = rw (e, validate_totp_code) refl

  stored-last_used : (db : Db) → (stored db).last_used ≡ last_used_by user db
  stored-last_used db = ground arith

  stored-keys : (db : Db) → ((stored db).user_uuid ≡ user) × ((stored db).atype ≡ 0)
  stored-keys db = elim (Option-cases (TwoFactor.find_by_user_and_type user 0 db)) [
    | inl e ↦ rw e (refl, refl)
    | inr (row, e) ↦ rw e (found_lem user 0 db e)
  ]

  -- An accepted code is the code of the first time step of the window with that code; this step is
  -- later than the last one that the user's row recorded, and the row records it now.
  pub validate_accepts :
      (db db' : Db)
      → validate db ≡ (ok tt, db')
      → (decoded : List ℕ) × (step : ℤ) × (t.decode secret ≡ some decoded)
        × (first_match t decoded totp_code now (window t.drift_disabled) ≡ some step)
        × (last_used_by user db <ℤ time_step now step)
        × (last_used_by user db' ≡ time_step now step)
  validate_accepts db db' h = elim (Option-cases (t.decode secret)) [
    | inl e ↦ absurd (ground (arith, undecoded db e))
    | inr (decoded, e) ↦
        let (step, m, later, saved) =
          by_match-ok t decoded totp_code now (stored db) _ db db'
            (rw (validate_step decoded db e) at h) in
        let (same_user, same_type) = stored-keys db in
        let read = find-save user 0 _ db db' same_user same_type saved in
        (decoded, step, e, m, rw (stored-last_used db) at later, ground arith)
  ]

  -- A call that returns an error leaves the table twofactor as it was.
  pub validate-err :
      (db : Db) (e : Error) → (validate db).0 ≡ err e → (validate db).1.twofactor ≡ db.twofactor
  validate-err db e h = elim (Option-cases (t.decode secret)) [
    | inl u ↦ rw (undecoded db u) refl
    | inr (decoded, u) ↦ rw (validate_step decoded db u) (
        by_match-err t decoded totp_code now (stored db) _ db e
          (rw (validate_step decoded db u) at h))
  ]

  -- With a secret that decodes, a first matching step later than the last one recorded, and no fault
  -- of the next statement, the code is accepted.
  pub validate_complete :
      (decoded : List ℕ) (step : ℤ) (db : Db)
      → t.decode secret ≡ some decoded
      → first_match t decoded totp_code now (window t.drift_disabled) ≡ some step
      → last_used_by user db <ℤ time_step now step
      → NoFault db
      → (validate db).0 ≡ ok tt
  validate_complete decoded step db e m later sound = rw (validate_step decoded db e) (
      rw m (
        by_match-fresh t decoded totp_code now (stored db) step db
          (rw (← stored-last_used db) at later) sound))

-- One code twice.
module _ (t : Totp) (now id id' user : ℕ) (totp_code secret : Text) where
  -- A code that was accepted is refused when it comes again in the same second, and that call writes
  -- nothing.
  pub validate_replay :
      (db db' : Db)
      → validate t now id user totp_code secret db ≡ (ok tt, db')
      → validate t now id' user totp_code secret db' ≡ (err invalid_totp_code, db')
  validate_replay db db' h =
      let (decoded, step, e, m, later, recorded) =
        validate_accepts t now id user totp_code secret db db' h in
      let last = stored-last_used t now id' user totp_code secret db' in
      rw (validate_step t now id' user totp_code secret decoded db' e) (
        rw m (
          by_match-used t decoded totp_code now (stored t now id' user totp_code secret db') step
            db' (λ later'. omega (arith, rw (last, recorded) at later'))))

pub record Attempt : Type 0 where
  pub now : ℕ
  pub fresh_id : ℕ
  pub totp_code : Text
  pub secret : Text

abbrev accepted : Result (Unit {0}) → ℕ
accepted (ok _) = 1
accepted (err _) = 0

-- the count of accepted codes of one user, and the database after the attempts
pub attempts : Totp → ℕ → List Attempt → Db → ℕ × Db
attempts t user [] db = (0, db)
attempts t user (a ∷ as_) db =
    let (result, db') = validate t a.now a.fresh_id user a.totp_code a.secret db in
    let (n, db'') = attempts t user as_ db' in (accepted result + n, db'')

last_used_by-twofactor :
    (user : ℕ) (db db' : Db)
    → db'.twofactor ≡ db.twofactor
    → last_used_by user db' ≡ last_used_by user db
unfolding TwoFactor.find_by_user_and_type
last_used_by-twofactor user db db' e = rw e refl

lt-le : (a b : ℤ) → a <ℤ b → pos 1 +ℤ a ≤ℤ b
lt-le a b h = omega int_laws

attempt_grows :
    (t : Totp) (user : ℕ) (a : Attempt) (db : Db)
    → let (result, db') = validate t a.now a.fresh_id user a.totp_code a.secret db in
      pos (accepted result) +ℤ last_used_by user db ≤ℤ last_used_by user db'
attempt_grows t user a db = go (validate t a.now a.fresh_id user a.totp_code a.secret db) refl
  where
    go :
        (out : Result (Unit {0}) × Db)
        → validate t a.now a.fresh_id user a.totp_code a.secret db ≡ out
        → pos (accepted out.0) +ℤ last_used_by user db ≤ℤ last_used_by user out.1
    go (ok tt, db') h =
        let (_, step, _, _, later, recorded) =
          validate_accepts t a.now a.fresh_id user a.totp_code a.secret db db' h in
        lt-le (last_used_by user db) _ (rw recorded later)
    go (err e, db') h =
        let same =
          validate-err t a.now a.fresh_id user a.totp_code a.secret db e (ap (λ o. o.0) h) in
        let kept : db'.twofactor ≡ db.twofactor = rw h at same in
        omega (
          int_laws,
          ap pos_part (last_used_by-twofactor user db db' kept),
          ap neg_part (last_used_by-twofactor user db db' kept),
        )

-- Whatever codes are tried, whenever and with whatever faults, each accepted one moves the last
-- recorded time step of the user on: their count is at most what it has grown by.
pub attempts-le :
    (t : Totp) (user : ℕ) (as_ : List Attempt) (db : Db)
    → pos (attempts t user as_ db).0 +ℤ last_used_by user db
      ≤ℤ last_used_by user (attempts t user as_ db).1
unfolding attempts
attempts-le t user [] db = omega int_laws
attempts-le t user (a ∷ as_) db =
    let db' = (validate t a.now a.fresh_id user a.totp_code a.secret db).1 in
    omega (int_laws, attempt_grows t user a db, attempts-le t user as_ db')
