-- ===== src/Server/Api/ProtectedActions/Reuse.antt =====
-- A one-time password that was accepted and deleted, and a new one that is requested.
use umewarden.Prelude.{
  ℕ, ◌+◌, ◌-◌, ◌≤◌, ◌<◌, ◌≡◌, refl, Bool, true, false, none, Option-cases, [], arith, ltb,
  if◌then◌else◌, ◌⊎◌, inl, inr,
}
use umewarden.Prelude.Text.{Text, text_eq}
use umewarden.Server.Db.{TwoFactor, Db, ok, err, otp_not_found, please_wait}
use umewarden.Server.Models.TwoFactor
use umewarden.Server.Models.TwoFactor.Keys.{IsKeyed, find-delete}
use umewarden.Server.Models.TwoFactor.Laws.{find-save, save_sound, delete_sound}
use umewarden.Server.Api.ProtectedActions.{
  ProtectedActionData, first_attempt, Env, add_attempt, is_expired, check_otp, request_otp,
  clear_previous, validate_protected_action_otp,
}
use umewarden.Server.Api.ProtectedActions.Guesses.{IsCodec, IsPending, validate-IsPending}

-- what a passed check says
record IsPassed (env : Env) (now : ℕ) (otp : Text) (del : Bool) (pa : TwoFactor)
    (d : ProtectedActionData) (db db' : Db) : Type 0 where
  within : d.attempts < env.attempts_limit
  alive : is_expired now env.expiration_time d ≡ false
  right : text_eq d.token otp ≡ true
  effect : (if del then TwoFactor.delete pa db else (ok tt, db)) ≡ (ok tt, db')

check_otp-IsPassed :
    (env : Env) (now : ℕ) (otp : Text) (del : Bool) (pa : TwoFactor) (d : ProtectedActionData)
    (db db' : Db)
    → check_otp env now otp del pa d db ≡ (ok tt, db')
    → IsPassed env now otp del pa d db db'
unfolding check_otp
check_otp-IsPassed env now otp del pa d db db' h = ground arith

module _ (env : Env) (now : ℕ) (otp : Text) (user : ℕ) (del : Bool) where
  stored_data :
      (db db' : Db)
      → validate_protected_action_otp env now otp user del db ≡ (ok tt, db')
      → (d : ProtectedActionData) × IsPending env user d db
  unfolding validate_protected_action_otp
  stored_data db db' h = elim (Option-cases (TwoFactor.find_by_user_and_type user 2000 db)) [
    | inl e ↦ absurd (ground arith)
    | inr (row, e) ↦ elim (Option-cases (env.from_json row.data_)) [
      | inl j ↦ absurd (ground arith)
      | inr (d, j) ↦ (d, record { row = row; found = e; stored = j })
    ]
  ]

  -- An accepted password is the one that the user's row stores; with this call its attempts are below
  -- the limit, and its lifetime has not passed.
  pub accepted_otp :
      (db db' : Db)
      → validate_protected_action_otp env now otp user del db ≡ (ok tt, db')
      → (d : ProtectedActionData) × IsPending env user d db
        × (text_eq d.token otp ≡ true)
        × ((add_attempt d).attempts < env.attempts_limit)
        × (is_expired now env.expiration_time d ≡ false)
  accepted_otp db db' h =
      let (d, p) = stored_data db db' h in
      let passed =
        check_otp-IsPassed env now otp del _ (add_attempt d) db db'
          (rw (validate-IsPending env now otp user del d db p) at h) in
      (d, p, passed.right, passed.within, passed.alive)

-- A password that was accepted by a call that deletes it is not found by any later call on the
-- database that this call left, provided that the keys of the rows were apart.
pub single_use :
    (env : Env) (now now' : ℕ) (otp otp' : Text) (user : ℕ) (del' : Bool) (db db' : Db)
    → IsKeyed db.twofactor
    → validate_protected_action_otp env now otp user true db ≡ (ok tt, db')
    → validate_protected_action_otp env now' otp' user del' db' ≡ (err otp_not_found, db')
unfolding validate_protected_action_otp
single_use env now now' otp otp' user del' db db' keyed h =
    let (d, p) = stored_data env now otp user true db db' h in
    let passed =
      check_otp-IsPassed env now otp true _ (add_attempt d) db db'
        (rw (validate-IsPending env now otp user true d db p) at h) in
    let gone = find-delete user 2000 p.row _ db db' keyed p.found refl passed.effect in rw gone refl

-- Requests.
module _ (env : Env) (now fresh_id : ℕ) (token : Text) (user : ℕ) (db : Db)
    (enabled : env.mail_enabled ≡ true) where
  -- Within 30 seconds behind the last password, a request is refused with the seconds that are left,
  -- and nothing is written.
  pub request_otp_early :
      (d : ProtectedActionData)
      → IsPending env user d db
      → now < d.token_sent + 30
      → request_otp env now fresh_id token user db
        ≡ (err (please_wait (d.token_sent + 30 - now)), db)
  unfolding request_otp
  request_otp_early d p early =
      let soon : ltb now (d.token_sent + 30) ≡ true = ground arith in
      rw enabled (simp (p.found, p.stored) (rw soon refl))

  cleared :
      (db.faults ≡ [])
      → (TwoFactor.find_by_user_and_type user 2000 db ≡ none)
        ⊎ ((d : ProtectedActionData) × IsPending env user d db × (d.token_sent + 30 ≤ now))
      → (db' : Db) × (clear_previous env now (TwoFactor.find_by_user_and_type user 2000 db) db
          ≡ (ok tt, db'))
        × (db'.faults ≡ [])
  cleared sound (inl absent) = (db, rw absent refl, sound)
  cleared sound (inr (d, p, old)) =
      let late : ltb now (d.token_sent + 30) ≡ false = ground arith in
      let (deleted, sound') = delete_sound p.row db sound in
      let db' = (TwoFactor.delete p.row db).1 in
      (db', simp (p.found, p.stored) (rw late (λ i. (deleted i, db'))), sound')

  -- When no password is stored or the last one is 30 seconds old, the mailer is enabled and takes the
  -- message, and no statement fails, a request succeeds, and the user's row then stores the generated
  -- password with the time of the request and no attempt.
  pub request_otp_fresh :
      IsCodec env
      → env.mail_sent ≡ true
      → db.faults ≡ []
      → (TwoFactor.find_by_user_and_type user 2000 db ≡ none)
        ⊎ ((d : ProtectedActionData) × IsPending env user d db × (d.token_sent + 30 ≤ now))
      → (db' : Db) × (request_otp env now fresh_id token user db ≡ (ok tt, db'))
        × IsPending env user (first_attempt token now) db'
  unfolding request_otp
  request_otp_fresh codec sent sound previous =
      let (db1, e, sound1) = cleared sound previous in
      let row =
        TwoFactor.new fresh_id user TwoFactor.protected_actions
          (env.to_json (first_attempt token now)) in
      let (saved, _) = save_sound row db1 sound1 in
      let db' = (TwoFactor.save row db1).1 in
      (
        db',
        rw (enabled, e) (rw (saved, sent) refl),
        record {
          row = row;
          found = find-save user 2000 row db1 db' refl refl (λ i. (saved i, db'));
          stored = codec.from_json-to_json (first_attempt token now);
        },
      )
