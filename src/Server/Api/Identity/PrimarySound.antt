-- ===== src/Server/Api/Identity/PrimarySound.antt =====
-- The first step of a login by password, and the answer.
use umewarden.Prelude.{
  ℕ, ◌+◌, ◌<◌, ◌≡◌, refl, ap, ◌∙◌, Bool, true, false, ◌&&◌, Option, none, some, arith,
}
use umewarden.Prelude.Text.{Text, text_eq}
use umewarden.Server.Db.{
  User, Device, AuthRequest, Db, wrong_login, login_request_missing, wrong_access_code, panicked,
}
use umewarden.Server.Ensures.{
  Ensures, Ensures-bind, Ensures-pure, Ensures-raise, Ensures-query, Ensures-require, Ensures-if,
  Ensures-conclude, Ensures-any, Ensures-known, Ensures-weaken, Ensures-guard,
}
use umewarden.Server.Models.AuthRequest
use umewarden.Server.Models.AuthRequest.{check_access_code}
use umewarden.Server.Models.Device
use umewarden.Server.Models.User.Password.{check_valid_password}
use umewarden.Server.Auth.{AuthTokens, password, check_scope, scope}
use umewarden.Server.Api.Identity.{Fresh, Env}
use umewarden.Server.Api.Identity.Login.{
  notify_device, register_push, answer_of, is_none, upgrade, check_primary, is_answered,
  check_verified, authenticated_response,
}
use umewarden.Server.Api.Identity.HolderSound.{IsUnmoved, IsHolder, kdf_upgrade-IsHolder}

module _ (env : Env) (now : ℕ) (fresh : Fresh) (ip : Text) where
  -- what a login shows before the second step: the password of the user, or the access code of a
  -- request of theirs that was approved within the last five minutes, from the same address
  pub data IsPrimary (given : Text) (request : Option ℕ) (u : User) (db : Db) : Type 0 where
    by_password :
        request ≡ none
        → check_valid_password env.kdf u given ≡ some true
        → IsPrimary given request u db
    by_request :
        (id : ℕ) (r : AuthRequest)
        → request ≡ some id
        → AuthRequest.find_by_uuid_and_user id u.uuid db ≡ some r
        → r.approved ≡ some true
        → now < r.creation_date + 300
        → text_eq ip r.request_ip ≡ true
        → check_access_code r given ≡ true
        → IsPrimary given request u db

  answered_lem :
      (given : Text) (id : ℕ) (u : User) (db : Db) (r : AuthRequest) (approved : Option Bool)
      → r.approved ≡ approved
      → AuthRequest.find_by_uuid_and_user id u.uuid db ≡ some r
      → is_answered env now fresh ip given u r ≡ true
      → IsPrimary given (some id) u db
  answered_lem given id u db r none e found h = absurd (ground (arith, rw e at h))
  answered_lem given id u db r (some false) e found h = absurd (ground (arith, rw e at h))
  answered_lem given id u db r (some true) e found h =
      let t = rw e at h in
      by_request id r refl found e (ground (arith, t)) (ground (arith, t)) (ground (arith, t))

  pub check_primary-IsPrimary :
      (given : Text) (request : Option ℕ) (u : User) (db0 : Db)
      → Ensures
          (λ db. db ≡ db0)
          (check_primary env now fresh ip given request u)
          (λ _ db. (db ≡ db0) × IsPrimary given request u db0)
  unfolding check_primary
  check_primary-IsPrimary given none u db0 =
      Ensures-bind (Ensures-require panicked (check_valid_password env.kdf u given)) (λ valid.
        Ensures-known (λ e.
          Ensures-conclude (λ _ db (h, right). (h, by_password refl (e ∙ ap some right)))
            (Ensures-guard valid wrong_login)))
  check_primary-IsPrimary given (some id) u db0 =
      Ensures-bind (Ensures-query (AuthRequest.find_by_uuid_and_user id u.uuid)) (λ found.
        Ensures-bind (Ensures-require login_request_missing found) (λ r.
          Ensures-conclude
            (λ _ db (((h, f), e), right).
              (h, answered_lem given id u db0 r r.approved refl (rw h at f ∙ e) right))
            (Ensures-guard (is_answered env now fresh ip given u r) wrong_access_code)))

  pub check_verified-Keeps :
      {P : Db → Type 0} (u : User) → Ensures P (check_verified env now fresh ip u) (λ _. P)
  unfolding check_verified
  check_verified-Keeps u =
      Ensures-if (is_none u.verified_at && (env.auth.mail_enabled && env.signups_verify))
        (λ unverified. record { at = λ db h. tt }) (λ fine. Ensures-pure tt (λ db h. h))

  pub authenticated-returns :
      {P : Db → Type 0} (u : User) (d : Device) (tokens : AuthTokens) (token : Option Text)
      → Ensures P
          (authenticated_response env now fresh ip u d tokens token)
          (λ a _. a.access_token ≡ env.login_jwt.encode tokens.access_claims)
  unfolding authenticated_response
  authenticated-returns u d tokens token =
      Ensures-bind (Ensures-any {m = notify_device env now fresh ip d}) (λ _.
        Ensures-bind (Ensures-any {m = register_push env now fresh ip d}) (λ _.
          Ensures-bind (Ensures-any {m = Device.save now true d})
            (λ _. Ensures-pure (answer_of env now fresh ip u tokens token) (λ db h. refl))))

  pub upgrade-IsHolder :
      (db0 : Db) (given : Text) (request : Option ℕ) (u : User)
      → Ensures
          (λ db. db ≡ db0)
          (upgrade env now fresh ip given request u)
          (λ v db. IsUnmoved db0 db × IsHolder u v)
  upgrade-IsHolder db0 given none u =
      Ensures-weaken
        (λ db h. record {
          same_factors = ap (λ (x : Db). x.twofactor) h;
          same_devices = ap (λ (x : Db). x.devices) h;
        })
        (kdf_upgrade-IsHolder db0 env.reader now env.kdf env.stamps fresh.draws
          env.password_iterations u given)
  upgrade-IsHolder db0 given (some id) u = Ensures-pure u (λ db h. (
    record {
      same_factors = ap (λ (x : Db). x.twofactor) h;
      same_devices = ap (λ (x : Db). x.devices) h;
    },
    record { same_uuid = refl; same_code = refl },
  ))

pub check_scope-Keeps :
    {P : Db → Type 0} (given : Option Text) → Ensures P (check_scope password given) (λ _. P)
check_scope-Keeps none = Ensures-raise _
check_scope-Keeps (some t) =
    Ensures-if (text_eq t (scope password)) (λ same. Ensures-pure _ (λ db h. h))
      (λ other. Ensures-raise _)
