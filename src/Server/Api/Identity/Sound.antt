-- ===== src/Server/Api/Identity/Sound.antt =====
-- What has been checked when a login by password has returned tokens.
use umewarden.Prelude.{ℕ, ◌≡◌, ◌∙◌, Bool, true, some}
use umewarden.Prelude.Text.{Text, trim}
use umewarden.Server.Db.{
  User, Device, Db, wrong_login, user_disabled, login_limited, panicked, ◌>>=◌,
}
use umewarden.Server.Ensures.{
  Ensures, Ensures-bind, Ensures-query, Ensures-require, Ensures-conclude, Ensures-when,
  Ensures-known, Ensures-weaken,
}
use umewarden.Server.Models.User
use umewarden.Server.Models.User.{Reader, is_valid_email}
use umewarden.Server.Auth.{LoginJwtClaims, password, login_claims, new_tokens}
use umewarden.Server.Api.Identity.{ConnectData, Fresh, Env, get_device}
use umewarden.Server.Api.Identity.Second.{Passed, twofactor_auth}
use umewarden.Server.Api.Identity.FactorSound.{IsSecond, rows_of}
use umewarden.Server.Api.Identity.SecondSound.{IsPassed, twofactor_auth-IsPassed}
use umewarden.Server.Api.Identity.Login.{
  LoginAnswer, upgrade, check_verified, authenticated_response, password_login,
}
use umewarden.Server.Api.Identity.HolderSound.{IsHolder, IsDevice, get_device-IsDevice}
use umewarden.Server.Api.Identity.PrimarySound.{
  IsPrimary, check_primary-IsPrimary, check_verified-Keeps, authenticated-returns, upgrade-IsHolder,
  check_scope-Keeps,
}

module _ (env : Env) (now : ℕ) (fresh : Fresh) (ip : Text) (sends_mail : Bool)
    (asked : ConnectData) where
  -- what stands behind the tokens of a login by password
  pub record IsAuthenticated (db : Db) (a : LoginAnswer) : Type 0 where
    pub name : Text
    pub given : Text
    pub user : User
    pub named : asked.username ≡ some name
    pub entered : asked.password ≡ some given
    pub found : User.find_by_mail env.reader (trim name) db ≡ some user
    pub enabled : user.enabled ≡ true
    pub primary : IsPrimary env now fresh ip given asked.auth_request user db
    -- the account and the device behind the second step
    pub holder : User
    pub device : Device
    pub same_account : IsHolder user holder
    pub known : IsDevice db now fresh asked holder device
    pub second :
        IsSecond env now fresh ip sends_mail asked db.twofactor
          (rows_of holder.uuid db.twofactor)
          holder
          device
    -- whom the access token names
    pub claims : LoginJwtClaims
    pub signed : a.access_token ≡ env.login_jwt.encode claims
    pub same_subject : claims.sub ≡ user.uuid
    pub same_device : claims.device ≡ device.uuid

  abbrev Chosen : Db → Text → Text → User → Type 0
  Chosen db0 name given u =
      (asked.username ≡ some name)
      × (asked.password ≡ some given)
      × (User.find_by_mail env.reader (trim name) db0 ≡ some u)
      × (u.enabled ≡ true)

  IsPassed-IsAuthenticated :
      (db0 : Db) (name given : Text) (u v : User) (d : Device) (p : Passed)
      → Chosen db0 name given u
      → IsPrimary env now fresh ip given asked.auth_request u db0
      → IsHolder u v
      → IsDevice db0 now fresh asked v d
      → IsPassed env now fresh ip sends_mail asked db0.twofactor
          (rows_of v.uuid db0.twofactor)
          v
          d
          p
      → (a : LoginAnswer)
      → a.access_token
        ≡ env.login_jwt.encode
            (new_tokens env.auth now p.device p.user password asked.client_id).access_claims
      → IsAuthenticated db0 a
  unfolding new_tokens login_claims
  IsPassed-IsAuthenticated db0 name given u v d p (named, entered, found, enabled) primary holder
        known (second, same_user, same_device) a e =
      record {
        name = name;
        given = given;
        user = u;
        named = named;
        entered = entered;
        found = found;
        enabled = enabled;
        primary = primary;
        holder = v;
        device = d;
        same_account = holder;
        known = known;
        second = second;
        claims = (new_tokens env.auth now p.device p.user password asked.client_id).access_claims;
        signed = e;
        same_subject = same_user ∙ holder.same_uuid;
        same_device = same_device;
      }

  -- behind the first step
  tail-IsAuthenticated :
      (db0 : Db) (name given : Text) (u : User)
      → Chosen db0 name given u
      → IsPrimary env now fresh ip given asked.auth_request u db0
      → Ensures
          (λ db. db ≡ db0)
          (upgrade env now fresh ip given asked.auth_request u >>= λ v.
            check_verified env now fresh ip v >>= λ _. get_device now fresh asked v >>= λ d.
            twofactor_auth env now fresh ip sends_mail asked v d >>= λ p.
            authenticated_response env now fresh ip p.user p.device
              (new_tokens env.auth now p.device p.user password asked.client_id)
              p.token)
          (λ a _. IsAuthenticated db0 a)
  tail-IsAuthenticated db0 name given u chosen primary =
      Ensures-bind (upgrade-IsHolder env now fresh ip db0 given asked.auth_request u) (λ v.
        Ensures-known (λ holder. Ensures-bind (check_verified-Keeps env now fresh ip v) (λ _.
          Ensures-bind (get_device-IsDevice db0 now fresh asked v) (λ d. Ensures-known (λ known.
            Ensures-bind
              (twofactor_auth-IsPassed env now fresh ip sends_mail asked db0.twofactor v d)
              (λ p.
                Ensures-weaken
                  {P = λ _.
                    Unit {0}
                    × IsPassed env now fresh ip sends_mail asked db0.twofactor
                        (rows_of v.uuid db0.twofactor) v d p}
                  (λ db passed. (tt, passed))
                  (Ensures-known (λ passed.
                    Ensures-conclude
                      (λ a db e.
                        IsPassed-IsAuthenticated db0 name given u v d p chosen primary holder known
                          passed a e)
                      (authenticated-returns env now fresh ip p.user p.device _ p.token)))))))))

  -- A login by password that returns tokens has found an enabled user under the name that was entered,
  -- has checked their password or the access code of a fresh approved request of theirs, and, when the
  -- user has second factors, has accepted one of those that are turned on, a token remembered for the
  -- device, or their recovery code; the access token names that user and that device. Whatever faults
  -- come.
  pub password_login-IsAuthenticated :
      (db0 : Db)
      → Ensures
          (λ db. db ≡ db0)
          (password_login env now fresh ip sends_mail asked)
          (λ a _. IsAuthenticated db0 a)
  unfolding password_login
  password_login-IsAuthenticated db0 = Ensures-bind (check_scope-Keeps asked.scope) (λ _.
      Ensures-when (env.login_allowed ip) login_limited (λ allowed.
        Ensures-bind (Ensures-require panicked asked.username) (λ name. Ensures-known (λ named.
          Ensures-bind (Ensures-query (User.find_by_mail env.reader (trim name))) (λ found.
            Ensures-bind (Ensures-require wrong_login found) (λ u.
              Ensures-weaken (λ db ((h, f), e). (h, rw h at f ∙ e))
                (Ensures-known (λ is_found. Ensures-when u.enabled user_disabled (λ enabled.
                  Ensures-bind (Ensures-require panicked asked.password) (λ given.
                    Ensures-known (λ entered.
                      Ensures-bind
                        (check_primary-IsPrimary env now fresh ip given asked.auth_request u db0)
                        (λ _. Ensures-known (λ primary.
                          tail-IsAuthenticated db0 name given u (named, entered, is_found, enabled)
                            primary)))))))))))))
