-- ===== src/Server/Api/Identity/Token.antt =====
-- server/src/api/identity.rs: the refresh of a session, and the route that all requests for a token
-- take.
use umewarden.Prelude.{ℕ, ◌-◌, Bool, true, Option, none, some, if◌then◌else◌}
use umewarden.Prelude.Text.{Text, codes, text_eq}
use umewarden.Server.Db.{
  Device, Db, blank_field, bad_grant_type, no_sso, refresh_refused, Result, ok, err, M, pure, raise,
  require, ◌>>=◌, ◌>>◌,
}
use umewarden.Server.Models.Device
use umewarden.Server.Models.Device.{is_new}
use umewarden.Server.Auth.{AuthTokens, scope, refresh_tokens}
use umewarden.Server.Api.Identity.{ConnectData, Fresh, Env}
use umewarden.Server.Api.Identity.Login.{LoginAnswer, password_login, api_key_login}

pub record RefreshAnswer : Type 0 where
  pub refresh_token : Text
  pub access_token : Text
  pub expires_in : ℕ
  pub scope : Text

pub data Answer : Type 0 where
  login_answer : LoginAnswer → Answer
  refresh_answer : RefreshAnswer → Answer

module _ (env : Env) (now : ℕ) where
  -- every error of the refresh is the same answer
  abbrev or_refused : Result (Device × AuthTokens) × Db → Result (Device × AuthTokens) × Db
  or_refused (ok r, db) = (ok r, db)
  or_refused (err e, db) = (err refresh_refused, db)

  abbrev refreshed : Text → Option Text → M (Device × AuthTokens)
  refreshed token client_id db =
      or_refused (refresh_tokens env.auth env.refresh_jwt now token client_id db)

  unfoldable pub refresh_login : ConnectData → M RefreshAnswer
  refresh_login asked = do
    token ← require refresh_refused asked.refresh_token
    renewed ← refreshed token asked.client_id
    _ ← Device.save now true renewed.0
    pure (record {
      refresh_token = env.refresh_jwt.encode renewed.1.refresh_claims;
      access_token = env.login_jwt.encode renewed.1.access_claims;
      expires_in = renewed.1.access_claims.exp - now;
      scope = scope renewed.1.refresh_claims.sub;
    })

-- `check_is_some`
abbrev check_is_some : {A : Type 0} → Option A → M (Unit {0})
check_is_some none = raise blank_field
check_is_some (some _) = pure tt

abbrev check_device : ConnectData → M (Unit {0})
check_device asked = do
  check_is_some asked.device_identifier
  check_is_some asked.device_name
  check_is_some asked.device_type

module _ (env : Env) (now : ℕ) (fresh : Fresh) (ip : Text) (sends_mail : Bool) where
  abbrev by_refresh : ConnectData → M Answer
  by_refresh asked = do
    check_is_some asked.refresh_token
    a ← refresh_login env now asked
    pure (refresh_answer a)

  abbrev by_password : ConnectData → M Answer
  by_password asked = do
    check_is_some asked.client_id
    check_is_some asked.password
    check_is_some asked.scope
    check_is_some asked.username
    check_device asked
    a ← password_login env now fresh ip sends_mail asked
    pure (login_answer a)

  abbrev by_api_key : ConnectData → M Answer
  by_api_key asked = do
    check_is_some asked.client_id
    check_is_some asked.client_secret
    check_is_some asked.scope
    check_device asked
    a ← api_key_login env now fresh ip asked
    pure (login_answer a)

  unfoldable pub login : ConnectData → M Answer
  login asked =
      if text_eq asked.grant_type (codes "refresh_token")
      then by_refresh asked
      else if text_eq asked.grant_type (codes "password")
      then by_password asked
      else if text_eq asked.grant_type (codes "client_credentials")
      then by_api_key asked
      else if text_eq asked.grant_type (codes "authorization_code")
      then raise no_sso
      else raise bad_grant_type
