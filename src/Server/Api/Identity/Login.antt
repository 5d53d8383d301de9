-- ===== src/Server/Api/Identity/Login.antt =====
-- server/src/api/identity.rs: the logins by password and by API key. Of the JSON
-- answer, the constant parts are left out.
use umewarden.Prelude.{
  ℕ, ◌+◌, ◌-◌, ◌^◌, Bool, true, false, not, ◌&&◌, ◌||◌, Option, none, some, List, [], ◌∷◌, ltb,
  ◌==◌, if◌then◌else◌,
}
use umewarden.Prelude.Int.{ℤ, pos, negsuc, ltb_ℤ, ◌+ℤ◌, ◌-ℤ◌}
use umewarden.Prelude.Text.{Text, codes, text_eq, trim, strip_prefix}
use umewarden.Server.Db.{
  User, Device, AuthRequest, Db, login_limited, wrong_login, user_disabled, login_request_missing,
  wrong_access_code, email_unverified, device_mail_failed, bad_client_id, wrong_secret, bad_scope,
  panicked, M, pure, raise, query, require, guard, modify, ◌>>=◌, ◌>>◌,
}
use umewarden.Server.Models.AuthRequest
use umewarden.Server.Models.AuthRequest.{check_access_code}
use umewarden.Server.Models.Device
use umewarden.Server.Models.Device.{is_new}
use umewarden.Server.Models.User
use umewarden.Server.Models.User.Password.{check_valid_password, check_valid_api_key}
use umewarden.Server.Auth.{
  password, user_api_key, AuthTokens, check_scope, scope, new_tokens, login_claims,
}
use umewarden.Server.Api.Accounts.{kdf_upgrade}
use umewarden.Server.Api.Identity.{ConnectData, Fresh, Env, get_device}
use umewarden.Server.Api.Identity.Second.{twofactor_auth}

pub record Kdf : Type 0 where
  pub kdf_type : ℤ
  pub iterations : ℤ
  pub memory : Option ℤ
  pub parallelism : Option ℤ

-- an encrypted private key with its public key
pub record AccountKeys : Type 0 where
  pub wrapped_private_key : Text
  pub public_key : Option Text

pub record LoginAnswer : Type 0 where
  pub access_token : Text
  pub expires_in : ℕ
  pub refresh_token : Option Text
  pub scope : Text
  pub private_key : Option Text
  pub kdf : Kdf
  pub account_keys : Option AccountKeys
  pub has_master_password : Bool
  pub key : Option Text
  pub two_factor_token : Option Text

abbrev is_empty : {A : Type 0} → List A → Bool
is_empty [] = true
is_empty (_ ∷ _) = false

abbrev kdf_of : User → Kdf
kdf_of u = record {
  kdf_type = u.client_kdf_type;
  iterations = u.client_kdf_iter;
  memory = u.client_kdf_memory;
  parallelism = u.client_kdf_parallelism;
}

abbrev keys_of : Option Text → Option Text → Option AccountKeys
keys_of none public_key = none
keys_of (some key) public_key = some (record { wrapped_private_key = key; public_key = public_key })

abbrev or_no : Option Bool → Bool
or_no none = false
or_no (some b) = b

abbrev pub is_none : Option ℕ → Bool
is_none none = true
is_none (some _) = false

-- a difference of times is more than the configured seconds
abbrev is_due : ℕ → ℤ → Option ℕ → Bool
is_due now resend_time none = true
is_due now resend_time (some last) = ltb_ℤ resend_time (pos now -ℤ pos last)

-- `+= 1` on i32
abbrev increment : ℤ → ℤ
increment (pos n) = if n == 2 ^ 31 - 1 then negsuc (2 ^ 31 - 1) else pos (n + 1)
increment (negsuc n) = negsuc n +ℤ pos 1

abbrev is_zero : ℤ → Bool
is_zero (pos n) = n == 0
is_zero (negsuc n) = false

module _ (env : Env) (now : ℕ) (fresh : Fresh) (ip : Text) where
  -- the stored request is the user's, approved, younger than five minutes, from the same address, and
  -- its access code is given
  abbrev pub is_answered : Text → User → AuthRequest → Bool
  is_answered code u r =
      r.user_uuid == u.uuid
      && (or_no r.approved
          && (ltb now (r.creation_date + 300)
              && (text_eq ip r.request_ip && check_access_code r code)))

  unfoldable pub check_primary : Text → Option ℕ → User → M (Unit {0})
  check_primary given (some id) u = do
    found ← query (AuthRequest.find_by_uuid_and_user id u.uuid)
    r ← require login_request_missing found
    guard (is_answered given u r) wrong_access_code
  check_primary given none u = do
    valid ← require panicked (check_valid_password env.kdf u given)
    guard valid wrong_login

  abbrev pub upgrade : Text → Option ℕ → User → M User
  upgrade given (some _) u = pure u
  upgrade given none u =
      kdf_upgrade env.reader env.kdf env.stamps env.password_iterations fresh.draws now u given

  -- a reminder is counted and saved; its errors, and those of the mail, are logged
  abbrev remind : User → Db → Db
  remind u db =
      if is_due now env.resend_time u.last_verifying_at
        && (is_zero env.resend_limit || ltb_ℤ u.login_verify_count env.resend_limit)
      then (User.save env.reader now
          (record u {
            last_verifying_at = some now;
            login_verify_count = increment u.login_verify_count;
          })
          db).1
      else db

  unfoldable pub check_verified : User → M (Unit {0})
  check_verified u =
      if is_none u.verified_at && (env.auth.mail_enabled && env.signups_verify)
      then (do modify (remind u); raise email_unverified)
      else pure tt

  -- the mail about a device that has not logged in before
  unfoldable pub notify_device : Device → M (Unit {0})
  notify_device d =
      if env.auth.mail_enabled && (is_new d && (not env.mail_sent && env.require_device_email))
      then raise device_mail_failed
      else pure tt

  abbrev key_of : Text → Option Text
  key_of [] = none
  key_of (c ∷ s) = some (c ∷ s)

  abbrev pub answer_of : User → AuthTokens → Option Text → LoginAnswer
  answer_of u tokens twofactor_token = record {
    access_token = env.login_jwt.encode tokens.access_claims;
    expires_in = tokens.access_claims.exp - now;
    refresh_token = some (env.refresh_jwt.encode tokens.refresh_claims);
    scope = scope tokens.refresh_claims.sub;
    private_key = u.private_key;
    kdf = kdf_of u;
    account_keys = keys_of u.private_key u.public_key;
    has_master_password = not (is_empty u.password_hash);
    key = key_of u.akey;
    two_factor_token = twofactor_token;
  }

  abbrev pub register_push : Device → M (Unit {0})
  register_push d = if not (is_new d) then env.register_push_device d else pure tt

  unfoldable pub authenticated_response : User → Device → AuthTokens → Option Text → M LoginAnswer
  authenticated_response u d tokens twofactor_token = do
    notify_device d
    register_push d
    _ ← Device.save now true d
    pure (answer_of u tokens twofactor_token)

  unfoldable pub password_login : Bool → ConnectData → M LoginAnswer
  password_login sends_mail asked = do
    _ ← check_scope password asked.scope
    guard (env.login_allowed ip) login_limited
    username ← require panicked asked.username
    found ← query (User.find_by_mail env.reader (trim username))
    u ← require wrong_login found
    guard u.enabled user_disabled
    given ← require panicked asked.password
    check_primary given asked.auth_request u
    upgraded ← upgrade given asked.auth_request u
    check_verified upgraded
    d ← get_device now fresh asked upgraded
    passed ← twofactor_auth env now fresh ip sends_mail asked upgraded d
    authenticated_response passed.user passed.device
        (new_tokens env.auth now passed.device passed.user password asked.client_id) passed.token

  unfoldable pub user_api_key_login : ConnectData → M LoginAnswer
  user_api_key_login asked = do
    client_id ← require panicked asked.client_id
    client_user_id ← require bad_client_id (strip_prefix (codes "user.") client_id)
    found ← query (User.find_by_uuid (env.user_id client_user_id))
    u ← require bad_client_id found
    guard u.enabled user_disabled
    secret ← require panicked asked.client_secret
    guard (check_valid_api_key u secret) wrong_secret
    d ← get_device now fresh asked u
    notify_device d
    let claims = login_claims env.auth now d u user_api_key asked.client_id
    _ ← Device.save now true d
    pure (record {
      access_token = env.login_jwt.encode claims;
      expires_in = claims.exp - now;
      refresh_token = none;
      scope = scope user_api_key;
      private_key = u.private_key;
      kdf = kdf_of u;
      account_keys = keys_of u.private_key u.public_key;
      has_master_password = not (is_empty u.password_hash);
      key = some u.akey;
      two_factor_token = none;
    })

  abbrev is_scope : Option Text → Bool
  is_scope none = false
  is_scope (some given) = text_eq given (scope user_api_key)

  unfoldable pub api_key_login : ConnectData → M LoginAnswer
  api_key_login asked = do
    guard (env.login_allowed ip) login_limited
    guard (is_scope asked.scope) bad_scope
    user_api_key_login asked
