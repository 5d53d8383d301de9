-- ===== src/Server/Api/Identity/Second.antt =====
-- server/src/api/identity.rs, twofactor_auth and json_err_twofactor. A call of another second factor
-- is a field of `Env`.
use umewarden.Prelude.{
  ℕ, Bool, true, false, not, ◌&&◌, ◌||◌, Option, none, some, List, [], ◌∷◌, map, filter, find,
  length, ◌==◌, if◌then◌else◌,
}
use umewarden.Prelude.Int.{ℤ, pos, negsuc}
use umewarden.Prelude.Text.{Text, text_eq, codes}
use umewarden.Server.Db.{
  User, Device, TwoFactor, factor_required, factor_missing, no_usable_factor, wrong_recovery_code,
  bad_factor, not_decodable, wrong_login, panicked, Result, ok, err, M, pure, raise, query, require,
  guard, ◌>>=◌, ◌>>◌,
}
use umewarden.Server.Models.Device
use umewarden.Server.Models.Device.{delete_twofactor_remember}
use umewarden.Server.Models.User
use umewarden.Server.Models.User.Password.{check_valid_recovery_code}
use umewarden.Server.Models.TwoFactor
use umewarden.Server.Models.TwoFactor.{
  TwoFactorType, authenticator, email, duo, yubi_key, webauthn, remember, recovery_code, as_i32,
  from_i32,
}
use umewarden.Server.Models.TwoFactorIncomplete
use umewarden.Server.Auth.{decode_jwt}
use umewarden.Server.Auth.Claims.{TwoFactorRememberClaims, generate_2fa_remember_claims, issuer}
use umewarden.Server.Api.Authenticator.{validate_totp_code_str}
use umewarden.Server.Api.Email.{send_token, validate_email_code_str}
use umewarden.Server.Api.Email.Obscure.{obscure_email}
use umewarden.Server.Api.TwoFactor.{is_row_usable}
use umewarden.Server.Api.Identity.{ConnectData, Fresh, Env}

-- the user, the device and the remember token after the second step
pub record Passed : Type 0 where
  pub user : User
  pub device : Device
  pub token : Option Text

abbrev pub is_empty : List ℕ → Bool
is_empty [] = true
is_empty (_ ∷ _) = false

-- `unwrap_or(twofactor_ids[0])`, for a list that is not empty
abbrev pub chosen : List ℕ → Option ℕ → ℕ
chosen ids (some id) = id
chosen [] none = 0
chosen (id ∷ _) none = id

abbrev pub contains : ℕ → List ℕ → Bool
contains id [] = false
contains id (x ∷ xs) = x == id || contains id xs

abbrev pub is_always : ℕ → Bool
is_always id = id == as_i32 remember || id == as_i32 recovery_code

abbrev pub wants : Option ℤ → Bool
wants none = false
wants (some (pos n)) = n == 1
wants (some (negsuc n)) = false

-- `sends_mail`: not a client that asks for the mail itself, by its version
module _ (env : Env) (now : ℕ) (fresh : Fresh) (ip : Text) (sends_mail : Bool)
    (asked : ConnectData) where
  -- one provider of the answer that asks for a second factor
  abbrev challenge_mail : ℕ → ℕ → M (Unit {0})
  challenge_mail user count = do
    found ← query (TwoFactor.find_by_user_and_type user (as_i32 email))
    row ← require factor_missing found
    (if count == 1 && sends_mail then send_token env.mails fresh.email_token now user else pure tt)
    d ← require not_decodable (env.mails.from_json row.data_)
    _ ← require panicked (obscure_email d.address)
    pure tt

  abbrev challenge_yubikey : ℕ → M (Unit {0})
  challenge_yubikey user = do
    found ← query (TwoFactor.find_by_user_and_type user (as_i32 yubi_key))
    row ← require factor_missing found
    _ ← require not_decodable (env.read_yubikey row.data_)
    pure tt

  abbrev challenge_duo : ℕ → M (Unit {0})
  challenge_duo user = do
    found ← query (User.find_by_uuid user)
    u ← require wrong_login found
    env.duo_challenge u.email asked.client_id asked.device_identifier

  abbrev challenge : ℕ → ℕ → Option TwoFactorType → M (Unit {0})
  challenge user count (some webauthn) =
      if env.providers.webauthn_supported then env.webauthn_challenge user else pure tt
  challenge user count (some duo) = challenge_duo user
  challenge user count (some yubi_key) = challenge_yubikey user
  challenge user count (some email) = challenge_mail user count
  challenge user count _ = pure tt

  unfoldable pub challenge_each : ℕ → ℕ → List ℕ → M (Unit {0})
  challenge_each user count [] = pure tt
  challenge_each user count (p ∷ ps) = do
    challenge user count (from_i32 p)
    challenge_each user count ps

  -- `err_json!(json_err_twofactor(…))`; of its JSON, the error keeps the providers
  unfoldable pub refuse : {A : Type 0} → List ℕ → ℕ → M A
  refuse ids user = do challenge_each user (length ids) ids; raise (factor_required ids)

  -- `selected_data`
  abbrev selected_data : Option TwoFactor → M Text
  selected_data none = raise factor_missing
  selected_data (some row) = pure row.data_

  -- the factors that leave the user and the device as they are
  unfoldable pub check_factor : User → Text → Option TwoFactor → TwoFactorType → M (Unit {0})
  check_factor u code row authenticator = do
    data_ ← selected_data row
    validate_totp_code_str env.totp now fresh.row_id u.uuid code data_
  check_factor u code row webauthn = env.validate_webauthn u.uuid code
  check_factor u code row yubi_key = do data_ ← selected_data row; env.validate_yubikey code data_
  check_factor u code row duo =
      env.validate_duo u.email code asked.client_id asked.device_identifier
  check_factor u code row email = do
    data_ ← selected_data row
    validate_email_code_str env.mails now u.uuid code data_
  check_factor u code row _ = raise bad_factor

  abbrev is_of : Device → User → Result TwoFactorRememberClaims → Bool
  is_of d u (ok c) = c.sub == d.uuid && c.user_uuid == u.uuid
  is_of d u (err e) = false

  -- whether the code is the remember token of the device
  abbrev pub is_remembered : User → Device → Text → Option Text → Bool
  is_remembered u d code none = false
  is_remembered u d code (some token) =
      not env.providers.remember_disabled
      && (text_eq token code
          && is_of d u
              (decode_jwt env.remember_jwt now code (issuer env.auth (codes "|2faremember"))))

  abbrev forget : Device → Option Text → M (Unit {0})
  forget d none = pure tt
  forget d (some _) = do _ ← Device.save now true (delete_twofactor_remember d); pure tt

  unfoldable pub check_remember : List ℕ → User → Device → Text → M (Unit {0})
  check_remember ids u d code =
      if is_remembered u d code d.twofactor_remember
      then pure tt
      else (do forget d d.twofactor_remember; refuse ids u.uuid)

  -- all the second factors of the user go, and the code with them
  unfoldable pub use_recovery_code : User → Text → M User
  use_recovery_code u code = do
    guard (check_valid_recovery_code env.reader u code) wrong_recovery_code
    TwoFactor.delete_all_by_user u.uuid
    User.save env.reader now (record u { totp_recover = none })

  unfoldable pub validate :
      List ℕ → User → Device → Text → Option TwoFactor → Option TwoFactorType → M User
  validate ids u d code row none = raise bad_factor
  validate ids u d code row (some remember) = do check_remember ids u d code; pure u
  validate ids u d code row (some recovery_code) = use_recovery_code u code
  validate ids u d code row (some t) = do check_factor u code row t; pure u

  -- a new remember token for the device, when it is asked for
  unfoldable pub remember_device : User → Device → Passed
  remember_device u d =
      let token =
        env.remember_jwt.encode (generate_2fa_remember_claims env.auth now d.uuid d.user_uuid) in
      if not env.providers.remember_disabled && wants asked.two_factor_remember
      then record {
        user = u;
        device = record d { twofactor_remember = some token };
        token = some token;
      }
      else record { user = u; device = d; token = none }

  abbrev pub given_code : List ℕ → ℕ → Option Text → M Text
  given_code ids user none = refuse ids user
  given_code ids user (some code) = pure code

  -- the providers that the user can choose from
  abbrev pub usable_ids : List TwoFactor → List ℕ
  usable_ids rows =
      map (λ (r : TwoFactor). r.atype)
        (filter (λ r. r.enabled && is_row_usable env.providers r) rows)

  -- with the provider that was chosen
  unfoldable pub second_step : List TwoFactor → User → Device → ℕ → M Passed
  second_step rows u d selected = do
    let ids = usable_ids rows
    (if not (is_always selected) && not (contains selected ids) then refuse ids u.uuid else pure tt)
    code ← given_code ids u.uuid asked.two_factor_token
    passed ←
        validate ids u d code (find (λ r. r.atype == selected && r.enabled) rows)
          (from_i32 selected)
    TwoFactorIncomplete.mark_complete env.incomplete u.uuid d.uuid
    pure (remember_device passed d)

  -- behind the query for the rows of the user
  unfoldable pub with_rows : User → Device → List TwoFactor → M Passed
  with_rows u d [] = pure (record { user = u; device = d; token = none })
  with_rows u d (r ∷ rs) = do
    TwoFactorIncomplete.mark_incomplete env.incomplete (record {
      user_uuid = u.uuid;
      device_uuid = d.uuid;
      device_name = d.name;
      device_type = d.atype;
      login_time = now;
      ip_address = ip;
    })
    let ids = usable_ids (r ∷ rs)
    guard (not (is_empty ids)) no_usable_factor
    second_step (r ∷ rs) u d (chosen ids asked.two_factor_provider)

  unfoldable pub twofactor_auth : User → Device → M Passed
  twofactor_auth u d = do rows ← query (TwoFactor.find_by_user u.uuid); with_rows u d rows
