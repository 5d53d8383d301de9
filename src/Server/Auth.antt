-- ===== src/Server/Auth.antt =====
-- server/src/auth.rs: the claims of the tokens that the server signs, and the refresh of a session. The
-- signature and the checks of times and issuer (jsonwebtoken) are a `Jwt` for each type of claims; the
-- settings are `Config`. The calls of the clock within one request are one instant, `now`.
pub mod Claims
pub mod Guard
mod Tests
use umewarden.Prelude.{
  ℕ, ◌+◌, ◌*◌, Bool, true, false, not, ◌||◌, Option, none, some, List, [], ◌∷◌, ◌++◌, filter,
  if◌then◌else◌,
}
use umewarden.Prelude.Text.{Text, codes, split, is_whitespace, text_eq}
use umewarden.Server.Db.{
  User, Device, Error, jwt_invalid, jwt_issuer, jwt_expired, jwt_undecodable, refresh_refused,
  no_scope, bad_scope, Result, ok, err, M, pure, raise, query, require, guard, ◌>>=◌, ◌>>◌,
}
use umewarden.Server.Models.Device
use umewarden.Server.Models.Device.{is_mobile, from_i32, to_string}
use umewarden.Server.Models.User

-- `jsonwebtoken::errors::ErrorKind`, as far as it is told apart
pub data ErrorKind : Type 0 where
  invalid_token invalid_issuer expired_signature other_kind : ErrorKind

pub data Decoded (T : Type 0) : Type 0 where
  valid : T → Decoded T
  invalid : ErrorKind → Decoded T

-- `encode`, and `decode` with a leeway in seconds, at a time, for an issuer
pub record Jwt (T : Type 0) : Type 0 where
  pub encode : T → Text
  pub decode : ℕ → ℕ → Text → Text → Decoded T

abbrev error_of : ErrorKind → Error
error_of invalid_token = jwt_invalid
error_of invalid_issuer = jwt_issuer
error_of expired_signature = jwt_expired
error_of other_kind = jwt_undecodable

abbrev result_of : {T : Type 0} → Decoded T → Result T
result_of (valid claims) = ok claims
result_of (invalid kind) = err (error_of kind)

unfoldable pub decode_jwt : {T : Type 0} → Jwt T → ℕ → Text → Text → Result T
decode_jwt jwt now token issuer =
    result_of (jwt.decode 30 now issuer (filter (λ c. not (is_whitespace c)) token))

pub record Config : Type 0 where
  -- `CONFIG.domain_origin()`, `mail_enabled()`, `invitation_expiration_hours()` and
  -- `admin_session_lifetime()`, in minutes
  pub origin : Text
  pub mail_enabled : Bool
  pub invitation_hours : ℕ
  pub admin_minutes : ℕ

-- `AuthMethod`
pub data AuthMethod : Type 0 where
  org_api_key password user_api_key : AuthMethod

abbrev pub scope : AuthMethod → Text
scope org_api_key = codes "api.organization"
scope user_api_key = codes "api"
scope password = codes "api offline_access"

-- the scopes have single spaces and no other white space
abbrev pub scope_vec : AuthMethod → List Text
scope_vec m = split b' ' (scope m)

abbrev pub check_scope : AuthMethod → Option Text → M Text
check_scope m none = raise no_scope
check_scope m (some given) = if text_eq given (scope m) then pure (scope m) else raise bad_scope

pub record LoginJwtClaims : Type 0 where
  pub nbf : ℕ
  pub exp : ℕ
  pub iss : Text
  pub sub : ℕ
  pub premium : Bool
  pub name : Text
  pub email : Text
  pub email_verified : Bool
  pub sstamp : Text
  pub device : ℕ
  pub devicetype : Text
  pub client_id : Text
  pub scope : List Text
  pub amr : List Text

-- `TokenWrapper`
pub data TokenWrapper : Type 0 where
  access refresh : Text → TokenWrapper

pub record RefreshJwtClaims : Type 0 where
  pub nbf : ℕ
  pub exp : ℕ
  pub iss : Text
  pub sub : AuthMethod
  pub device_token : Text
  pub token : Option TokenWrapper

pub record AuthTokens : Type 0 where
  pub refresh_claims : RefreshJwtClaims
  pub access_claims : LoginJwtClaims

abbrev pub login_issuer : Config → Text
login_issuer config = config.origin ++ codes "|login"

abbrev is_some : Option ℕ → Bool
is_some none = false
is_some (some _) = true

abbrev or_undefined : Option Text → Text
or_undefined none = codes "undefined"
or_undefined (some client_id) = client_id

module _ (config : Config) where
  -- `LoginJwtClaims::new` and `default`: two hours
  unfoldable pub login_claims : ℕ → Device → User → AuthMethod → Option Text → LoginJwtClaims
  unfolding split
  login_claims now d u method client_id = record {
    nbf = now;
    exp = now + 7200;
    iss = login_issuer config;
    sub = u.uuid;
    premium = true;
    name = u.name;
    email = u.email;
    email_verified = not config.mail_enabled || is_some u.verified_at;
    sstamp = u.security_stamp;
    device = d.uuid;
    devicetype = to_string (from_i32 d.atype);
    client_id = or_undefined client_id;
    scope = scope_vec method;
    amr = codes "Application" ∷ [];
  }

  -- `AuthTokens::new`: 90 days for a mobile device, 30 for another
  unfoldable pub new_tokens : ℕ → Device → User → AuthMethod → Option Text → AuthTokens
  new_tokens now d u method client_id = record {
    refresh_claims = record {
      nbf = now;
      exp = now + (if is_mobile d then 90 * 86400 else 30 * 86400);
      iss = login_issuer config;
      sub = method;
      device_token = d.refresh_token;
      token = none;
    };
    access_claims = login_claims now d u method client_id;
  }

  -- any error of the decoder is one answer
  abbrev decoded_refresh : Result RefreshJwtClaims → M RefreshJwtClaims
  decoded_refresh (ok claims) = pure claims
  decoded_refresh (err e) = raise refresh_refused

  abbrev renew : ℕ → Option Text → Device → User → AuthMethod → M (Device × AuthTokens)
  renew now client_id d u password = pure (d, new_tokens now d u password client_id)
  renew now client_id d u user_api_key = raise refresh_refused
  renew now client_id d u org_api_key = raise refresh_refused

  unfoldable pub refresh_tokens :
      Jwt RefreshJwtClaims → ℕ → Text → Option Text → M (Device × AuthTokens)
  refresh_tokens jwt now refresh_token client_id = do
    claims ← decoded_refresh (decode_jwt jwt now refresh_token (login_issuer config))
    found ← query (Device.find_by_refresh_token claims.device_token)
    d ← require refresh_refused found
    saved ← Device.save now true d
    owner ← query (User.find_by_uuid saved.user_uuid)
    u ← require refresh_refused owner
    renew now client_id saved u claims.sub
