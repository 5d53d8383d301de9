-- ===== src/Server/Models/User/Password.antt =====
-- server/src/db/models/user.rs and server/src/crypto.rs: passwords, recovery codes, API keys and the
-- security stamp. The derivation of keys (ring) and the JSON codec are parameters, and so are the
-- stamp and the refresh tokens that the code draws.
use umewarden.Prelude.{
  ℕ, ◌+◌, ◌-◌, ◌^◌, Bool, false, Option, none, some, List, [], ◌==◌, if◌then◌else◌,
}
use umewarden.Prelude.Int.{ℤ, pos, negsuc}
use umewarden.Prelude.Text.{Text, text_eq, utf8}
use umewarden.Server.Db.{User, Device, panicked, M, pure, query, require, ◌>>=◌, ◌>>◌}
use umewarden.Server.Models.User.{Reader}
use umewarden.Server.Models.Device

-- `pbkdf2::derive` and `pbkdf2::verify`: the iterations, the salt, the secret and, for `verify`, what
-- is compared
pub record Pbkdf2 : Type 0 where
  pub derive : ℕ → List ℕ → List ℕ → List ℕ
  pub verify : ℕ → List ℕ → List ℕ → List ℕ → Bool

-- `UserStampException`
pub record UserStampException : Type 0 where
  pub routes : List Text
  pub security_stamp : Text
  pub expire : ℕ

pub record StampCodec : Type 0 where
  pub to_json : UserStampException → Option Text
  pub from_json : Text → Option UserStampException

-- what the code draws when it resets a stamp: the stamp, and a token for each device
pub record Draws : Type 0 where
  pub stamp : Text
  pub refresh_token : ℕ → Text

-- `i32::cast_unsigned`
abbrev pub cast_unsigned : ℤ → ℕ
cast_unsigned (pos n) = n
cast_unsigned (negsuc n) = 2 ^ 32 - (n + 1)

-- no iterations are a panic
unfoldable pub hash_password : Pbkdf2 → List ℕ → List ℕ → ℕ → Option (List ℕ)
hash_password kdf secret salt iterations =
    if iterations == 0 then none else some (kdf.derive iterations salt secret)

unfoldable pub verify_password_hash : Pbkdf2 → List ℕ → List ℕ → List ℕ → ℕ → Option Bool
verify_password_hash kdf secret salt previous iterations =
    if iterations == 0 then none else some (kdf.verify iterations salt secret previous)

unfoldable pub check_valid_password : Pbkdf2 → User → Text → Option Bool
check_valid_password kdf u password =
    verify_password_hash kdf (utf8 password) u.salt u.password_hash
      (cast_unsigned u.password_iterations)

abbrev matches : Reader → Text → Option Text → Bool
matches reader code none = false
matches reader code (some totp_recover) = text_eq code (reader.to_lowercase totp_recover)

abbrev pub check_valid_recovery_code : Reader → User → Text → Bool
check_valid_recovery_code reader u code = matches reader code u.totp_recover

abbrev is_key : Option Text → Text → Bool
is_key none key = false
is_key (some api_key) key = text_eq api_key key

abbrev pub check_valid_api_key : User → Text → Bool
check_valid_api_key u key = is_key u.api_key key

abbrev pub or_empty : Option Text → Text
or_empty none = []
or_empty (some t) = t

unfoldable pub reset_security_stamp : Draws → ℕ → User → M User
reset_security_stamp draws now u = do
  Device.rotate_refresh_tokens_by_user draws.refresh_token now u.uuid
  pure (record u { security_stamp = draws.stamp })

module _ (codec : StampCodec) where
  -- two minutes from `now`
  unfoldable pub set_stamp_exception : ℕ → List Text → User → User
  set_stamp_exception now routes u = record u {
    stamp_exception = some (
        or_empty (
          codec.to_json
            (record { routes = routes; security_stamp = u.security_stamp; expire = now + 120 })));
  }

  abbrev pub allow : ℕ → Option (List Text) → User → User
  allow now none u = u
  allow now (some routes) u = set_stamp_exception now routes u

  abbrev pub rekey : Option Text → User → User
  rekey none u = u
  rekey (some new_key) u = record u { akey = new_key }

  module _ (kdf : Pbkdf2) where
    unfoldable pub set_password :
        Draws → ℕ → Text → Option Text → Bool → Option (List Text) → User → M User
    set_password draws now password new_key reset_stamp allow_next_route u = do
      hash ←
          require panicked
            (hash_password kdf (utf8 password) u.salt (cast_unsigned u.password_iterations))
      let changed = rekey new_key (allow now allow_next_route (record u { password_hash = hash }))
      if reset_stamp then reset_security_stamp draws now changed else pure changed

abbrev pub reset_stamp_exception : User → User
reset_stamp_exception u = record u { stamp_exception = none }

abbrev updated : Option Device → Option ℕ
updated none = none
updated (some d) = some d.updated_at

unfoldable pub last_active : User → M (Option ℕ)
last_active u = do device ← query (Device.find_latest_active_by_user u.uuid); pure (updated device)
