-- ===== src/Server/Api/Accounts.antt =====
-- server/src/api/core/accounts.rs: the account of a user. The crates, the values that are drawn and
-- the clock are arguments, as in Server.Models.User; the settings and the mailer's answer are
-- `Settings`. `u` is the user of the session. The messages to other clients are not modelled.
pub mod Change
pub mod Register
pub mod Sessions
pub mod Address
mod Tests
pub mod Removal
use umewarden.Prelude.{
  ℕ, ◌^◌, Bool, true, false, not, ◌&&◌, ◌||◌, Option, none, some, List, [], ◌∷◌, ltb, length, ◌==◌,
  if◌then◌else◌,
}
use umewarden.Prelude.Int.{ℤ, pos, negsuc, ltb_ℤ}
use umewarden.Prelude.Text.{Text, trim, utf8}
use umewarden.Server.Db.{
  User, Device, Db, kdf_low, kdf_memory_bad, kdf_memory_missing, kdf_parallelism_bad,
  kdf_parallelism_missing, hints_disabled, name_long, color_bad, no_public_key, user_missing,
  invalid_password, panicked, Result, ok, err, M, pure, raise, query, require, guard, ◌>>=◌, ◌>>◌,
}
use umewarden.Server.Models.User
use umewarden.Server.Models.User.{Reader}
use umewarden.Server.Models.User.Password.{
  Pbkdf2, StampCodec, Draws, set_password, check_valid_password,
}
use umewarden.Server.Api.ProtectedActions
use umewarden.Server.Api.ProtectedActions.{validate_password_or_otp}

pub record Settings : Type 0 where
  pub password_hints_allowed : Bool
  pub mail_enabled : Bool
  pub signups_verify : Bool
  pub email_change_allowed : Bool
  -- `is_signup_allowed` and `is_email_domain_allowed`
  pub is_signup_allowed : Text → Bool
  pub is_email_domain_allowed : Text → Bool
  -- `_enable_email_2fa` and `email_2fa_enforce_on_verified_invite`
  pub email_2fa_enabled : Bool
  pub email_2fa_enforced : Bool
  -- `CONFIG.password_iterations()`
  pub password_iterations : ℤ
  -- whether the mailer takes the message
  pub mail_sent : Bool

-- `KDFData`
pub record KdfData : Type 0 where
  pub kdf : ℤ
  pub kdf_iterations : ℤ
  pub kdf_memory : Option ℤ
  pub kdf_parallelism : Option ℤ

abbrev is_kdf : ℕ → ℤ → Bool
is_kdf n (pos m) = m == n
is_kdf n (negsuc m) = false

-- `(low..=high).contains`
abbrev is_between : ℤ → ℤ → ℤ → Bool
is_between low high n = not (ltb_ℤ n low) && not (ltb_ℤ high n)

abbrev check_memory : Option ℤ → M (Unit {0})
check_memory none = raise kdf_memory_missing
check_memory (some m) = guard (is_between (pos 15) (pos 1024) m) kdf_memory_bad

abbrev check_parallelism : Option ℤ → M (Unit {0})
check_parallelism none = raise kdf_parallelism_missing
check_parallelism (some p) = guard (is_between (pos 1) (pos 16) p) kdf_parallelism_bad

unfoldable pub set_kdf_data : User → KdfData → M User
set_kdf_data u d =
    if is_kdf 0 d.kdf && ltb_ℤ d.kdf_iterations (pos 100_000)
    then raise kdf_low
    else if is_kdf 1 d.kdf
    then (do
      guard (not (ltb_ℤ d.kdf_iterations (pos 1))) kdf_low
      check_memory d.kdf_memory
      check_parallelism d.kdf_parallelism
      pure (record u {
        client_kdf_memory = d.kdf_memory;
        client_kdf_parallelism = d.kdf_parallelism;
        client_kdf_iter = d.kdf_iterations;
        client_kdf_type = d.kdf;
      }))
    else pure (record u {
      client_kdf_memory = none;
      client_kdf_parallelism = none;
      client_kdf_iter = d.kdf_iterations;
      client_kdf_type = d.kdf;
    })

abbrev or_none : Text → Option Text
or_none [] = none
or_none (c ∷ s) = some (c ∷ s)

abbrev pub clean_password_hint : Option Text → Option Text
clean_password_hint none = none
clean_password_hint (some h) = or_none (trim h)

abbrev is_some : Option Text → Bool
is_some none = false
is_some (some _) = true

abbrev pub enforce_password_hint_setting : Settings → Option Text → M (Unit {0})
enforce_password_hint_setting settings hint =
    if is_some hint && not settings.password_hints_allowed then raise hints_disabled else pure tt

-- An error of a save is only logged. The caller goes on with the user as it was to be saved; the time
-- of the revision that the save sets is not read again before the next one.
abbrev pub or_unsaved : User → Result User × Db → Result User × Db
or_unsaved u (ok saved, db) = (ok saved, db)
or_unsaved u (err e, db) = (ok u, db)

unfoldable pub save_or_log : Reader → ℕ → User → M User
save_or_log reader now u db = or_unsaved u (User.save reader now u db)

module _ (reader : Reader) (kdf : Pbkdf2) (stamps : StampCodec) (iterations : ℤ) where
  unfoldable pub kdf_upgrade : Draws → ℕ → User → Text → M User
  kdf_upgrade draws now u pwd_hash =
      if ltb_ℤ u.password_iterations iterations
      then (do
        changed ←
            set_password stamps kdf draws now pwd_hash none false none
              (record u { password_iterations = iterations })
        save_or_log reader now changed)
      else pure u

  -- the policy that is returned is constant
  unfoldable pub verify_password : Draws → ℕ → Text → User → M (Unit {0})
  verify_password draws now master_password_hash u = do
    valid ← require panicked (check_valid_password kdf u master_password_hash)
    guard valid invalid_password
    _ ← kdf_upgrade draws now u master_password_hash
    pure tt

-- a name or a token has 50 bytes at most
abbrev pub is_long : Text → Bool
is_long name = ltb 50 (length (utf8 name))

abbrev is_color : Option Text → Bool
is_color none = true
is_color (some color) = length (utf8 color) == 7

module _ (reader : Reader) (now : ℕ) where
  -- also `put_profile`
  unfoldable pub post_profile : Text → User → M User
  post_profile name u = do
    guard (not (is_long name)) name_long
    User.save reader now (record u { name = name })

  unfoldable pub put_avatar : Option Text → User → M User
  put_avatar avatar_color u = do
    guard (is_color avatar_color) color_bad
    User.save reader now (record u { avatar_color = avatar_color })

  unfoldable pub post_keys : Text → Text → User → M User
  post_keys encrypted_private_key public_key u =
      User.save reader now
        (record u { private_key = some encrypted_private_key; public_key = some public_key })

  abbrev is_none : Option Text → Bool
  is_none none = true
  is_none (some _) = false

  -- an error of the save is a panic
  abbrev or_panic : Result User × Db → Result User × Db
  or_panic (ok u, db) = (ok u, db)
  or_panic (err e, db) = (err panicked, db)

  abbrev with_key : Text → User → M User
  with_key api_key u db = or_panic (User.save reader now (record u { api_key = some api_key }) db)

  -- `post_api_key` and `rotate_api_key`: the key and the time of the revision
  unfoldable pub update_api_key :
      ProtectedActions.Env → Text → Option Text → Option Text → Bool → User → M User
  update_api_key otp_env drawn hash otp rotate u = do
    validate_password_or_otp otp_env now hash otp u.uuid true
    if rotate || is_none u.api_key then with_key drawn u else pure u

unfoldable pub get_public_keys : ℕ → M (ℕ × Text)
get_public_keys user = do
  found ← query (User.find_by_uuid user)
  u ← require user_missing found
  public_key ← require no_public_key u.public_key
  pure (u.uuid, public_key)

abbrev kdf_of : Option User → KdfData
kdf_of none = record {
  kdf = pos 0;
  kdf_iterations = pos 600_000;
  kdf_memory = none;
  kdf_parallelism = none;
}
kdf_of (some u) = record {
  kdf = u.client_kdf_type;
  kdf_iterations = u.client_kdf_iter;
  kdf_memory = u.client_kdf_memory;
  kdf_parallelism = u.client_kdf_parallelism;
}

unfoldable pub prelogin : Reader → Text → Db → KdfData
prelogin reader mail db = kdf_of (User.find_by_mail reader mail db)
