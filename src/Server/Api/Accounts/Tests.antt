-- ===== src/Server/Api/Accounts/Tests.antt =====
-- A run of the change of a password, and its theorem at a concrete input.
use umewarden.Prelude.{
  ℕ, zero, suc, ◌≡◌, refl, ◌+◌, ◌&&◌, leb, map, if◌then◌else◌, Bool, true, false, Option, some,
  none, List, [], ◌∷◌,
}
use umewarden.Prelude.Int.{pos}
use umewarden.Prelude.Text.{Text, codes, text_eq_refl, utf8}
use umewarden.Server.Db.{User, Result, Db, ok, err}
use umewarden.Server.Ensures.{Ensures}
use umewarden.Server.Models.Device
use umewarden.Server.Models.User
use umewarden.Server.Models.User.{Reader, is_valid_email}
use umewarden.Server.Models.User.Samples.{lenient}
use umewarden.Server.Models.User.Password.{
  UserStampException, StampCodec, check_valid_password, verify_password_hash, set_password,
  hash_password, reset_security_stamp, set_stamp_exception,
}
use umewarden.Server.Models.User.Renew.{IsPbkdf2}
use umewarden.Server.Api.Accounts.{Settings}
use umewarden.Server.Api.Accounts.Change.{
  ChangePassData, post_password, ChangeEmailData, post_email,
}
use umewarden.Server.Api.Accounts.Address.{IsKeyed, IsMoved, post_email-unfound}
use umewarden.Server.Api.Accounts.Sessions.{IsStampCodec, HasEnded, post_password-HasEnded}
use umewarden.Server.Api.Identity.Samples.{plain_kdf, drawn, owner, stored}

-- texts in a row, each with its end marked by a zero
abbrev shifted : Text → Text → Text
shifted [] rest = zero ∷ rest
shifted (c ∷ s) rest = suc c ∷ shifted s rest

abbrev push : ℕ → List Text → List Text
push c [] = (c ∷ []) ∷ []
push c (t ∷ ts) = (c ∷ t) ∷ ts

abbrev texts : Text → List Text
texts [] = []
texts (zero ∷ s) = [] ∷ texts s
texts (suc c ∷ s) = push c (texts s)

abbrev joined : List Text → Text
joined [] = []
joined (t ∷ ts) = shifted t (joined ts)

texts-shifted : (t rest : Text) → texts (shifted t rest) ≡ t ∷ texts rest
texts-shifted [] rest = refl
texts-shifted (c ∷ s) rest = rw (texts-shifted s rest) refl

texts-joined : (ts : List Text) → texts (joined ts) ≡ ts
texts-joined [] = refl
texts-joined (t ∷ ts) = rw (texts-shifted t (joined ts)) (rw (texts-joined ts) refl)

abbrev exception_of : ℕ → List Text → Option UserStampException
exception_of expire [] = none
exception_of expire (stamp ∷ routes) =
    some (record { routes = routes; security_stamp = stamp; expire = expire })

abbrev read : Text → Option UserStampException
read [] = none
read (expire ∷ s) = exception_of expire (texts s)

abbrev stamps : StampCodec
stamps = record {
  to_json = λ e. some (e.expire ∷ joined (e.security_stamp ∷ e.routes));
  from_json = read;
}

stamps-IsStampCodec : IsStampCodec stamps
stamps-IsStampCodec = record {
  from_json-to_json = λ e. rw (texts-joined (e.security_stamp ∷ e.routes)) refl;
}

plain_kdf-IsPbkdf2 : IsPbkdf2 plain_kdf
plain_kdf-IsPbkdf2 = record { verify-derive = λ n salt secret. text_eq_refl secret }

abbrev settings : Settings
settings = record {
  password_hints_allowed = false;
  mail_enabled = false;
  signups_verify = false;
  email_change_allowed = true;
  is_signup_allowed = λ t. true;
  is_email_domain_allowed = λ t. true;
  email_2fa_enabled = false;
  email_2fa_enforced = false;
  password_iterations = pos 1;
  mail_sent = false;
}

abbrev asked : ChangePassData
asked = record {
  master_password_hash = codes "pw";
  new_master_password_hash = codes "new";
  master_password_hint = none;
  key = codes "key";
}

abbrev is_ok : {A : Type 0} → Result A × Db → Bool
is_ok (ok a, db) = true
is_ok (err e, db) = false

changes :
    is_ok (post_password settings lenient plain_kdf stamps drawn 500 asked owner stored) ≡ true
unfolding post_password check_valid_password verify_password_hash set_password hash_password
    reset_security_stamp Device.rotate_refresh_tokens_by_user Device.rotate_each Device.find_by_user
    set_stamp_exception Device.save User.save is_valid_email utf8
changes = refl

post_password-HasEnded_example :
    Ensures
      (λ db. Unit {0})
      (post_password settings lenient plain_kdf stamps drawn 500 asked owner)
      (λ v db.
        HasEnded settings lenient plain_kdf stamps drawn 500
          (codes "old token")
          (codes "new")
          owner
          v
          db)
post_password-HasEnded_example =
    post_password-HasEnded settings lenient plain_kdf stamps drawn 500 plain_kdf-IsPbkdf2
      stamps-IsStampCodec (codes "old token") (λ i. refl) asked owner

-- the lower case of ASCII
abbrev ascii : Reader
ascii = record lenient { to_lowercase = map (λ c. if leb 65 c && leb c 90 then c + 32 else c) }

abbrev moving : User
moving = record owner { email_new = some (codes "Ann@b.c") }

abbrev move : ChangeEmailData
move = record {
  master_password_hash = codes "pw";
  new_email = codes "Ann@b.c";
  key = codes "key";
  new_master_password_hash = codes "new";
  token = [];
}

moves : is_ok (post_email settings ascii plain_kdf stamps drawn 500 move moving stored) ≡ true
unfolding post_email check_valid_password verify_password_hash set_password hash_password
    reset_security_stamp Device.rotate_refresh_tokens_by_user Device.rotate_each Device.find_by_user
    Device.save User.save User.find_by_mail is_valid_email utf8
moves = refl

post_email-unfound_example :
    Ensures
      (λ db. IsKeyed db.users)
      (post_email settings ascii plain_kdf stamps drawn 500 move moving)
      (λ _ db.
        IsMoved settings ascii plain_kdf stamps drawn 500 moving
          (codes "Ann@b.c")
          (codes "Ann@b.c")
          db)
post_email-unfound_example =
    post_email-unfound settings ascii plain_kdf stamps drawn 500 move moving (codes "Ann@b.c") refl

-- the database of that run fulfils the condition
stored-IsKeyed : IsKeyed stored.users
stored-IsKeyed = (tt, tt)
