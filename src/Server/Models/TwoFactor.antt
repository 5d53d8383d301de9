-- ===== src/Server/Models/TwoFactor.antt =====
-- server/src/db/models/two_factor.rs: the rows of the table twofactor, whose keys are the uuid and,
-- by the migration that creates it, the pair of user and type.
pub mod Keys
pub mod Laws
pub mod Map
mod Tests
use umewarden.Prelude.{
  ℕ, Bool, true, false, not, ◌&&◌, ◌||◌, Option, List, [], ◌∷◌, filter, find, ltb, ◌==◌,
}
use umewarden.Prelude.Int.{ℤ, pos}
use umewarden.Prelude.Text.{Text}
use umewarden.Server.Db.{TwoFactor, Db, M, execute, query}

-- `enum TwoFactorType`
pub data TwoFactorType : Type 0 where
  authenticator email duo yubi_key u2f remember organization_duo webauthn recovery_code :
      TwoFactorType
  u2f_register_challenge u2f_login_challenge email_verification_challenge : TwoFactorType
  webauthn_register_challenge webauthn_login_challenge protected_actions : TwoFactorType

abbrev pub as_i32 : TwoFactorType → ℕ
as_i32 authenticator = 0
as_i32 email = 1
as_i32 duo = 2
as_i32 yubi_key = 3
as_i32 u2f = 4
as_i32 remember = 5
as_i32 organization_duo = 6
as_i32 webauthn = 7
as_i32 recovery_code = 8
as_i32 u2f_register_challenge = 1000
as_i32 u2f_login_challenge = 1001
as_i32 email_verification_challenge = 1002
as_i32 webauthn_register_challenge = 1003
as_i32 webauthn_login_challenge = 1004
as_i32 protected_actions = 2000

abbrev all_types : List TwoFactorType
all_types =
    authenticator ∷ email ∷ duo ∷ yubi_key ∷ u2f ∷ remember ∷ organization_duo ∷ webauthn
    ∷ recovery_code ∷ u2f_register_challenge ∷ u2f_login_challenge ∷ email_verification_challenge
    ∷ webauthn_register_challenge ∷ webauthn_login_challenge ∷ protected_actions ∷ []

-- `from_i32` of num_derive: the type with the number
unfoldable pub from_i32 : ℕ → Option TwoFactorType
from_i32 n = find (λ t. as_i32 t == n) all_types

-- `TwoFactor::new`, with the uuid that `get_uuid` returned
abbrev pub new : ℕ → ℕ → TwoFactorType → Text → TwoFactor
new uuid user_uuid atype data_ = record {
  uuid = uuid;
  user_uuid = user_uuid;
  atype = as_i32 atype;
  enabled = true;
  data_ = data_;
  last_used = pos 0;
}

-- `replace_into` deletes the rows that agree on a key
abbrev pub conflicts : TwoFactor → TwoFactor → Bool
conflicts r x = x.uuid == r.uuid || (x.user_uuid == r.user_uuid && x.atype == r.atype)

unfoldable pub save : TwoFactor → M (Unit {0})
unfolding execute
save r =
    execute (λ db. record db { twofactor = r ∷ filter (λ x. not (conflicts r x)) db.twofactor })

unfoldable pub delete : TwoFactor → M (Unit {0})
unfolding execute
delete r =
    execute (λ db. record db { twofactor = filter (λ x. not (x.uuid == r.uuid)) db.twofactor })

unfoldable pub find_by_user : ℕ → Db → List TwoFactor
find_by_user user db = filter (λ x. x.user_uuid == user && ltb x.atype 1000) db.twofactor

unfoldable pub find_by_user_and_type : ℕ → ℕ → Db → Option TwoFactor
find_by_user_and_type user atype db =
    find (λ x. x.user_uuid == user && x.atype == atype) db.twofactor

unfoldable pub delete_all_by_user : ℕ → M (Unit {0})
unfolding execute
delete_all_by_user user =
    execute (λ db. record db { twofactor = filter (λ x. not (x.user_uuid == user)) db.twofactor })
