-- ===== src/Server/Models/TwoFactorIncomplete.antt =====
-- server/src/db/models/two_factor_incomplete.rs: logins that wait for their second factor, by user and
-- device. The configuration is the record `Config`.
pub mod Timer
mod Tests
use umewarden.Prelude.{
  ℕ, Bool, true, false, not, ◌&&◌, Option, none, some, List, [], ◌∷◌, filter, find, ltb, ◌==◌,
  if◌then◌else◌,
}
use umewarden.Prelude.Int.{ℤ, pos, ltb_ℤ}
use umewarden.Prelude.Text.{Text}
use umewarden.Server.Db.{TwoFactorIncomplete, Db, Result, ok, M, execute, query, pure, ◌>>=◌}

pub record Config : Type 0 where
  -- `incomplete_2fa_time_limit()`, in minutes, and `mail_enabled()`
  pub time_limit : ℤ
  pub mail_enabled : Bool

-- not `incomplete_2fa_time_limit() <= 0 || !mail_enabled()`
abbrev pub is_enabled : Config → Bool
is_enabled config = ltb_ℤ (pos 0) config.time_limit && config.mail_enabled

abbrev pub is_pair : ℕ → ℕ → TwoFactorIncomplete → Bool
is_pair user device x = x.user_uuid == user && x.device_uuid == device

unfoldable pub find_by_user_and_device : ℕ → ℕ → Db → Option TwoFactorIncomplete
find_by_user_and_device user device db = find (is_pair user device) db.twofactor_incomplete

unfoldable pub find_logins_before : ℕ → Db → List TwoFactorIncomplete
find_logins_before dt db = filter (λ x. ltb x.login_time dt) db.twofactor_incomplete

-- `insert_into`, behind the query that found no row of the pair
unfoldable pub insert_missing : TwoFactorIncomplete → Option TwoFactorIncomplete → M (Unit {0})
unfolding execute
insert_missing row (some _) = pure tt
insert_missing row none =
    execute (λ db. record db { twofactor_incomplete = row ∷ db.twofactor_incomplete })

-- the arguments of the call and the time of it are the row
unfoldable pub mark_incomplete : Config → TwoFactorIncomplete → M (Unit {0})
unfolding insert_missing
mark_incomplete config row = if not (is_enabled config) then pure tt else (do
  existing ← query (find_by_user_and_device row.user_uuid row.device_uuid)
  insert_missing row existing)

unfoldable pub delete_by_user_and_device : ℕ → ℕ → M (Unit {0})
unfolding execute
delete_by_user_and_device user device = execute (λ db. record db {
  twofactor_incomplete = filter (λ x. not (is_pair user device x)) db.twofactor_incomplete;
})

unfoldable pub mark_complete : Config → ℕ → ℕ → M (Unit {0})
mark_complete config user device =
    if not (is_enabled config) then pure tt else delete_by_user_and_device user device

unfoldable pub delete : TwoFactorIncomplete → M (Unit {0})
delete row = delete_by_user_and_device row.user_uuid row.device_uuid

unfoldable pub delete_all_by_user : ℕ → M (Unit {0})
unfolding execute
delete_all_by_user user = execute (λ db. record db {
  twofactor_incomplete = filter (λ x. not (x.user_uuid == user)) db.twofactor_incomplete;
})
