-- ===== src/Server/Models/TwoFactorIncomplete/Tests.antt =====
-- Runs of incomplete logins, and the theorem at concrete inputs.
use umewarden.Prelude.{ℕ, ◌≡◌, refl, true, some, [], ◌∷◌}
use umewarden.Prelude.Int.{pos}
use umewarden.Prelude.Text.{codes}
use umewarden.Server.Db.{empty, TwoFactorIncomplete, Db, execute}
use umewarden.Server.Models.TwoFactorIncomplete.{
  Config, find_by_user_and_device, insert_missing, mark_incomplete,
}
use umewarden.Server.Models.TwoFactorIncomplete.Timer.{
  attempted, completed, after_calls, calls-IsWaiting,
}

abbrev config : Config
config = record { time_limit = pos 3; mail_enabled = true }

abbrev attempt : ℕ → ℕ → TwoFactorIncomplete
attempt user now = record {
  user_uuid = user;
  device_uuid = 20;
  device_name = codes "laptop";
  device_type = pos 9;
  login_time = now;
  ip_address = codes "10.0.0.1";
}

abbrev waiting : Db
waiting = record empty { twofactor_incomplete = attempt 1 1000 ∷ [] }

first : (mark_incomplete config (attempt 1 1000) empty).1 ≡ waiting
unfolding mark_incomplete insert_missing find_by_user_and_device execute
first = refl

calls-IsWaiting_example :
    find_by_user_and_device 1 20 (
      after_calls config
        (attempted (attempt 1 1100) ∷ completed 2 20 ∷ attempted (attempt 1 1200) ∷ [])
        waiting)
    ≡ some (attempt 1 1000)
unfolding find_by_user_and_device
calls-IsWaiting_example =
    calls-IsWaiting config 1 20 (attempt 1 1000)
      (attempted (attempt 1 1100) ∷ completed 2 20 ∷ attempted (attempt 1 1200) ∷ []) waiting
      (refl, tt) refl
