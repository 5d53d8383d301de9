-- ===== src/Server/Models/Device/Tests.antt =====
-- The theorem on saved devices at a concrete input.
use umewarden.Prelude.{◌≡◌, refl, true, false, [], ◌∷◌}
use umewarden.Prelude.Int.{pos}
use umewarden.Prelude.Text.{codes}
use umewarden.Server.Db.{Device, Db, empty, ok}
use umewarden.Server.Models.Device.{new, saved, save}
use umewarden.Server.Models.Device.Tries.{save_tries}

abbrev phone : Device
phone = new 0 60 (codes "token") 20 1 (codes "phone") (pos 0)

-- two statements fail
abbrev busy : Db
busy = record empty { faults = true ∷ true ∷ false ∷ [] }

save_tries_example :
    save 500 true phone busy
    ≡ (ok (saved 500 true phone), record empty { devices = saved 500 true phone ∷ [] })
save_tries_example = save_tries 500 true phone busy 2 [] refl
