-- ===== src/Server/Models/TwoFactor/Tests.antt =====
-- The theorem on the table of second factors at a concrete input.
use umewarden.Prelude.{◌≡◌, refl, some, [], ◌∷◌}
use umewarden.Prelude.Text.{codes}
use umewarden.Server.Db.{TwoFactor, Db, empty}
use umewarden.Server.Models.TwoFactor.{
  new, authenticator, email, save, delete, find_by_user_and_type, delete_all_by_user,
}
use umewarden.Server.Models.TwoFactor.Map.{statements-find}

abbrev app : TwoFactor
app = new 5 1 authenticator (codes "secret")

abbrev mail : TwoFactor
mail = new 6 1 email (codes "a@b.c")

abbrev table : Db
table = record empty { twofactor = app ∷ mail ∷ new 7 2 email (codes "d@e.f") ∷ [] }

-- under the first user's address, when a new address is saved, the authenticator is deleted, and the
-- other user's factors are
statements-find_example :
    (find_by_user_and_type 1 1 (save (new 8 1 email (codes "x@y.z")) table).1
      ≡ some (new 8 1 email (codes "x@y.z")))
    × (find_by_user_and_type 1 1 (delete app table).1 ≡ some mail)
    × (find_by_user_and_type 1 1 (delete_all_by_user 2 table).1 ≡ some mail)
unfolding find_by_user_and_type
statements-find_example =
    statements-find 1 1 2 (new 8 1 email (codes "x@y.z")) app table refl
      ((refl, (refl, tt)), ((refl, tt), (tt, tt))) (refl, (refl, (refl, tt))) refl
