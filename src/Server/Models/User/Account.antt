-- ===== src/Server/Models/User/Account.antt =====
-- server/src/db/models/user.rs: the deletion of a user with all that they own.
use umewarden.Prelude.{ℕ, not, filter}
use umewarden.Server.Db.{User, M, execute, ◌>>=◌, ◌>>◌}
use umewarden.Server.Models.User.{Reader, take_invitation, is_uuid}
use umewarden.Server.Models.Device
use umewarden.Server.Models.TwoFactor
use umewarden.Server.Models.TwoFactorIncomplete
use umewarden.Server.Models.Favorite
use umewarden.Server.Models.Folder
use umewarden.Server.Models.Cipher
use umewarden.Server.Models.Cipher.{Storage}

unfoldable pub delete_row : ℕ → M (Unit {0})
unfolding execute
delete_row uuid = execute (λ db. record db { users = filter (λ x. not (is_uuid uuid x)) db.users })

unfoldable pub delete : Reader → Storage → ℕ → User → M (Unit {0})
delete reader env now u = do
  Cipher.delete_all_by_user env now u.uuid
  Favorite.delete_all_by_user u.uuid
  Folder.delete_all_by_user now u.uuid
  Device.delete_all_by_user u.uuid
  TwoFactor.delete_all_by_user u.uuid
  TwoFactorIncomplete.delete_all_by_user u.uuid
  _ ← take_invitation reader u.email
  delete_row u.uuid
