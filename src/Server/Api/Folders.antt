-- ===== src/Server/Api/Folders.antt =====
-- server/src/api/core/folders.rs. The messages to the other clients are not modelled.
pub mod Rename
mod Tests
use umewarden.Prelude.{ℕ, Option, none, some, List}
use umewarden.Prelude.Text.{Text}
use umewarden.Server.Db.{Folder, Db, invalid_folder, M, pure, query, require, ◌>>=◌}
use umewarden.Server.Models.Folder

unfoldable pub get_folders : ℕ → Db → List Folder
get_folders user db = Folder.find_by_user user db

unfoldable pub get_folder : ℕ → ℕ → M Folder
get_folder id user = do
  found ← query (Folder.find_by_uuid_and_user id user)
  require invalid_folder found

unfoldable pub post_folders : ℕ → ℕ → ℕ → Text → M Folder
post_folders fresh_id now user name = Folder.save now (Folder.new fresh_id now user name)

-- also `post_folder`
unfoldable pub put_folder : ℕ → ℕ → Text → ℕ → M Folder
put_folder now id name user = do
  found ← query (Folder.find_by_uuid_and_user id user)
  folder ← require invalid_folder found
  Folder.save now (record folder { name = name })

-- also `delete_folder_post`
unfoldable pub delete_folder : ℕ → ℕ → ℕ → M (Unit {0})
delete_folder now id user = do
  found ← query (Folder.find_by_uuid_and_user id user)
  folder ← require invalid_folder found
  Folder.delete now folder
