-- ===== src/Server/Api/Folders/Tests.antt =====
-- Runs of the folders' handlers, and the theorems at concrete inputs.
use umewarden.Prelude.{◌≡◌, refl, false, none, some, List, [], ◌∷◌}
use umewarden.Prelude.Text.{codes}
use umewarden.Server.Models.User.Samples.{someone}
use umewarden.Server.Db.{empty, Folder, FolderCipher, Db, ok}
use umewarden.Server.Models.Folder
use umewarden.Server.Models.Folder.{refers_to}
use umewarden.Server.Api.Folders.{put_folder, delete_folder}
use umewarden.Server.Api.Folders.Rename.{put_folder-renames, delete_folder_gone}

abbrev work : Folder
work = Folder.new 3 900 1 (codes "work")

abbrev assigned : List FolderCipher
assigned = record { cipher_uuid = 50; folder_uuid = 3 } ∷ []

abbrev stored : Db
stored = record empty { users = someone ∷ []; folders = work ∷ []; folders_ciphers = assigned }

put_folder-renames_example :
    let renamed : Folder = record work { name = codes "job"; updated_at = 1000 } in
    (db' : Db) × (put_folder 1000 3 (codes "job") 1 stored ≡ (ok renamed, db'))
    × (Folder.find_by_uuid_and_user 3 1 db' ≡ some renamed)
    × (db'.folders_ciphers ≡ assigned)
unfolding Folder.find_by_uuid_and_user
put_folder-renames_example = put_folder-renames 1000 3 1 (codes "job") stored {row = work} refl refl

delete_folder_gone_example :
    (db' : Db) × (delete_folder 1000 3 1 stored ≡ (ok tt, db'))
    × (Folder.find_by_uuid_and_user 3 1 db' ≡ none)
    × (refers_to 3 db'.folders_ciphers ≡ false)
unfolding Folder.find_by_uuid_and_user
delete_folder_gone_example = delete_folder_gone 1000 3 1 stored {row = work} refl refl
