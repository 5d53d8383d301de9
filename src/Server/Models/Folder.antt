-- ===== src/Server/Models/Folder.antt =====
-- server/src/db/models/folder.rs. A row of folders_ciphers refers to the row of its folder, which
-- therefore cannot be replaced; the reference of a folder to its user is not modelled.
use umewarden.Prelude.{
  ℕ, Bool, true, false, not, ◌&&◌, Option, List, [], ◌∷◌, filter, find, map, if◌then◌else◌, ◌==◌,
}
use umewarden.Prelude.Text.{Text}
use umewarden.Server.Db.{Folder, FolderCipher, Db, M, execute, pure, ◌>>◌}
use umewarden.Server.Models.User.{update_uuid_revision}

-- `Folder::new`, with the uuid that `get_uuid` returned and the time of the call
abbrev pub new : ℕ → ℕ → ℕ → Text → Folder
new uuid now user name = record {
  uuid = uuid;
  created_at = now;
  updated_at = now;
  user_uuid = user;
  name = name;
}

abbrev pub refers_to : ℕ → List FolderCipher → Bool
refers_to folder [] = false
refers_to folder (x ∷ xs) = if x.folder_uuid == folder then true else refers_to folder xs

-- `replace_into` that meets no violation of a foreign key
unfoldable pub replace_into : Folder → M (Unit {0})
unfolding execute
replace_into f =
    execute (λ db. record db { folders = f ∷ filter (λ x. not (x.uuid == f.uuid)) db.folders })

unfoldable pub update_row : Folder → M (Unit {0})
unfolding execute
update_row f = execute (λ db. record db {
  folders = map (λ (x : Folder). if x.uuid == f.uuid then f else x) db.folders;
})

-- When the row is referred to, the first statement changes nothing: it fails, or it meets the
-- violation, and the update follows.
unfoldable pub save_row : Folder → M (Unit {0})
unfolding replace_into update_row execute
save_row f db =
    if refers_to f.uuid db.folders_ciphers
    then (execute (λ db. db) >> update_row f) db
    else replace_into f db

-- the saved folder has the time of the call
unfoldable pub save : ℕ → Folder → M Folder
unfolding save_row update_uuid_revision
save now folder db =
    (do save_row (record folder { updated_at = now }); pure (record folder { updated_at = now }))
      (update_uuid_revision folder.user_uuid now db)

unfoldable pub delete_all_by_folder : ℕ → M (Unit {0})
unfolding execute
delete_all_by_folder folder = execute (λ db. record db {
  folders_ciphers = filter (λ x. not (x.folder_uuid == folder)) db.folders_ciphers;
})

unfoldable pub delete_all_by_cipher : ℕ → M (Unit {0})
unfolding execute
delete_all_by_cipher cipher = execute (λ db. record db {
  folders_ciphers = filter (λ x. not (x.cipher_uuid == cipher)) db.folders_ciphers;
})

unfoldable pub delete_row : ℕ → M (Unit {0})
unfolding execute
delete_row uuid =
    execute (λ db. record db { folders = filter (λ x. not (x.uuid == uuid)) db.folders })

unfoldable pub delete : ℕ → Folder → M (Unit {0})
unfolding delete_all_by_folder delete_row update_uuid_revision
delete now folder db =
    (do delete_all_by_folder folder.uuid; delete_row folder.uuid)
      (update_uuid_revision folder.user_uuid now db)

unfoldable pub find_by_user : ℕ → Db → List Folder
find_by_user user db = filter (λ x. x.user_uuid == user) db.folders

unfoldable pub delete_each : ℕ → List Folder → M (Unit {0})
unfolding delete
delete_each now [] = pure tt
delete_each now (f ∷ fs) = do delete now f; delete_each now fs

unfoldable pub delete_all_by_user : ℕ → ℕ → M (Unit {0})
unfolding delete_each find_by_user
delete_all_by_user now user db = delete_each now (find_by_user user db) db

unfoldable pub find_by_uuid_and_user : ℕ → ℕ → Db → Option Folder
find_by_uuid_and_user uuid user db = find (λ x. x.uuid == uuid && x.user_uuid == user) db.folders

abbrev pub is_pair : ℕ → ℕ → FolderCipher → Bool
is_pair folder cipher x = x.folder_uuid == folder && x.cipher_uuid == cipher

-- `FolderCipher::save`
unfoldable pub save_cipher : FolderCipher → M (Unit {0})
unfolding execute
save_cipher r = execute (λ db. record db {
  folders_ciphers =
      r ∷ filter (λ x. not (is_pair r.folder_uuid r.cipher_uuid x)) db.folders_ciphers;
})

-- `FolderCipher::delete`
unfoldable pub delete_cipher : FolderCipher → M (Unit {0})
unfolding execute
delete_cipher r = execute (λ db. record db {
  folders_ciphers = filter (λ x. not (is_pair r.folder_uuid r.cipher_uuid x)) db.folders_ciphers;
})

unfoldable pub find_by_folder_and_cipher : ℕ → ℕ → Db → Option FolderCipher
find_by_folder_and_cipher folder cipher db = find (is_pair folder cipher) db.folders_ciphers

unfoldable pub find_by_folder : ℕ → Db → List FolderCipher
find_by_folder folder db = filter (λ x. x.folder_uuid == folder) db.folders_ciphers
