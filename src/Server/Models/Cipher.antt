-- ===== src/Server/Models/Cipher.antt =====
-- server/src/db/models/cipher.rs: the rows of the table ciphers. What the database does with the rows
-- that refer to a cipher which `replace_into` replaces (it may refuse, and it removes archives) are
-- the fields `violates` and `cascade` of `Storage`.
pub mod Shown
pub mod Fields
pub mod Uris
pub mod Readable
pub mod Json
pub mod Stored
pub mod Sync
pub mod Tests
use mathlib.Core.Option
use umewarden.Prelude.{
  ℕ, ◌+◌, ◌-◌, ◌*◌, Bool, true, false, not, ◌&&◌, ◌||◌, Option, none, some, List, [], ◌∷◌, filter,
  find, map, length, ltb, ◌==◌, if◌then◌else◌,
}
use umewarden.Prelude.Int.{ℤ, pos, negsuc}
use umewarden.Prelude.Text.{Text}
use umewarden.Server.Db.{
  Attachment, Archive, Cipher, Folder, FolderCipher, Db, Result, ok, err, no_previous_folder, M,
  pure, raise, query, modify, execute, ◌>>=◌, ◌>>◌,
}
use umewarden.Server.Models.User.{update_uuid_revision}
use umewarden.Server.Models.Attachment
use umewarden.Server.Models.Archive
use umewarden.Server.Models.Favorite
use umewarden.Server.Models.Folder

pub record Storage : Type 0 where
  -- whether the file of an attachment is removed, or was not there
  pub remove_file : Attachment → Bool
  -- whether replacing the row meets a violation of a foreign key
  pub violates : ℕ → Db → Bool
  -- the archives that are left when the row is replaced
  pub cascade : ℕ → List Archive → List Archive

-- `Cipher::new`, with the uuid that `get_uuid` returned and the time of the call
abbrev pub new : ℕ → ℕ → ℕ → Text → Cipher
new uuid now atype name = record {
  uuid = uuid;
  created_at = now;
  updated_at = now;
  user_uuid = none;
  key = none;
  atype = atype;
  name = name;
  notes = none;
  fields = none;
  data_ = [];
  password_history = none;
  deleted_at = none;
  reprompt = none;
}

abbrev pub revise : Option ℕ → ℕ → Db → Db
revise none now db = db
revise (some user) now db = update_uuid_revision user now db

abbrev pub update_users_revision : ℕ → Cipher → M (Unit {0})
update_users_revision now c = modify (revise c.user_uuid now)

abbrev pub has_uuid : ℕ → List Cipher → Bool
has_uuid uuid [] = false
has_uuid uuid (c ∷ cs) = if c.uuid == uuid then true else has_uuid uuid cs

module _ (env : Storage) where
  unfoldable pub replace_into : Cipher → M (Unit {0})
  unfolding execute
  replace_into c = execute (λ db. record db {
    ciphers = c ∷ filter (λ x. not (x.uuid == c.uuid)) db.ciphers;
    archives = if has_uuid c.uuid db.ciphers then env.cascade c.uuid db.archives else db.archives;
  })

  unfoldable pub update_row : Cipher → M (Unit {0})
  unfolding execute
  update_row c = execute (λ db. record db {
    ciphers = map (λ (x : Cipher). if x.uuid == c.uuid then c else x) db.ciphers;
  })

  -- When replacing meets a violation, the first statement changes nothing, and the update follows.
  unfoldable pub save_row : Cipher → M (Unit {0})
  unfolding replace_into update_row execute
  save_row c db =
      if env.violates c.uuid db then (execute (λ db. db) >> update_row c) db else replace_into c db

  -- the saved cipher has the time of the call
  unfoldable pub save : ℕ → Cipher → M Cipher
  unfolding save_row
  save now c = do
    update_users_revision now c
    save_row (record c { updated_at = now })
    pure (record c { updated_at = now })

  unfoldable pub delete_row : ℕ → M (Unit {0})
  unfolding execute
  delete_row uuid = execute (λ db. record db {
    ciphers = filter (λ x. not (x.uuid == uuid)) db.ciphers;
    archives = env.cascade uuid db.archives;
  })

  unfoldable pub delete : ℕ → Cipher → M (Unit {0})
  unfolding delete_row Folder.delete_all_by_cipher Attachment.delete_all_by_cipher
      Favorite.delete_all_by_cipher
  delete now c = do
    update_users_revision now c
    Folder.delete_all_by_cipher c.uuid
    Attachment.delete_all_by_cipher env.remove_file c.uuid
    Favorite.delete_all_by_cipher c.uuid
    delete_row c.uuid

abbrev pub is_user : ℕ → Option ℕ → Bool
is_user user none = false
is_user user (some u) = u == user

abbrev pub is_owned_by_user : ℕ → Cipher → Bool
is_owned_by_user user c = is_user user c.user_uuid

abbrev pub get_access_restrictions : ℕ → Cipher → Option (Bool × Bool × Bool)
get_access_restrictions user c = if is_owned_by_user user c then some (false, false, true) else none

abbrev may_write : Option (Bool × Bool × Bool) → Bool
may_write none = false
may_write (some (read_only, hide_passwords, manage)) = not read_only || manage

abbrev pub is_write_accessible_to_user : ℕ → Cipher → Bool
is_write_accessible_to_user user c = may_write (get_access_restrictions user c)

abbrev may_read : Option (Bool × Bool × Bool) → Bool
may_read none = false
may_read (some _) = true

abbrev pub is_accessible_to_user : ℕ → Cipher → Bool
is_accessible_to_user user c = may_read (get_access_restrictions user c)

unfoldable pub find_by_uuid : ℕ → Db → Option Cipher
find_by_uuid uuid db = find (λ c. c.uuid == uuid) db.ciphers

abbrev pub contains_id : List ℕ → ℕ → Bool
contains_id [] id = false
contains_id (x ∷ xs) id = if x == id then true else contains_id xs id

abbrev pub is_listed : List ℕ → ℕ → Bool
is_listed [] id = true
is_listed (x ∷ xs) id = contains_id (x ∷ xs) id

unfoldable pub find_by_user : ℕ → List ℕ → Db → List Cipher
find_by_user user ids db = filter (λ c. is_owned_by_user user c && is_listed ids c.uuid) db.ciphers

unfoldable pub find_owned_by_user : ℕ → Db → List Cipher
find_owned_by_user user db = filter (is_owned_by_user user) db.ciphers

unfoldable pub count_owned_by_user : ℕ → Db → ℕ
unfolding find_owned_by_user
count_owned_by_user user db = length (find_owned_by_user user db)

abbrev is_before : ℕ → Option ℕ → Bool
is_before dt none = false
is_before dt (some t) = ltb t dt

unfoldable pub find_deleted_before : ℕ → Db → List Cipher
find_deleted_before dt db = filter (λ c. is_before dt c.deleted_at) db.ciphers

module _ (env : Storage) where
  unfoldable pub delete_each : ℕ → List Cipher → M (Unit {0})
  unfolding delete
  delete_each now [] = pure tt
  delete_each now (c ∷ cs) = do delete env now c; delete_each now cs

  unfoldable pub delete_all_by_user : ℕ → ℕ → M (Unit {0})
  unfolding delete_each find_owned_by_user
  delete_all_by_user now user = do found ← query (find_owned_by_user user); delete_each now found

  -- the loop of the purge: an error of one deletion is dropped
  unfoldable pub purge_each : ℕ → List Cipher → Db → Db
  unfolding delete
  purge_each now [] db = db
  purge_each now (c ∷ cs) db = purge_each now cs (delete env now c db).1

  -- `now - days`
  abbrev pub days_before : ℕ → ℤ → ℕ
  days_before now (pos d) = now - d * 86400
  days_before now (negsuc d) = now + (d + 1) * 86400

  unfoldable pub purge_trash : Option ℤ → ℕ → Db → Db
  unfolding purge_each find_deleted_before
  purge_trash none now db = db
  purge_trash (some days) now db = purge_each now (find_deleted_before (days_before now days) db) db

-- the folder of the user that a cipher is in, by the join
abbrev pub is_user_folder : ℕ → ℕ → List Folder → Bool
is_user_folder user id [] = false
is_user_folder user id (f ∷ fs) =
    if f.uuid == id && f.user_uuid == user then true else is_user_folder user id fs

unfoldable pub get_folder_uuid : ℕ → ℕ → Db → Option ℕ
get_folder_uuid user cipher db =
    Option.map (λ (r : FolderCipher). r.folder_uuid)
      (find (λ r. r.cipher_uuid == cipher && is_user_folder user r.folder_uuid db.folders)
        db.folders_ciphers)

-- deletes the row of the previous folder, when there is one
abbrev pub delete_found : Option FolderCipher → M (Unit {0}) → M (Unit {0})
delete_found none otherwise = otherwise
delete_found (some r) otherwise = Folder.delete_cipher r

-- the match on the old and the new folder
unfoldable pub change_folder : ℕ → Option ℕ → Option ℕ → M (Unit {0})
unfolding Folder.delete_cipher Folder.save_cipher Folder.find_by_folder_and_cipher
change_folder cipher none none = pure tt
change_folder cipher none (some new_folder) =
    Folder.save_cipher (record { cipher_uuid = cipher; folder_uuid = new_folder })
change_folder cipher (some old_folder) none = do
  row ← query (Folder.find_by_folder_and_cipher old_folder cipher)
  delete_found row (raise no_previous_folder)
change_folder cipher (some old_folder) (some new_folder) =
    if old_folder == new_folder then pure tt else (do
      row ← query (Folder.find_by_folder_and_cipher old_folder cipher)
      delete_found row (pure tt)
      Folder.save_cipher (record { cipher_uuid = cipher; folder_uuid = new_folder }))

unfoldable pub move_to_folder : ℕ → Option ℕ → ℕ → ℕ → M (Unit {0})
unfolding change_folder get_folder_uuid update_uuid_revision
move_to_folder now folder user cipher = do
  modify (update_uuid_revision user now)
  old ← query (get_folder_uuid user cipher)
  change_folder cipher old folder

abbrev pub set_favorite : Option Bool → ℕ → ℕ → ℕ → M (Unit {0})
set_favorite none now user cipher = pure tt
set_favorite (some status) now user cipher = Favorite.set_favorite status now cipher user
