-- ===== src/Server/Api/Folders/Rename.antt =====
-- Renaming a folder, whether or not ciphers are assigned to it.
use umewarden.Prelude.{
  ℕ, ◌≡◌, refl, ◌∙◌, Bool-cases, false, ◌&&◌, none, some, inl, inr, List, [], ◌∷◌, find,
  find-eq-some, filter, map, not, arith, ◌==◌, if◌then◌else◌,
}
use umewarden.Prelude.Text.{Text}
use umewarden.Server.Db.{Folder, FolderCipher, Db, ok, continue, execute}
use umewarden.Server.Models.User.{again, retry, update_revision_impl, update_uuid_revision}
use umewarden.Server.Models.Folder
use umewarden.Server.Models.Folder.{refers_to, replace_into, update_row, save_row}
use umewarden.Server.Api.Folders.{put_folder, delete_folder}

-- the tables that the revision of a user does not touch
pub record IsQuiet (db later : Db) : Type 0 where
  pub no_fault : later.faults ≡ []
  pub same_folders : later.folders ≡ db.folders
  pub same_ciphers : later.folders_ciphers ≡ db.folders_ciphers

pub revision-IsQuiet :
    (user now : ℕ) (db : Db) → db.faults ≡ [] → IsQuiet db (update_uuid_revision user now db)
unfolding update_uuid_revision update_revision_impl retry again execute
revision-IsQuiet user now db sound =
    rw sound (record { no_fault = refl; same_folders = refl; same_ciphers = refl })

find-map :
    (id user : ℕ) (f : Folder) (xs : List Folder) {row : Folder}
    → f.uuid ≡ id
    → f.user_uuid ≡ user
    → find (λ x. x.uuid == id && x.user_uuid == user) xs ≡ some row
    → find
        (λ x. x.uuid == id && x.user_uuid == user)
        (map (λ x. if x.uuid == f.uuid then f else x) xs)
      ≡ some f
find-map id user f [] u v h = absurd (ground arith)
find-map id user f (x ∷ xs) {row} u v h = elim (Bool-cases (x.uuid == id)) [
  | inl e ↦ ground arith
  | inr e ↦ ground (arith, find-map id user f xs {row = row} u v)
]

save_row_lem :
    (id user : ℕ) (f : Folder) (db : Db) {row : Folder}
    → db.faults ≡ []
    → f.uuid ≡ id
    → f.user_uuid ≡ user
    → find (λ x. x.uuid == id && x.user_uuid == user) db.folders ≡ some row
    → ((save_row f db).0 ≡ ok tt)
      × (find (λ x. x.uuid == id && x.user_uuid == user) (save_row f db).1.folders ≡ some f)
      × ((save_row f db).1.folders_ciphers ≡ db.folders_ciphers)
unfolding save_row replace_into update_row execute
save_row_lem id user f db {row} sound u v h =
    elim (Bool-cases (refers_to f.uuid db.folders_ciphers)) [
      | inl e ↦ rw (e, sound) (refl, find-map id user f db.folders {row = row} u v h, refl)
      | inr e ↦ rw (e, sound) (refl, ground arith, refl)
    ]

-- With no faults, a user who renames a folder of theirs gets it back with the name and the time of
-- the call, the same row is found afterwards, and every assignment of a cipher to a folder is kept.
pub put_folder-renames :
    (now id user : ℕ) (name : Text) (db : Db) {row : Folder}
    → db.faults ≡ []
    → Folder.find_by_uuid_and_user id user db ≡ some row
    → let renamed : Folder = record row { name = name; updated_at = now } in
      (db' : Db) × (put_folder now id name user db ≡ (ok renamed, db'))
      × (Folder.find_by_uuid_and_user id user db' ≡ some renamed)
      × (db'.folders_ciphers ≡ db.folders_ciphers)
unfolding put_folder Folder.save Folder.find_by_uuid_and_user
put_folder-renames now id user name db {row} sound found =
    let test =
      find-eq-some (λ (x : Folder). x.uuid == id && x.user_uuid == user) db.folders found in
    let u : row.uuid ≡ id = ground arith in
    let v : row.user_uuid ≡ user = ground arith in
    let renamed : Folder = record row { name = name; updated_at = now } in
    let db1 = update_uuid_revision row.user_uuid now db in
    let quiet = revision-IsQuiet row.user_uuid now db sound in
    let (saved, after, kept) =
      save_row_lem id user renamed db1 {row = row} quiet.no_fault u v
        (rw quiet.same_folders found) in
    ((save_row renamed db1).1, rw found (rw saved refl), after, kept ∙ quiet.same_ciphers)

emptied :
    (folder : ℕ) (xs : List FolderCipher)
    → refers_to folder (filter (λ x. not (x.folder_uuid == folder)) xs) ≡ false
emptied folder [] = refl
emptied folder (x ∷ xs) = ground (arith, emptied folder xs)

gone :
    (id user : ℕ) (xs : List Folder)
    → find (λ x. x.uuid == id && x.user_uuid == user) (filter (λ x. not (x.uuid == id)) xs) ≡ none
gone id user [] = refl
gone id user (x ∷ xs) = ground (arith, gone id user xs)

delete_lem :
    (now id : ℕ) (row : Folder) (db : Db)
    → row.uuid ≡ id
    → let db1 = update_uuid_revision row.user_uuid now db in
      db1.faults ≡ []
      → Folder.delete now row db ≡ (
        ok tt,
        record db1 {
          folders = filter (λ x. not (x.uuid == id)) db1.folders;
          folders_ciphers = filter (λ x. not (x.folder_uuid == id)) db1.folders_ciphers;
        },
      )
unfolding Folder.delete Folder.delete_all_by_folder Folder.delete_row execute
delete_lem now id row db u sound = erase (update_uuid_revision row.user_uuid now db) sound
  where
    erase :
        (db1 : Db)
        → db1.faults ≡ []
        → continue
            (Folder.delete_all_by_folder row.uuid db1).0
            (λ _. Folder.delete_row row.uuid)
            (Folder.delete_all_by_folder row.uuid db1).1
          ≡ (
            ok tt,
            record db1 {
              folders = filter (λ x. not (x.uuid == id)) db1.folders;
              folders_ciphers = filter (λ x. not (x.folder_uuid == id)) db1.folders_ciphers;
            },
          )
    erase db1 clean = rw (clean, u) refl

-- With no faults, a user who deletes a folder of theirs does not find it afterwards, and no cipher is
-- assigned to it any more.
pub delete_folder_gone :
    (now id user : ℕ) (db : Db) {row : Folder}
    → db.faults ≡ []
    → Folder.find_by_uuid_and_user id user db ≡ some row
    → (db' : Db) × (delete_folder now id user db ≡ (ok tt, db'))
      × (Folder.find_by_uuid_and_user id user db' ≡ none)
      × (refers_to id db'.folders_ciphers ≡ false)
unfolding delete_folder Folder.find_by_uuid_and_user
delete_folder_gone now id user db {row} sound found =
    let test =
      find-eq-some (λ (x : Folder). x.uuid == id && x.user_uuid == user) db.folders found in
    let u : row.uuid ≡ id = ground arith in
    let db1 = update_uuid_revision row.user_uuid now db in
    let quiet = revision-IsQuiet row.user_uuid now db sound in
    let none_left = quiet.no_fault in
    (
      record db1 {
        folders = filter (λ x. not (x.uuid == id)) db1.folders;
        folders_ciphers = filter (λ x. not (x.folder_uuid == id)) db1.folders_ciphers;
      },
      rw found (delete_lem now id row db u none_left),
      gone id user db1.folders,
      emptied id db1.folders_ciphers,
    )
