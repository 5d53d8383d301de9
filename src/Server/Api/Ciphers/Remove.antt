-- ===== src/Server/Api/Ciphers/Remove.antt =====
-- server/src/api/core/ciphers.rs: deleting, restoring, archiving and moving ciphers, and deleting
-- their attachments.
use umewarden.Prelude.{ℕ, Bool, true, false, not, Option, none, some, List, [], ◌∷◌, length, ◌==◌}
use umewarden.Server.Db.{
  Cipher, Folder, attachment_missing, other_cipher, not_all_moved, M, pure, guard, query, require,
  ◌>>=◌, ◌>>◌,
}
use umewarden.Server.Models.User.{update_revision_impl}
use umewarden.Server.Models.Folder
use umewarden.Server.Models.Attachment
use umewarden.Server.Models.Archive
use umewarden.Server.Models.Cipher
use umewarden.Server.Models.Cipher.{
  update_users_revision, is_accessible_to_user, is_write_accessible_to_user,
}
use umewarden.Server.Models.Cipher.Json.{CipherJson, to_json}
use umewarden.Server.Api.Ciphers.{Env, check_folder}
use umewarden.Server.Api.Ciphers.Edit.{find_writable, find_accessible}

pub data CipherDeleteOptions : Type 0 where
  soft_single soft_multi hard_single hard_multi : CipherDeleteOptions

abbrev pub is_soft : CipherDeleteOptions → Bool
is_soft soft_single = true
is_soft soft_multi = true
is_soft hard_single = false
is_soft hard_multi = false

abbrev pub is_single : CipherDeleteOptions → Bool
is_single soft_single = true
is_single hard_single = true
is_single soft_multi = false
is_single hard_multi = false

-- the revision that the arguments of a push write
abbrev pub push_if : Bool → ℕ → Cipher → M (Unit {0})
push_if true now c = update_users_revision now c
push_if false now c = pure tt

module _ (env : Env) where
  unfoldable pub soft_or_hard : Bool → ℕ → Cipher → M Cipher
  soft_or_hard true now c = Cipher.save env.storage now (record c { deleted_at = some now })
  soft_or_hard false now c = do Cipher.delete env.storage now c; pure c

  unfoldable pub delete_cipher_by_uuid : ℕ → CipherDeleteOptions → ℕ → ℕ → M (Unit {0})
  unfolding soft_or_hard
  delete_cipher_by_uuid now delete_options id user = do
    c ← find_writable id user
    c' ← soft_or_hard (is_soft delete_options) now c
    push_if (is_single delete_options) now c'

  unfoldable pub delete_multiple_ciphers : ℕ → CipherDeleteOptions → List ℕ → ℕ → M (Unit {0})
  unfolding delete_cipher_by_uuid
  delete_multiple_ciphers now delete_options [] user = pure tt
  delete_multiple_ciphers now delete_options (id ∷ ids) user = do
    delete_cipher_by_uuid now delete_options id user
    delete_multiple_ciphers now delete_options ids user

  unfoldable pub restore_cipher_by_uuid : ℕ → Bool → ℕ → ℕ → M CipherJson
  restore_cipher_by_uuid now multi_restore id user = do
    c ← find_writable id user
    saved ← Cipher.save env.storage now (record c { deleted_at = none })
    push_if (not multi_restore) now saved
    to_json env.view user saved

  unfoldable pub archive_cipher : ℕ → Bool → ℕ → ℕ → M CipherJson
  archive_cipher now multi_archive id user = do
    c ← find_accessible id user
    Archive.save now user c.uuid now
    push_if (not multi_archive) now c
    to_json env.view user c

  unfoldable pub unarchive_cipher : ℕ → Bool → ℕ → ℕ → M CipherJson
  unarchive_cipher now multi_unarchive id user = do
    c ← find_accessible id user
    Archive.delete_by_cipher now user c.uuid
    push_if (not multi_unarchive) now c
    to_json env.view user c

  -- the loops of `restore_multiple_ciphers`, `archive_multiple_ciphers` and `unarchive_multiple_ciphers`
  abbrev pub for_each : (ℕ → M CipherJson) → List ℕ → M (List CipherJson)
  for_each one [] = pure []
  for_each one (id ∷ ids) = do json ← one id; rest ← for_each one ids; pure (json ∷ rest)

  unfoldable pub restore_multiple_ciphers : ℕ → List ℕ → ℕ → M (List CipherJson)
  unfolding restore_cipher_by_uuid
  restore_multiple_ciphers now ids user =
      for_each (λ id. restore_cipher_by_uuid now true id user) ids

  unfoldable pub archive_multiple_ciphers : ℕ → List ℕ → ℕ → M (List CipherJson)
  unfolding archive_cipher
  archive_multiple_ciphers now ids user = for_each (λ id. archive_cipher now true id user) ids

  unfoldable pub unarchive_multiple_ciphers : ℕ → List ℕ → ℕ → M (List CipherJson)
  unfolding unarchive_cipher
  unarchive_multiple_ciphers now ids user = for_each (λ id. unarchive_cipher now true id user) ids

  unfoldable pub delete_cipher_attachment_by_id : ℕ → ℕ → ℕ → ℕ → M CipherJson
  delete_cipher_attachment_by_id now cipher_id attachment_id user = do
    found ← query (Attachment.find_by_id attachment_id)
    a ← require attachment_missing found
    guard (a.cipher_uuid == cipher_id) other_cipher
    c ← find_writable cipher_id user
    Attachment.delete env.storage.remove_file a
    update_users_revision now c
    to_json env.view user c

  unfoldable pub move_each : ℕ → Option ℕ → List Cipher → ℕ → M (Unit {0})
  move_each now folder_id [] user = pure tt
  move_each now folder_id (c ∷ cs) user = do
    Cipher.move_to_folder now folder_id user c.uuid
    move_each now folder_id cs user

  -- also `move_cipher_selected_put`; the revision of the push to a single cipher's user is not part of
  -- this call
  unfoldable pub move_cipher_selected : ℕ → Option ℕ → List ℕ → ℕ → M (Unit {0})
  unfolding move_each
  move_cipher_selected now folder_id ids user = do
    check_folder folder_id user
    accessible ← query (Cipher.find_by_user user ids)
    move_each now folder_id accessible user
    guard (length ids == length accessible) (not_all_moved (length accessible) (length ids))

  unfoldable pub delete_folders : ℕ → List Folder → M (Unit {0})
  delete_folders now [] = pure tt
  delete_folders now (f ∷ fs) = do Folder.delete now f; delete_folders now fs

  -- behind the check of the password or the one-time password
  unfoldable pub purge_personal_vault : ℕ → ℕ → M (Unit {0})
  unfolding delete_folders
  purge_personal_vault now user = do
    found ← query (Cipher.find_owned_by_user user)
    Cipher.delete_each env.storage now found
    folders ← query (Folder.find_by_user user)
    delete_folders now folders
    update_revision_impl user now
