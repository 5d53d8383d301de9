-- ===== src/Server/Api/Ciphers/Stored.antt =====
-- Storing a cipher leaves the rows of other uuids as they are.
use umewarden.Prelude.{
  ℕ, ◌≡◌, Bool, false, not, ◌&&◌, Option, none, some, List, [], ◌∷◌, all, leb, ◌==◌, if◌then◌else◌,
}
use umewarden.Prelude.Text.{Text}
use umewarden.Server.Db.{
  Attachment, Cipher, M, pure, invalid_folder, storage_failed, invalid_type, data_missing, panicked,
  stale_client, no_organizations, note_too_long, ◌>>◌,
}
use umewarden.Server.Keeps.{
  Keeps, Keeps-pure, Keeps-raise, Keeps-query, Keeps-require, Keeps-guard, Keeps-if, Keeps-bind,
  Keeps-then,
}
use umewarden.Server.Models.Attachment
use umewarden.Server.Models.Cipher.{set_favorite}
use umewarden.Server.Models.Cipher.Json.{print, to_json}
use umewarden.Server.Models.Cipher.Stored.{
  IsStored, users_revision-Keeps, attachment_save-Keeps, archive-Keeps, favorite-Keeps, save-Keeps,
  move-Keeps,
}
use umewarden.Server.Api.Ciphers.{
  Env, CipherData, AttachmentData, UpdateType, is_some, is_sync, client_date, check_folder,
  rotate_attachments, rotated, type_data_opt, cleaned, filled, archive_at, store_cipher,
  update_cipher_from_data,
}

module _ (env : Env) (w : ℕ) (c : Cipher) where
  rotate-Keeps :
      (d : ℕ) (list : List (ℕ × AttachmentData)) → Keeps (IsStored w c) (rotate_attachments d list)
  unfolding rotate_attachments
  rotate-Keeps d [] = Keeps-pure tt
  rotate-Keeps d ((id, a) ∷ rest) =
      let later = rotate-Keeps d rest in
      Keeps-bind (Keeps-query (Attachment.find_by_id id)) (λ found. go later found)
    where
      go :
          Keeps (IsStored w c) (rotate_attachments d rest)
          → (found : Option Attachment)
          → Keeps (IsStored w c) (elim found as (λ _. M (Unit {0})) [
            | none ↦ rotate_attachments d rest
            | some saved ↦ if not (saved.cipher_uuid == d) then pure tt else (do
              Attachment.save (record saved { akey = some a.key; file_name = a.file_name })
              rotate_attachments d rest)
          ])
      go later none = later
      go later (some saved) = Keeps-if (not (saved.cipher_uuid == d)) (Keeps-pure tt) (
          Keeps-then
            (attachment_save-Keeps w c
              (record saved { akey = some a.key; file_name = a.file_name }))
            later)

  rotated-Keeps :
      (d : ℕ) (o : Option (List (ℕ × AttachmentData))) → Keeps (IsStored w c) (rotated d o)
  rotated-Keeps d none = Keeps-pure tt
  rotated-Keeps d (some list) = rotate-Keeps d list

  pub favorite_opt-Keeps :
      (o : Option Bool) (now user d : ℕ) → Keeps (IsStored w c) (set_favorite o now user d)
  favorite_opt-Keeps none now user d = Keeps-pure tt
  favorite_opt-Keeps (some b) now user d = favorite-Keeps w c b now user d

  archive_opt-Keeps :
      (o : Option ℕ) (now user d : ℕ) → Keeps (IsStored w c) (archive_at o now user d)
  archive_opt-Keeps none now user d = Keeps-pure tt
  archive_opt-Keeps (some dt) now user d = archive-Keeps w c now user d dt

  cleaned-Keeps : (f : Text → Option Text) (o : Option Text) → Keeps (IsStored w c) (cleaned f o)
  cleaned-Keeps f none = Keeps-pure none
  cleaned-Keeps f (some json) =
      Keeps-bind (Keeps-require _ (f json)) (λ text. Keeps-pure (some text))

  pub check_folder-Keeps : (o : Option ℕ) (user : ℕ) → Keeps (IsStored w c) (check_folder o user)
  check_folder-Keeps none user = Keeps-pure tt
  check_folder-Keeps (some id) user =
      Keeps-bind (Keeps-query _) (λ found. Keeps-guard (is_some found) invalid_folder)

  print-Keeps :
      (user : ℕ) (d : Cipher) (list : List Attachment) (folder : Option ℕ) (favorite : Bool)
      (archived : Option ℕ)
      → Keeps (IsStored w c) (print env.view user d list folder favorite archived)
  unfolding print
  print-Keeps user d list folder favorite archived =
      Keeps-then (Keeps-guard (all env.view.get_url list) storage_failed)
        (Keeps-then (Keeps-guard (leb 1 d.atype && leb d.atype 8) invalid_type) (Keeps-pure _))

  pub to_json-Keeps : (user : ℕ) (d : Cipher) → Keeps (IsStored w c) (to_json env.view user d)
  unfolding to_json
  to_json-Keeps user d = record { at = λ db h. (print-Keeps user d _ _ _ _).at db h }

  type_data-Keeps : (d : CipherData) → Keeps (IsStored w c) (type_data_opt d)
  type_data-Keeps d = Keeps-if (d.atype == 1) (Keeps-pure d.login) (
      Keeps-if (d.atype == 2) (Keeps-pure d.secure_note) (
        Keeps-if (d.atype == 3) (Keeps-pure d.card) (
          Keeps-if (d.atype == 4) (Keeps-pure d.identity)
            (Keeps-if (d.atype == 5) (Keeps-pure d.ssh_key) (Keeps-raise invalid_type)))))

  pub store-Keeps :
      (now : ℕ) (ut : UpdateType) (d : Cipher) (data_ : CipherData) (user : ℕ)
      → (d.uuid == w) ≡ false
      → Keeps (IsStored w c) (store_cipher env now ut d data_ user)
  unfolding store_cipher
  store-Keeps now ut d data_ user e = Keeps-then (rotated-Keeps d.uuid data_.attachments2) (
      Keeps-bind (type_data-Keeps data_) (λ found.
        Keeps-bind (Keeps-require data_missing found) (λ json.
          Keeps-bind (Keeps-require panicked (env.clean_data json)) (λ type_data.
            Keeps-bind (cleaned-Keeps env.clean_fields data_.fields) (λ fields.
              Keeps-bind (save-Keeps w c env.storage now (filled d data_ fields type_data user) e)
                (λ saved. Keeps-then (move-Keeps w c now data_.folder_id user d.uuid) (
                  Keeps-then (favorite_opt-Keeps data_.favorite now user d.uuid) (
                    Keeps-then
                      (archive_opt-Keeps (client_date env.parse_date data_.archived_date) now user
                        d.uuid)
                      (Keeps-then
                        (Keeps-if (is_sync ut) (users_revision-Keeps w c now saved) (Keeps-pure tt))
                        (Keeps-pure saved))))))))))

  pub update_from_data-Keeps :
      (now : ℕ) (ut : UpdateType) (d : Cipher) (data_ : CipherData) (user : ℕ)
      → (d.uuid == w) ≡ false
      → Keeps (IsStored w c) (update_cipher_from_data env now ut d data_ user)
  unfolding update_cipher_from_data
  update_from_data-Keeps now ut d data_ user e = Keeps-then (Keeps-guard _ stale_client) (
      Keeps-then (Keeps-guard _ no_organizations) (
        Keeps-then (Keeps-guard _ note_too_long) (
          Keeps-then (check_folder-Keeps data_.folder_id user)
            (store-Keeps now ut d data_ user e))))
