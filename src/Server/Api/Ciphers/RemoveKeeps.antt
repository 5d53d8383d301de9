-- ===== src/Server/Api/Ciphers/RemoveKeeps.antt =====
-- Deleting, restoring, archiving and moving ciphers leaves the ciphers of other users alone.
use umewarden.Prelude.{
  ℕ, ◌≡◌, Bool, true, false, not, Option, none, some, List, [], ◌∷◌, length, ◌==◌,
}
use umewarden.Server.Db.{Cipher, M, attachment_missing, other_cipher, not_all_moved}
use umewarden.Server.Keeps.{
  Keeps, Keeps-pure, Keeps-query, Keeps-require, Keeps-guard, Keeps-bind, Keeps-then,
}
use umewarden.Server.Models.Attachment
use umewarden.Server.Models.Cipher
use umewarden.Server.Models.Cipher.{
  is_owned_by_user, is_user, is_write_accessible_to_user, is_accessible_to_user, set_favorite,
  update_users_revision,
}
use umewarden.Server.Models.Cipher.Json.{CipherJson}
use umewarden.Server.Models.Cipher.Stored.{
  IsStored, users_revision-Keeps, attachment_delete-Keeps, archive-Keeps, unarchive-Keeps,
  save-Keeps, delete-Keeps, move-Keeps,
}
use umewarden.Server.Api.Ciphers.{Env}
use umewarden.Server.Api.Ciphers.Stored.{check_folder-Keeps, to_json-Keeps}
use umewarden.Server.Api.Ciphers.Remove.{
  CipherDeleteOptions, soft_or_hard, delete_cipher_by_uuid, delete_multiple_ciphers,
  restore_cipher_by_uuid, archive_cipher, unarchive_cipher, delete_cipher_attachment_by_id,
  move_each, move_cipher_selected, push_if, for_each, is_soft, is_single,
}
use umewarden.Server.Api.Ciphers.Found.{writable-Keeps, accessible-Keeps}

-- a cipher that the user does not own, stored under `w`
module _ (env : Env) (w : ℕ) (c : Cipher) (user : ℕ)
    (foreign : is_owned_by_user user c ≡ false) where
  pub push-Keeps : (b : Bool) (now : ℕ) (d : Cipher) → Keeps (IsStored w c) (push_if b now d)
  push-Keeps true now d = users_revision-Keeps w c now d
  push-Keeps false now d = Keeps-pure tt

  pub soft_or_hard-Keeps :
      (b : Bool) (now : ℕ) (d : Cipher)
      → (d.uuid == w) ≡ false
      → Keeps (IsStored w c) (soft_or_hard env b now d)
  unfolding soft_or_hard
  soft_or_hard-Keeps true now d e =
      save-Keeps w c env.storage now (record d { deleted_at = some now }) e
  soft_or_hard-Keeps false now d e =
      Keeps-then (delete-Keeps w c env.storage now d e) (Keeps-pure d)

  pub remove-Keeps :
      (now : ℕ) (options : CipherDeleteOptions) (id : ℕ)
      → Keeps (IsStored w c) (delete_cipher_by_uuid env now options id user)
  unfolding delete_cipher_by_uuid
  remove-Keeps now options id = writable-Keeps w c user foreign id (λ d e.
      Keeps-bind (soft_or_hard-Keeps (is_soft options) now d e)
        (λ s. push-Keeps (is_single options) now s))

  pub remove_each-Keeps :
      (now : ℕ) (options : CipherDeleteOptions) (ids : List ℕ)
      → Keeps (IsStored w c) (delete_multiple_ciphers env now options ids user)
  unfolding delete_multiple_ciphers
  remove_each-Keeps now options [] = Keeps-pure tt
  remove_each-Keeps now options (id ∷ ids) =
      Keeps-then (remove-Keeps now options id) (remove_each-Keeps now options ids)

  pub restore-Keeps :
      (now : ℕ) (b : Bool) (id : ℕ)
      → Keeps (IsStored w c) (restore_cipher_by_uuid env now b id user)
  unfolding restore_cipher_by_uuid
  restore-Keeps now b id = writable-Keeps w c user foreign id (λ d e.
      Keeps-bind (save-Keeps w c env.storage now (record d { deleted_at = none }) e)
        (λ s. Keeps-then (push-Keeps (not b) now s) (to_json-Keeps env w c user s)))

  pub archive_one-Keeps :
      (now : ℕ) (b : Bool) (id : ℕ) → Keeps (IsStored w c) (archive_cipher env now b id user)
  unfolding archive_cipher
  archive_one-Keeps now b id = accessible-Keeps w c user foreign id (λ d.
      Keeps-then (archive-Keeps w c now user d.uuid now)
        (Keeps-then (push-Keeps (not b) now d) (to_json-Keeps env w c user d)))

  pub unarchive_one-Keeps :
      (now : ℕ) (b : Bool) (id : ℕ) → Keeps (IsStored w c) (unarchive_cipher env now b id user)
  unfolding unarchive_cipher
  unarchive_one-Keeps now b id = accessible-Keeps w c user foreign id (λ d.
      Keeps-then (unarchive-Keeps w c now user d.uuid)
        (Keeps-then (push-Keeps (not b) now d) (to_json-Keeps env w c user d)))

  pub for_each-Keeps :
      {one : ℕ → M CipherJson} (ids : List ℕ)
      → ((id : ℕ) → Keeps (IsStored w c) (one id))
      → Keeps (IsStored w c) (for_each env one ids)
  for_each-Keeps [] k = Keeps-pure []
  for_each-Keeps (id ∷ ids) k =
      Keeps-bind (k id)
        (λ json. Keeps-bind (for_each-Keeps ids k) (λ rest. Keeps-pure (json ∷ rest)))

  pub attachment-Keeps :
      (now id attachment : ℕ)
      → Keeps (IsStored w c) (delete_cipher_attachment_by_id env now id attachment user)
  unfolding delete_cipher_attachment_by_id
  attachment-Keeps now id attachment =
      Keeps-bind (Keeps-query (Attachment.find_by_id attachment)) (λ found.
        Keeps-bind (Keeps-require attachment_missing found) (λ a.
          Keeps-then (Keeps-guard (a.cipher_uuid == id) other_cipher) (
            writable-Keeps w c user foreign id (λ d e.
              Keeps-then (attachment_delete-Keeps w c env.storage.remove_file a)
                (Keeps-then (users_revision-Keeps w c now d) (to_json-Keeps env w c user d))))))

  pub move_each-Keeps :
      (now : ℕ) (folder : Option ℕ) (list : List Cipher)
      → Keeps (IsStored w c) (move_each env now folder list user)
  unfolding move_each
  move_each-Keeps now folder [] = Keeps-pure tt
  move_each-Keeps now folder (d ∷ rest) =
      Keeps-then (move-Keeps w c now folder user d.uuid) (move_each-Keeps now folder rest)

  pub move_selected-Keeps :
      (now : ℕ) (folder : Option ℕ) (ids : List ℕ)
      → Keeps (IsStored w c) (move_cipher_selected env now folder ids user)
  unfolding move_cipher_selected
  move_selected-Keeps now folder ids = Keeps-then (check_folder-Keeps env w c folder user) (
      Keeps-bind (Keeps-query (Cipher.find_by_user user ids)) (λ list.
        Keeps-then (move_each-Keeps now folder list)
          (Keeps-guard (length ids == length list) (not_all_moved (length list) (length ids)))))
