-- ===== src/Server/Api/Ciphers/ImportKeeps.antt =====
-- Importing ciphers and folders leaves the ciphers of other users alone.
use umewarden.Prelude.{
  ℕ, suc, ◌≡◌, Bool, true, not, ◌&&◌, Option, none, some, List, [], ◌∷◌, all, arith, ◌==◌,
}
use umewarden.Server.Db.{Cipher, M, pure, invalid_import, ◌>>=◌}
use umewarden.Server.Keeps.{Keeps, Keeps-pure, Keeps-query, Keeps-guard, Keeps-bind, Keeps-then}
use umewarden.Server.Models.Folder
use umewarden.Server.Models.Cipher
use umewarden.Server.Models.Cipher.Json.{get_last}
use umewarden.Server.Models.Cipher.Stored.{IsStored, save_folder-Keeps, revision_impl-Keeps}
use umewarden.Server.Api.Ciphers.{Env, CipherData, none_}
use umewarden.Server.Api.Ciphers.Stored.{update_from_data-Keeps}
use umewarden.Server.Api.Ciphers.Import.{
  FolderData, ImportData, chosen, folder_at, folder_uuids, is_valid, validate_cipher_data,
  import_folders, import_ciphers, post_ciphers_import,
}

-- whether all uuids are other ones
abbrev pub all_apart : ℕ → List (ℕ × CipherData) → Bool
all_apart w [] = true
all_apart w ((fresh_id, _) ∷ rest) = not (fresh_id == w) && all_apart w rest

module _ (env : Env) (w : ℕ) (c : Cipher) (user : ℕ) where
  folder-Keeps :
      (o : Option ℕ) (fresh now : ℕ) (f : FolderData)
      → Keeps (IsStored w c) (elim o as (λ _. M ℕ) [
        | some id ↦ pure id
        | none ↦ (do saved ← Folder.save now (Folder.new fresh now user f.name); pure saved.uuid)
      ])
  folder-Keeps (some id) fresh now f = Keeps-pure id
  folder-Keeps none fresh now f =
      Keeps-bind (save_folder-Keeps w c now (Folder.new fresh now user f.name))
        (λ saved. Keeps-pure saved.uuid)

  folders-Keeps :
      (now : ℕ) (existing : List ℕ) (list : List (ℕ × FolderData))
      → Keeps (IsStored w c) (import_folders env now user existing list)
  unfolding import_folders
  folders-Keeps now existing [] = Keeps-pure []
  folders-Keeps now existing ((fresh, f) ∷ rest) =
      Keeps-bind (folder-Keeps (chosen existing f.id) fresh now f)
        (λ id. Keeps-bind (folders-Keeps now existing rest) (λ ids. Keeps-pure (id ∷ ids)))

  ciphers-Keeps :
      (now : ℕ) (folders : List ℕ) (relations : List (ℕ × ℕ)) (index : ℕ)
      (list : List (ℕ × CipherData))
      → all_apart w list ≡ true
      → Keeps (IsStored w c) (import_ciphers env now user folders relations index list)
  unfolding import_ciphers
  ciphers-Keeps now folders relations index [] h = Keeps-pure tt
  ciphers-Keeps now folders relations index ((fresh, d) ∷ rest) h =
      Keeps-bind
        (update_from_data-Keeps env w c now none_ (Cipher.new fresh now d.atype d.name)
          (record d { folder_id = folder_at (get_last index relations) folders }) user
          (ground (arith, h)))
        (λ _. ciphers-Keeps now folders relations (suc index) rest (ground (arith, h)))

  pub import-Keeps :
      (now : ℕ) (data_ : ImportData)
      → all_apart w data_.ciphers ≡ true
      → Keeps (IsStored w c) (post_ciphers_import env now data_ user)
  unfolding post_ciphers_import validate_cipher_data
  import-Keeps now data_ h =
      Keeps-then (Keeps-guard (all (is_valid env) data_.ciphers) invalid_import) (
        Keeps-bind (Keeps-query (Folder.find_by_user user)) (λ found.
          Keeps-bind (folders-Keeps now (folder_uuids found) data_.folders) (λ folders.
            Keeps-then (ciphers-Keeps now folders data_.folder_relationships 0 data_.ciphers h)
              (revision_impl-Keeps w c user now))))
