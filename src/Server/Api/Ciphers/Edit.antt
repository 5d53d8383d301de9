-- ===== src/Server/Api/Ciphers/Edit.antt =====
-- server/src/api/core/ciphers.rs: reading, creating, changing and sharing ciphers.
use mathlib.Core.List.{reverse}
use umewarden.Prelude.{
  ℕ, Bool, true, false, not, ◌&&◌, ◌||◌, Option, none, some, List, [], ◌∷◌, length, ltb,
}
use umewarden.Prelude.Text.{Text}
use umewarden.Server.Db.{
  Cipher, ok, err, cipher_missing, not_accessible, no_organizations, missing_ids, nothing_selected,
  M, pure, raise, guard, query, require, ◌>>=◌, ◌>>◌,
}
use umewarden.Server.Models.Cipher
use umewarden.Server.Models.Cipher.{
  is_accessible_to_user, is_write_accessible_to_user, set_favorite, contains_id,
}
use umewarden.Server.Models.Cipher.Json.{CipherJson, to_json}
use umewarden.Server.Api.Ciphers.{
  Env, CipherData, UpdateType, none_, sync, is_some, check_folder, update_cipher_from_data,
}

-- the row, for one who may change it
abbrev pub find_writable : ℕ → ℕ → M Cipher
find_writable id user = do
  found ← query (Cipher.find_by_uuid id)
  c ← require cipher_missing found
  guard (is_write_accessible_to_user user c) not_accessible
  pure c

abbrev pub find_accessible : ℕ → ℕ → M Cipher
find_accessible id user = do
  found ← query (Cipher.find_by_uuid id)
  c ← require cipher_missing found
  guard (is_accessible_to_user user c) not_accessible
  pure c

module _ (env : Env) where
  -- also `get_cipher_admin` and `get_cipher_details`
  unfoldable pub get_cipher : ℕ → ℕ → M CipherJson
  get_cipher id user = do c ← find_accessible id user; to_json env.view user c

  unfoldable pub post_ciphers : ℕ → ℕ → CipherData → ℕ → M CipherJson
  post_ciphers fresh_id now data_ user = do
    c ←
        update_cipher_from_data env now sync (Cipher.new fresh_id now data_.atype data_.name)
          (record data_ { last_known_revision_date = none }) user
    to_json env.view user c

  -- also `post_cipher`, `put_cipher_admin` and `post_cipher_admin`
  unfoldable pub put_cipher : ℕ → ℕ → CipherData → ℕ → M CipherJson
  put_cipher now id data_ user = do
    c ← find_writable id user
    saved ← update_cipher_from_data env now sync c data_ user
    to_json env.view user saved

  -- also `post_cipher_partial`
  unfoldable pub put_cipher_partial : ℕ → ℕ → Option ℕ → Bool → ℕ → M CipherJson
  put_cipher_partial now id folder_id favorite user = do
    c ← find_accessible id user
    check_folder folder_id user
    Cipher.move_to_folder now folder_id user c.uuid
    set_favorite (some favorite) now user c.uuid
    to_json env.view user c

  abbrev pub has_collections : List Text → Bool
  has_collections [] = false
  has_collections (_ ∷ _) = true

  unfoldable pub share_cipher_by_uuid :
      ℕ → UpdateType → ℕ → CipherData → List Text → ℕ → M CipherJson
  share_cipher_by_uuid now ut id data_ collection_ids user = do
    c ← find_writable id user
    guard (not (is_some data_.organization_id || has_collections collection_ids)) no_organizations
    saved ← update_cipher_from_data env now ut c data_ user
    to_json env.view user saved

  -- also `post_ciphers_admin`; a cipher that cannot be shared is deleted again
  unfoldable pub post_ciphers_create : ℕ → ℕ → CipherData → List Text → ℕ → M CipherJson
  unfolding share_cipher_by_uuid
  post_ciphers_create fresh_id now data_ collection_ids user = do
    c ←
        Cipher.save env.storage now
          (record (Cipher.new fresh_id now data_.atype data_.name) { user_uuid = some user })
    λ db.
        let (res, db') =
          share_cipher_by_uuid now sync fresh_id (record data_ { last_known_revision_date = none })
            collection_ids user db in
        elim res [
          | ok json ↦ (ok json, db')
          | err e ↦ (do Cipher.delete env.storage now c; raise e) db'
        ]

  abbrev pub all_ids : List CipherData → Bool
  all_ids [] = true
  all_ids (d ∷ rest) = is_some d.id && all_ids rest

  -- `id.take()`, then the call
  unfoldable pub share_each : ℕ → List CipherData → List Text → ℕ → M (Unit {0})
  unfolding share_cipher_by_uuid
  share_each now [] collection_ids user = pure tt
  share_each now (d ∷ rest) collection_ids user = do
    id ← require missing_ids d.id
    _ ← share_cipher_by_uuid now none_ id (record d { id = none }) collection_ids user
    share_each now rest collection_ids user

  -- The list is emptied from its end.
  unfoldable pub put_cipher_share_selected : ℕ → List CipherData → List Text → ℕ → M (Unit {0})
  unfolding share_each
  put_cipher_share_selected now ciphers collection_ids user = do
    guard (ltb 0 (length ciphers)) nothing_selected
    guard (has_collections collection_ids) nothing_selected
    guard (all_ids ciphers) missing_ids
    share_each now (reverse ciphers) collection_ids user
