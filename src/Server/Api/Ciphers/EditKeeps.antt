-- ===== src/Server/Api/Ciphers/EditKeeps.antt =====
-- Reading, creating, changing and sharing ciphers leaves the ciphers of other users alone.
use mathlib.Core.List.{reverse}
use umewarden.Prelude.{ℕ, ◌≡◌, Bool, ltb, false, Option, none, some, List, [], ◌∷◌, length, ◌==◌}
use umewarden.Prelude.Text.{Text}
use umewarden.Server.Db.{
  Cipher, Db, Result, ok, err, M, pure, raise, continue, ◌>>=◌, ◌>>◌, no_organizations, missing_ids,
  nothing_selected,
}
use umewarden.Server.Keeps.{
  Keeps, Keeps-pure, Keeps-raise, Keeps-require, Keeps-guard, Keeps-bind, Keeps-then,
}
use umewarden.Server.Models.Cipher
use umewarden.Server.Models.Cipher.{
  is_owned_by_user, is_user, is_write_accessible_to_user, is_accessible_to_user, set_favorite,
  update_users_revision,
}
use umewarden.Server.Models.Cipher.Json.{CipherJson}
use umewarden.Server.Models.Cipher.Stored.{
  IsStored, users_revision-Keeps, favorite-Keeps, save_row-Keeps, delete-Keeps, move-Keeps,
}
use umewarden.Server.Api.Ciphers.{Env, CipherData, UpdateType, none_, sync}
use umewarden.Server.Api.Ciphers.Stored.{check_folder-Keeps, to_json-Keeps, update_from_data-Keeps}
use umewarden.Server.Api.Ciphers.Edit.{
  get_cipher, post_ciphers, put_cipher, put_cipher_partial, share_cipher_by_uuid,
  post_ciphers_create, share_each, put_cipher_share_selected, has_collections, all_ids,
}
use umewarden.Server.Api.Ciphers.Found.{writable-Keeps, accessible-Keeps}

-- a cipher that the user does not own, stored under `w`
module _ (env : Env) (w : ℕ) (c : Cipher) (user : ℕ)
    (foreign : is_owned_by_user user c ≡ false) where
  pub get-Keeps : (id : ℕ) → Keeps (IsStored w c) (get_cipher env id user)
  unfolding get_cipher
  get-Keeps id = accessible-Keeps w c user foreign id (λ d. to_json-Keeps env w c user d)

  pub create-Keeps :
      (fresh now : ℕ) (data_ : CipherData)
      → (fresh == w) ≡ false
      → Keeps (IsStored w c) (post_ciphers env fresh now data_ user)
  unfolding post_ciphers
  create-Keeps fresh now data_ e =
      Keeps-bind
        (update_from_data-Keeps env w c now sync (Cipher.new fresh now data_.atype data_.name)
          (record data_ { last_known_revision_date = none }) user e)
        (λ d. to_json-Keeps env w c user d)

  pub put-Keeps :
      (now id : ℕ) (data_ : CipherData) → Keeps (IsStored w c) (put_cipher env now id data_ user)
  unfolding put_cipher
  put-Keeps now id data_ = writable-Keeps w c user foreign id (λ d e.
      Keeps-bind (update_from_data-Keeps env w c now sync d data_ user e)
        (λ s. to_json-Keeps env w c user s))

  pub partial-Keeps :
      (now id : ℕ) (folder : Option ℕ) (favorite : Bool)
      → Keeps (IsStored w c) (put_cipher_partial env now id folder favorite user)
  unfolding put_cipher_partial
  partial-Keeps now id folder favorite = accessible-Keeps w c user foreign id (λ d.
      Keeps-then (check_folder-Keeps env w c folder user) (
        Keeps-then (move-Keeps w c now folder user d.uuid) (
          Keeps-then (favorite-Keeps w c favorite now user d.uuid) (to_json-Keeps env w c user d))))

  pub share-Keeps :
      (now : ℕ) (ut : UpdateType) (id : ℕ) (data_ : CipherData) (ids : List Text)
      → Keeps (IsStored w c) (share_cipher_by_uuid env now ut id data_ ids user)
  unfolding share_cipher_by_uuid
  share-Keeps now ut id data_ ids = writable-Keeps w c user foreign id (λ d e.
      Keeps-then (Keeps-guard _ no_organizations) (
        Keeps-bind (update_from_data-Keeps env w c now ut d data_ user e)
          (λ s. to_json-Keeps env w c user s)))

  pub share_each-Keeps :
      (now : ℕ) (list : List CipherData) (ids : List Text)
      → Keeps (IsStored w c) (share_each env now list ids user)
  unfolding share_each
  share_each-Keeps now [] ids = Keeps-pure tt
  share_each-Keeps now (d ∷ rest) ids = Keeps-bind (Keeps-require missing_ids d.id) (λ id.
      Keeps-bind (share-Keeps now none_ id (record d { id = none }) ids)
        (λ _. share_each-Keeps now rest ids))

  pub share_selected-Keeps :
      (now : ℕ) (list : List CipherData) (ids : List Text)
      → Keeps (IsStored w c) (put_cipher_share_selected env now list ids user)
  unfolding put_cipher_share_selected
  share_selected-Keeps now list ids =
      Keeps-then (Keeps-guard (ltb 0 (length list)) nothing_selected) (
        Keeps-then (Keeps-guard (has_collections env ids) nothing_selected) (
          Keeps-then (Keeps-guard (all_ids env list) missing_ids)
            (share_each-Keeps now (reverse list) ids)))

  -- what follows a save has the row that was saved
  save-then-Keeps :
      {B : Type 0} (now : ℕ) (d : Cipher) (f : Cipher → M B)
      → (d.uuid == w) ≡ false
      → Keeps (IsStored w c) (f (record d { updated_at = now }))
      → Keeps (IsStored w c) (Cipher.save env.storage now d >>= f)
  unfolding Cipher.save
  save-then-Keeps now d f e k = record {
    at = λ db h.
        let users = update_users_revision now d db in
        revised users.0 users.1 ((users_revision-Keeps w c now d).at db h);
  }
    where
      saved :
          (r : Result (Unit {0})) (db : Db)
          → IsStored w c db
          → IsStored w c
              (continue
                (continue r (λ _. pure (record d { updated_at = now })) db).0
                f
                (continue r (λ _. pure (record d { updated_at = now })) db).1).1
      saved (ok _) db h = k.at db h
      saved (err _) db h = h

      revised :
          (r : Result (Unit {0})) (db : Db)
          → IsStored w c db
          → IsStored w c
              (continue
                (continue r
                  (λ _. do
                    Cipher.save_row env.storage (record d { updated_at = now })
                    pure (record d { updated_at = now }))
                  db).0
                f
                (continue r
                  (λ _. do
                    Cipher.save_row env.storage (record d { updated_at = now })
                    pure (record d { updated_at = now }))
                  db).1).1
      revised (ok _) db h =
          let row = Cipher.save_row env.storage (record d { updated_at = now }) db in
          saved row.0 row.1
            ((save_row-Keeps w c env.storage (record d { updated_at = now }) e).at db h)
      revised (err _) db h = h

  undone-Keeps :
      (r : Result CipherJson) (now : ℕ) (d : Cipher) (db : Db)
      → (d.uuid == w) ≡ false
      → IsStored w c db
      → IsStored w c
          (elim r as (λ _. Result CipherJson × Db) [
            | ok json ↦ (ok json, db)
            | err x ↦ (do Cipher.delete env.storage now d; raise x) db
          ]).1
  undone-Keeps (ok json) now d db e h = h
  undone-Keeps (err x) now d db e h =
      (Keeps-then (delete-Keeps w c env.storage now d e) (Keeps-raise x)).at db h

  pub create_shared-Keeps :
      (fresh now : ℕ) (data_ : CipherData) (ids : List Text)
      → (fresh == w) ≡ false
      → Keeps (IsStored w c) (post_ciphers_create env fresh now data_ ids user)
  unfolding post_ciphers_create
  create_shared-Keeps fresh now data_ ids e =
      save-then-Keeps now
        (record (Cipher.new fresh now data_.atype data_.name) { user_uuid = some user }) _ e
        (record {
          at = λ db h.
              let res =
                share_cipher_by_uuid env now sync fresh
                  (record data_ { last_known_revision_date = none }) ids user db in
              undone-Keeps res.0 now _ res.1 e (
                (share-Keeps now sync fresh (record data_ { last_known_revision_date = none })
                    ids).at
                  db h);
        })
