-- ===== src/Server/Api/Ciphers/Requests.antt =====
-- The requests on ciphers that a signed-in user may send, and what the server does with one.
use umewarden.Prelude.{ℕ, Bool, Option, List}
use umewarden.Prelude.Text.{Text}
use umewarden.Server.Db.{Db}
use umewarden.Server.Api.Ciphers.{Env, CipherData, UpdateType}
use umewarden.Server.Api.Ciphers.Edit.{
  get_cipher, post_ciphers, put_cipher, put_cipher_partial, share_cipher_by_uuid,
  post_ciphers_create, put_cipher_share_selected,
}
use umewarden.Server.Api.Ciphers.Import.{ImportData, post_ciphers_import}
use umewarden.Server.Api.Ciphers.Remove.{
  CipherDeleteOptions, delete_cipher_by_uuid, delete_multiple_ciphers, restore_cipher_by_uuid,
  restore_multiple_ciphers, archive_cipher, archive_multiple_ciphers, unarchive_cipher,
  unarchive_multiple_ciphers, delete_cipher_attachment_by_id, move_cipher_selected,
}

pub data Request : Type 0 where
  get : ℕ → Request
  -- with the uuid that the server draws
  create : ℕ → CipherData → Request
  create_shared : ℕ → CipherData → List Text → Request
  put : ℕ → CipherData → Request
  put_partial : ℕ → Option ℕ → Bool → Request
  share : ℕ → CipherData → List Text → Request
  share_selected : List CipherData → List Text → Request
  delete : CipherDeleteOptions → ℕ → Request
  delete_selected : CipherDeleteOptions → List ℕ → Request
  restore : ℕ → Request
  restore_selected : List ℕ → Request
  archive : ℕ → Request
  archive_selected : List ℕ → Request
  unarchive : ℕ → Request
  unarchive_selected : List ℕ → Request
  delete_attachment : ℕ → ℕ → Request
  move : Option ℕ → List ℕ → Request
  import_ : ImportData → Request

-- the database after a request of `user` at `now`
unfoldable pub serve : Env → ℕ → ℕ → Request → Db → Db
serve env now user (get id) db = (get_cipher env id user db).1
serve env now user (create fresh_id data_) db = (post_ciphers env fresh_id now data_ user db).1
serve env now user (create_shared fresh_id data_ ids) db =
    (post_ciphers_create env fresh_id now data_ ids user db).1
serve env now user (put id data_) db = (put_cipher env now id data_ user db).1
serve env now user (put_partial id folder favorite) db =
    (put_cipher_partial env now id folder favorite user db).1
serve env now user (share id data_ ids) db =
    (share_cipher_by_uuid env now UpdateType.sync id data_ ids user db).1
serve env now user (share_selected list ids) db =
    (put_cipher_share_selected env now list ids user db).1
serve env now user (delete options id) db = (delete_cipher_by_uuid env now options id user db).1
serve env now user (delete_selected options ids) db =
    (delete_multiple_ciphers env now options ids user db).1
serve env now user (restore id) db = (restore_cipher_by_uuid env now Bool.false id user db).1
serve env now user (restore_selected ids) db = (restore_multiple_ciphers env now ids user db).1
serve env now user (archive id) db = (archive_cipher env now Bool.false id user db).1
serve env now user (archive_selected ids) db = (archive_multiple_ciphers env now ids user db).1
serve env now user (unarchive id) db = (unarchive_cipher env now Bool.false id user db).1
serve env now user (unarchive_selected ids) db = (unarchive_multiple_ciphers env now ids user db).1
serve env now user (delete_attachment id attachment) db =
    (delete_cipher_attachment_by_id env now id attachment user db).1
serve env now user (move folder ids) db = (move_cipher_selected env now folder ids user db).1
serve env now user (import_ data_) db = (post_ciphers_import env now data_ user db).1
