-- ===== src/Server/Api/Ciphers/Isolation.antt =====
-- Requests of other users leave the ciphers of a user alone, and do not show them.
use umewarden.Prelude.{ℕ, ◌≡◌, Bool, true, false, not, some, List, [], ◌∷◌, All, arith, ◌==◌}
use umewarden.Server.Db.{Cipher, Db}
use umewarden.Server.Models.Cipher
use umewarden.Server.Models.Cipher.{is_owned_by_user}
use umewarden.Server.Models.Cipher.Stored.{IsStored}
use umewarden.Server.Api.Ciphers.{Env}
use umewarden.Server.Api.Ciphers.Remove
use umewarden.Server.Api.Ciphers.ImportKeeps.{all_apart, import-Keeps}
use umewarden.Server.Api.Ciphers.Requests.{
  Request, serve, get, create, create_shared, put, put_partial, share, share_selected, delete,
  delete_selected, restore, restore_selected, archive, archive_selected, unarchive,
  unarchive_selected, delete_attachment, move, import_,
}
use umewarden.Server.Api.Ciphers.EditKeeps.{
  get-Keeps, create-Keeps, create_shared-Keeps, put-Keeps, partial-Keeps, share-Keeps,
  share_selected-Keeps,
}
use umewarden.Server.Api.Ciphers.RemoveKeeps.{
  remove-Keeps, remove_each-Keeps, restore-Keeps, archive_one-Keeps, unarchive_one-Keeps,
  for_each-Keeps, attachment-Keeps, move_selected-Keeps,
}

-- a request with its sender and its time
pub record Sent : Type 0 where
  pub user : ℕ
  pub now : ℕ
  pub request : Request

-- The uuid that the server draws for a new cipher is not `w`.
abbrev pub is_apart : ℕ → Request → Bool
is_apart w (create fresh_id data_) = not (fresh_id == w)
is_apart w (create_shared fresh_id data_ ids) = not (fresh_id == w)
is_apart w (get _) = true
is_apart w (put _ _) = true
is_apart w (put_partial _ _ _) = true
is_apart w (share _ _ _) = true
is_apart w (share_selected _ _) = true
is_apart w (delete _ _) = true
is_apart w (delete_selected _ _) = true
is_apart w (restore _) = true
is_apart w (restore_selected _) = true
is_apart w (archive _) = true
is_apart w (archive_selected _) = true
is_apart w (unarchive _) = true
is_apart w (unarchive_selected _) = true
is_apart w (delete_attachment _ _) = true
is_apart w (move _ _) = true
is_apart w (import_ data_) = all_apart w data_.ciphers

abbrev pub IsForeign : Cipher → Sent → Type 0
IsForeign c s = (is_owned_by_user s.user c ≡ false) × (is_apart c.uuid s.request ≡ true)

abbrev pub serve_all : Env → List Sent → Db → Db
serve_all env [] db = db
serve_all env (s ∷ rest) db = serve_all env rest (serve env s.now s.user s.request db)

serve-Keeps :
    (env : Env) (c : Cipher) (user now : ℕ) (request : Request)
    → is_owned_by_user user c ≡ false
    → is_apart c.uuid request ≡ true
    → (db : Db) → IsStored c.uuid c db
    → IsStored c.uuid c (serve env now user request db)
unfolding serve Remove.restore_multiple_ciphers Remove.archive_multiple_ciphers
    Remove.unarchive_multiple_ciphers
serve-Keeps env c user now (get id) e a db h = (get-Keeps env c.uuid c user e id).at db h
serve-Keeps env c user now (create fresh data_) e a db h =
    (create-Keeps env c.uuid c user e fresh now data_ (ground (arith, a))).at db h
serve-Keeps env c user now (create_shared fresh data_ ids) e a db h =
    (create_shared-Keeps env c.uuid c user e fresh now data_ ids (ground (arith, a))).at db h
serve-Keeps env c user now (put id data_) e a db h =
    (put-Keeps env c.uuid c user e now id data_).at db h
serve-Keeps env c user now (put_partial id folder favorite) e a db h =
    (partial-Keeps env c.uuid c user e now id folder favorite).at db h
serve-Keeps env c user now (share id data_ ids) e a db h =
    (share-Keeps env c.uuid c user e now _ id data_ ids).at db h
serve-Keeps env c user now (share_selected list ids) e a db h =
    (share_selected-Keeps env c.uuid c user e now list ids).at db h
serve-Keeps env c user now (delete options id) e a db h =
    (remove-Keeps env c.uuid c user e now options id).at db h
serve-Keeps env c user now (delete_selected options ids) e a db h =
    (remove_each-Keeps env c.uuid c user e now options ids).at db h
serve-Keeps env c user now (restore id) e a db h =
    (restore-Keeps env c.uuid c user e now false id).at db h
serve-Keeps env c user now (restore_selected ids) e a db h =
    (for_each-Keeps env c.uuid c user e ids
        (λ id. restore-Keeps env c.uuid c user e now true id)).at
      db h
serve-Keeps env c user now (archive id) e a db h =
    (archive_one-Keeps env c.uuid c user e now false id).at db h
serve-Keeps env c user now (archive_selected ids) e a db h =
    (for_each-Keeps env c.uuid c user e ids
        (λ id. archive_one-Keeps env c.uuid c user e now true id)).at
      db h
serve-Keeps env c user now (unarchive id) e a db h =
    (unarchive_one-Keeps env c.uuid c user e now false id).at db h
serve-Keeps env c user now (unarchive_selected ids) e a db h =
    (for_each-Keeps env c.uuid c user e ids
        (λ id. unarchive_one-Keeps env c.uuid c user e now true id)).at
      db h
serve-Keeps env c user now (delete_attachment id attachment) e a db h =
    (attachment-Keeps env c.uuid c user e now id attachment).at db h
serve-Keeps env c user now (move folder ids) e a db h =
    (move_selected-Keeps env c.uuid c user e now folder ids).at db h
serve-Keeps env c user now (import_ data_) e a db h =
    (import-Keeps env c.uuid c user now data_ a).at db h

-- Whatever users that do not own a cipher request about ciphers, with any arguments, in any order and
-- with any failing statements, the row that is found by the uuid of the cipher stays as it is. The
-- requests are reading, creating, changing, sharing, deleting, restoring, archiving and moving
-- ciphers and deleting their attachments, one by one or many at once, and importing. The condition is
-- that the uuids that the server draws for new ciphers are not the uuid of the cipher.
pub serve_all-find_by_uuid :
    (env : Env) (c : Cipher) (db : Db) (list : List Sent)
    → All (IsForeign c) list
    → Cipher.find_by_uuid c.uuid db ≡ some c
    → Cipher.find_by_uuid c.uuid (serve_all env list db) ≡ some c
unfolding Cipher.find_by_uuid
serve_all-find_by_uuid env c db [] all h = h
serve_all-find_by_uuid env c db (s ∷ rest) all h =
    serve_all-find_by_uuid env c (serve env s.now s.user s.request db) rest all.1
      (serve-Keeps env c s.user s.now s.request all.0.0 all.0.1 db h)
