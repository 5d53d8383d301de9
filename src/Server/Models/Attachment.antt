-- ===== src/Server/Models/Attachment.antt =====
-- server/src/db/models/attachment.rs. Files are kept by the opendal crate: whether it removes a file,
-- or has not found one, is an argument. No table refers to attachments, so `replace_into` meets no
-- violation of a foreign key. Identifiers that differ only in case are one number.
use umewarden.Prelude.{
  ℕ, ◌-◌, ◌^◌, Bool, false, not, Option, none, some, List, [], ◌∷◌, filter, find, length, ◌==◌,
  if◌then◌else◌,
}
use umewarden.Prelude.Int.{ℤ, pos, ◌+ℤ◌, ltb_ℤ}
use umewarden.Server.Db.{
  Attachment, Cipher, Db, storage_failed, M, pure, guard, execute, query, ◌>>=◌, ◌>>◌,
}
use umewarden.Server.Models.User.{retry}

unfoldable pub save : Attachment → M (Unit {0})
unfolding execute
save a =
    execute (λ db. record db { attachments = a ∷ filter (λ x. not (x.id == a.id)) db.attachments })

unfoldable pub delete : (Attachment → Bool) → Attachment → M (Unit {0})
unfolding retry execute
delete remove_file a = do
  retry
      (execute (λ db. record db { attachments = filter (λ x. not (x.id == a.id)) db.attachments }))
      10
  guard (remove_file a) storage_failed

unfoldable pub find_by_id : ℕ → Db → Option Attachment
find_by_id id db = find (λ x. x.id == id) db.attachments

unfoldable pub find_by_cipher : ℕ → Db → List Attachment
find_by_cipher cipher db = filter (λ x. x.cipher_uuid == cipher) db.attachments

unfoldable pub delete_each : (Attachment → Bool) → List Attachment → M (Unit {0})
unfolding delete
delete_each remove_file [] = pure tt
delete_each remove_file (a ∷ rest) = do delete remove_file a; delete_each remove_file rest

unfoldable pub delete_all_by_cipher : (Attachment → Bool) → ℕ → M (Unit {0})
unfolding delete_each find_by_cipher
delete_all_by_cipher remove_file cipher = do
  found ← query (find_by_cipher cipher)
  delete_each remove_file found

-- the join with the ciphers of the user
abbrev pub is_owner : ℕ → Option ℕ → Bool
is_owner user none = false
is_owner user (some u) = u == user

abbrev pub owner_of : ℕ → List Cipher → Option ℕ
owner_of cipher [] = none
owner_of cipher (c ∷ cs) = if c.uuid == cipher then c.user_uuid else owner_of cipher cs

unfoldable pub find_all_by_user : ℕ → Db → List Attachment
find_all_by_user user db =
    filter (λ a. is_owner user (owner_of a.cipher_uuid db.ciphers)) db.attachments

abbrev pub sum_sizes : List Attachment → ℤ
sum_sizes [] = pos 0
sum_sizes (a ∷ rest) = a.file_size +ℤ sum_sizes rest

-- `to_i64` of a sum that is no sum of negative sizes; above the range it is `i64::MAX`
unfoldable pub size_by_user : ℕ → Db → ℤ
unfolding find_all_by_user
size_by_user user db =
    let total = sum_sizes (find_all_by_user user db) in
    if ltb_ℤ total (pos (2 ^ 63)) then total else pos (2 ^ 63 - 1)

unfoldable pub count_by_user : ℕ → Db → ℕ
unfolding find_all_by_user
count_by_user user db = length (find_all_by_user user db)
