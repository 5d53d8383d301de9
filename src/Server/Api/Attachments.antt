-- ===== src/Server/Api/Attachments.antt =====
-- server/src/api/core/ciphers.rs: the uploads of attachments and their limits. Sizes are i64, and the
-- file that a request carries is its size, its name and the key that comes with it.
pub mod Limit
pub mod Total
mod Tests
use umewarden.Prelude.{
  ℕ, ◌+◌, ◌-◌, ◌*◌, ◌^◌, Bool, true, false, not, ◌&&◌, ◌||◌, Option, none, some, List, [], ◌∷◌, ltb,
  leb, ◌==◌, if◌then◌else◌,
}
use umewarden.Prelude.Int.{ℤ, pos, negsuc, ◌+ℤ◌, ◌-ℤ◌, ltb_ℤ, sub_ℕ}
use umewarden.Prelude.Text.{Text}
use umewarden.Server.Db.{
  Attachment, Cipher, Db, Result, ok, err, cipher_missing, not_accessible, attachment_missing,
  other_cipher, storage_failed, panicked, attachments_disabled, size_overflow, limit_reached,
  limit_exceeded, size_mismatch, no_filename, no_key, negative_size, not_owned, M, pure, raise,
  guard, query, require, ◌>>=◌, ◌>>◌,
}
use umewarden.Server.Models.Attachment
use umewarden.Server.Models.Cipher
use umewarden.Server.Models.Cipher.{update_users_revision}
use umewarden.Server.Models.Cipher.Json.{CipherJson, to_json}
use umewarden.Server.Api.Ciphers.{Env}
use umewarden.Server.Api.Ciphers.Edit.{find_writable, find_accessible}
use umewarden.Server.Api.Ciphers.Remove.{delete_cipher_attachment_by_id}

-- the result of a checked operation on i64
abbrev pub checked : ℤ → Option ℤ
checked (pos n) = if ltb n (2 ^ 63) then some (pos n) else none
checked (negsuc n) = if ltb n (2 ^ 63) then some (negsuc n) else none

-- `limit_kb * 1024`
abbrev pub in_bytes : ℤ → ℤ
in_bytes (pos n) = pos (n * 1024)
in_bytes (negsuc n) = sub_ℕ 0 ((n + 1) * 1024)

abbrev pub and_then : Option ℤ → (ℤ → Option ℤ) → Option ℤ
and_then none f = none
and_then (some a) f = f a

abbrev pub is_zero : ℤ → Bool
is_zero (pos n) = n == 0
is_zero (negsuc n) = false

-- what is left of the limit for one file
abbrev pub left_of : ℤ → ℤ → ℤ → Option ℤ
left_of limit_kb used adjust =
    and_then (checked (in_bytes limit_kb))
      (λ l. and_then (checked (l -ℤ used)) (λ l'. checked (l' +ℤ adjust)))

abbrev pub positive : Option ℤ → Result (Option ℤ)
positive none = err size_overflow
positive (some left) = if ltb_ℤ (pos 0) left then ok (some left) else err limit_reached

-- by the limit of the configuration, what the owner uses, and the size that is already counted
unfoldable pub size_limit : Option ℤ → ℤ → ℤ → Result (Option ℤ)
unfolding ◌+ℤ◌ ◌-ℤ◌
size_limit none used adjust = ok none
size_limit (some limit_kb) used adjust =
    if is_zero limit_kb then err attachments_disabled else positive (left_of limit_kb used adjust)

-- `size > size_limit`
abbrev pub is_over : Option ℤ → ℤ → Bool
is_over none size = false
is_over (some left) size = ltb_ℤ left size

abbrev pub to_m : {A : Type 0} → Result A → M A
to_m r db = (r, db)

-- an error becomes a panic
abbrev pub expect : M (Unit {0}) → M (Unit {0})
expect m db = elim (m db).0 [ ok _ ↦ (ok tt, (m db).1) | err _ ↦ (err panicked, (m db).1) ]

pub record UploadData : Type 0 where
  pub key : Option Text
  pub file_name : Option Text
  -- `data.len()`, a u64
  pub size : ℕ

-- for this request: the limit, and whether the file is written
pub record Uploads : Type 0 where
  pub env : Env
  pub user_attachment_limit : Option ℤ
  pub save_temp_file : ℕ → ℕ → Bool

abbrev pub leeway : ℤ
leeway = pos 1048576

-- the size that the first request of the v2 API has counted
abbrev pub size_adjust : Option Attachment → ℤ
size_adjust none = pos 0
size_adjust (some a) = a.file_size

module _ (up : Uploads) where
  -- v2: the size must be near the announced one, and is corrected
  unfoldable pub check_announced : Attachment → ℤ → M (Unit {0})
  unfolding Attachment.save Attachment.delete ◌+ℤ◌ ◌-ℤ◌
  check_announced a size = do
    max_size ← require size_overflow (checked (a.file_size +ℤ leeway))
    min_size ← require size_overflow (checked (a.file_size -ℤ leeway))
    if not (ltb_ℤ size min_size) && not (ltb_ℤ max_size size)
        then (if ltb_ℤ size a.file_size || ltb_ℤ a.file_size size
            then expect (Attachment.save (record a { file_size = size }))
            else pure tt)
        else (λ db. (err size_mismatch, (Attachment.delete up.env.storage.remove_file a db).1))

  -- the legacy API: the row is created
  unfoldable pub create_attachment : ℕ → ℕ → UploadData → ℤ → M (Unit {0})
  unfolding Attachment.save
  create_attachment file_id cipher_id data_ size = do
    name ← require no_filename data_.file_name
    key ← require no_key data_.key
    expect (
        Attachment.save (record {
          id = file_id;
          cipher_uuid = cipher_id;
          file_name = name;
          file_size = size;
          akey = some key;
        }))

  abbrev pub row_of : Option Attachment → ℕ → ℕ → UploadData → ℤ → M (Unit {0})
  row_of none fresh_id cipher_id data_ size = create_attachment fresh_id cipher_id data_ size
  row_of (some a) fresh_id cipher_id data_ size = check_announced a size

  abbrev pub file_id : Option Attachment → ℕ → ℕ
  file_id none fresh_id = fresh_id
  file_id (some a) fresh_id = a.id

  -- how much of the limit the owner uses is read only where there is a limit other than 0; reading it
  -- has no effect
  unfoldable pub save_attachment : Option Attachment → ℕ → ℕ → ℕ → UploadData → ℕ → M Cipher
  unfolding size_limit check_announced create_attachment Attachment.size_by_user
  save_attachment attachment fresh_id now cipher_id data_ user = do
    size ← require size_overflow (checked (pos data_.size))
    c ← find_writable cipher_id user
    owner ← require not_owned c.user_uuid
    used ← query (Attachment.size_by_user owner)
    limit ← to_m (size_limit up.user_attachment_limit used (size_adjust attachment))
    guard (not (is_over limit size)) limit_exceeded
    row_of attachment fresh_id cipher_id data_ size
    guard (up.save_temp_file cipher_id (file_id attachment fresh_id)) storage_failed
    update_users_revision now c
    pure c

  -- the answer's id and the cipher
  unfoldable pub post_attachment_v2 : ℕ → ℕ → Text → ℤ → Text → ℕ → M (ℕ × CipherJson)
  unfolding Attachment.save
  post_attachment_v2 fresh_id cipher_id file_name file_size key user = do
    c ← find_writable cipher_id user
    guard (not (ltb_ℤ file_size (pos 0))) negative_size
    expect (
        Attachment.save (record {
          id = fresh_id;
          cipher_uuid = c.uuid;
          file_name = file_name;
          file_size = file_size;
          akey = some key;
        }))
    json ← to_json up.env.view user c
    pure (fresh_id, json)

  abbrev pub find_of : ℕ → ℕ → M Attachment
  find_of cipher_id attachment_id = do
    found ← query (Attachment.find_by_id attachment_id)
    a ← require attachment_missing found
    guard (cipher_id == a.cipher_uuid) other_cipher
    pure a

  unfoldable pub post_attachment_v2_data : ℕ → ℕ → ℕ → UploadData → ℕ → M (Unit {0})
  unfolding save_attachment Attachment.find_by_id
  post_attachment_v2_data now cipher_id attachment_id data_ user = do
    a ← find_of cipher_id attachment_id
    _ ← save_attachment (some a) a.id now cipher_id data_ user
    pure tt

  -- also `post_attachment_admin`
  unfoldable pub post_attachment : ℕ → ℕ → ℕ → UploadData → ℕ → M CipherJson
  unfolding save_attachment
  post_attachment fresh_id now cipher_id data_ user = do
    c ← save_attachment none fresh_id now cipher_id data_ user
    to_json up.env.view user c

  unfoldable pub post_attachment_share : ℕ → ℕ → ℕ → ℕ → UploadData → ℕ → M CipherJson
  unfolding post_attachment
  post_attachment_share fresh_id now cipher_id attachment_id data_ user = do
    _ ← delete_cipher_attachment_by_id up.env now cipher_id attachment_id user
    post_attachment fresh_id now cipher_id data_ user

  unfoldable pub get_attachment : ℕ → ℕ → ℕ → M Attachment
  unfolding Attachment.find_by_id
  get_attachment cipher_id attachment_id user = do
    c ← find_accessible cipher_id user
    a ← find_of cipher_id attachment_id
    guard (up.env.view.get_url a) storage_failed
    pure a
