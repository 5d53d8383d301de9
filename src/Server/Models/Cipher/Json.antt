-- ===== src/Server/Models/Cipher/Json.antt =====
-- `Cipher::to_json` and `CipherSyncData` of server/src/api/core/ciphers.rs: what the answer shows of a
-- cipher, looked up for this cipher, or in maps that are filled once for all ciphers of a user. The
-- answer is a record of the values that depend on the cipher. A map that is collected from pairs is
-- their list, in which the last pair with a key counts.
use umewarden.Prelude.{
  ℕ, Bool, true, not, ◌&&◌, Option, none, some, List, [], ◌∷◌, filter, map, all, leb, ◌==◌,
  if◌then◌else◌,
}
use umewarden.Server.Db.{
  Attachment, Cipher, FolderCipher, Db, storage_failed, invalid_type, M, pure, guard, ◌>>◌,
}
use umewarden.Server.Models.Attachment
use umewarden.Server.Models.Archive
use umewarden.Server.Models.Favorite
use umewarden.Server.Json.{Value, Members, Reader}
use umewarden.Server.Models.Cipher.{
  get_folder_uuid, is_user_folder, contains_id, get_access_restrictions,
}
use umewarden.Server.Models.Cipher.Shown.{
  fields_json, password_history_json, type_data_json, shown_reprompt,
}

pub record CipherJson : Type 0 where
  -- for the columns that are shown as they are
  pub cipher : Cipher
  pub reprompt : ℕ
  pub fields : List Members
  pub password_history : List Members
  -- under the key of the type
  pub type_data : Value
  pub edit : Bool
  pub view_password : Bool
  pub attachments : List Attachment
  pub folder_id : Option ℕ
  pub favorite : Bool
  pub archived_date : Option ℕ

pub record CipherSyncData : Type 0 where
  pub cipher_attachments : List Attachment
  pub cipher_folders : List (ℕ × ℕ)
  pub cipher_favorites : List ℕ
  pub cipher_archives : List (ℕ × ℕ)

-- `FolderCipher::find_by_user`
unfoldable pub folders_by_user : ℕ → Db → List (ℕ × ℕ)
folders_by_user user db =
    map (λ (r : FolderCipher). (r.cipher_uuid, r.folder_uuid))
      (filter (λ r. is_user_folder user r.folder_uuid db.folders) db.folders_ciphers)

-- `CipherSyncData::new`
unfoldable pub sync_data : ℕ → Db → CipherSyncData
unfolding folders_by_user Favorite.get_all_cipher_uuid_by_user Archive.find_by_user
    Attachment.find_all_by_user
sync_data user db = record {
  cipher_attachments = Attachment.find_all_by_user user db;
  cipher_folders = folders_by_user user db;
  cipher_favorites = Favorite.get_all_cipher_uuid_by_user user db;
  cipher_archives = Archive.find_by_user user db;
}

abbrev later_of : Option ℕ → Option ℕ → Option ℕ
later_of first none = first
later_of first (some v) = some v

-- `get` on a map that was collected
abbrev pub get_last : ℕ → List (ℕ × ℕ) → Option ℕ
get_last k [] = none
get_last k ((j, v) ∷ rest) = later_of (if j == k then some v else none) (get_last k rest)

-- the crates that an answer uses, and whether the storage has an address for a file
pub record View : Type 0 where
  pub reader : Reader
  pub get_url : Attachment → Bool

-- `(read_only, hide_passwords)`; the answer for a cipher of another user is the strictest
abbrev restrictions : Option (Bool × Bool × Bool) → Bool × Bool
restrictions none = (true, true)
restrictions (some (ro, hp, mn)) = (ro, hp)

module _ (view : View) where
  -- after the attachments, with the looked-up parts
  unfoldable pub print : ℕ → Cipher → List Attachment → Option ℕ → Bool → Option ℕ → M CipherJson
  unfolding fields_json password_history_json type_data_json
  print user c attachments folder favorite archived = do
    guard (all view.get_url attachments) storage_failed
    guard (leb 1 c.atype && leb c.atype 8) invalid_type
    pure (record {
      cipher = c;
      reprompt = shown_reprompt c.reprompt;
      fields = fields_json view.reader c;
      password_history = password_history_json view.reader c;
      type_data = type_data_json view.reader c;
      edit = not (restrictions (get_access_restrictions user c)).0;
      view_password = not (restrictions (get_access_restrictions user c)).1;
      attachments = attachments;
      folder_id = folder;
      favorite = favorite;
      archived_date = archived;
    })

  unfoldable pub to_json : ℕ → Cipher → M CipherJson
  unfolding print Attachment.find_by_cipher Favorite.is_favorite Archive.get_archived_at
      get_folder_uuid
  to_json user c db =
      print user c (Attachment.find_by_cipher c.uuid db) (get_folder_uuid user c.uuid db)
        (Favorite.is_favorite c.uuid user db) (Archive.get_archived_at c.uuid user db) db

  unfoldable pub to_json_sync : CipherSyncData → ℕ → Cipher → M CipherJson
  unfolding print
  to_json_sync sync user c =
      print user c (filter (λ a. a.cipher_uuid == c.uuid) sync.cipher_attachments)
        (get_last c.uuid sync.cipher_folders) (contains_id sync.cipher_favorites c.uuid)
        (get_last c.uuid sync.cipher_archives)
