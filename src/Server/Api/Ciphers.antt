-- ===== src/Server/Api/Ciphers.antt =====
-- server/src/api/core/ciphers.rs: what is sent for a cipher, and how it is stored. The JSON values
-- (serde_json), the dates (chrono) and the configuration are fields of `Env`; the messages to the
-- other clients are not modelled, but for the revision that their arguments write. The calls of the
-- clock within one request are one instant.
pub mod Edit
pub mod Remove
pub mod Import
pub mod Stored
pub mod Requests
pub mod Found
pub mod EditKeeps
pub mod RemoveKeeps
pub mod ImportKeeps
pub mod Isolation
pub mod Placed
pub mod Moves
mod Tests
use umewarden.Prelude.{
  ℕ, ◌+◌, Bool, true, false, not, ◌&&◌, ◌||◌, Option, none, some, List, [], ◌∷◌, length, ltb, ◌==◌,
  if◌then◌else◌,
}
use umewarden.Prelude.Int.{ℤ, pos, negsuc}
use umewarden.Prelude.Text.{Text, utf8}
use umewarden.Server.Db.{
  Attachment, Cipher, Folder, Db, Result, ok, err, invalid_folder, stale_client, no_organizations,
  note_too_long, invalid_type, data_missing, panicked, M, pure, raise, guard, modify, query,
  require, ◌>>=◌, ◌>>◌,
}
use umewarden.Server.Models.Folder
use umewarden.Server.Models.Attachment
use umewarden.Server.Models.Archive
use umewarden.Server.Models.Cipher
use umewarden.Server.Models.Cipher.Json.{View}
use umewarden.Server.Models.Cipher.{Storage, update_users_revision, set_favorite}

pub record Env : Type 0 where
  pub storage : Storage
  pub view : View
  pub max_note_size : ℕ
  -- `NaiveDateTime::parse_from_str`
  pub parse_date : Text → Option ℕ
  -- the stored text of the fields, and of the data of a type; `none` where an `unwrap` panics
  pub clean_fields : Text → Option Text
  pub clean_data : Text → Option Text

-- `Attachments2Data`
pub record AttachmentData : Type 0 where
  pub file_name : Text
  pub key : Text

pub record CipherData : Type 0 where
  pub id : Option ℕ
  pub folder_id : Option ℕ
  pub organization_id : Option Text
  pub key : Option Text
  pub atype : ℕ
  pub name : Text
  pub notes : Option Text
  pub fields : Option Text
  pub login : Option Text
  pub secure_note : Option Text
  pub card : Option Text
  pub identity : Option Text
  pub ssh_key : Option Text
  pub favorite : Option Bool
  pub reprompt : Option ℤ
  pub password_history : Option Text
  pub attachments2 : Option (List (ℕ × AttachmentData))
  pub last_known_revision_date : Option Text
  pub archived_date : Option Text

-- whether a push is sent: `ut != UpdateType::None`
pub data UpdateType : Type 0 where
  none_ sync : UpdateType

abbrev pub is_sync : UpdateType → Bool
is_sync none_ = false
is_sync sync = true

abbrev pub is_some : {A : Type 0} → Option A → Bool
is_some none = false
is_some (some _) = true

-- `dt` is older than the row by more than a second
abbrev is_stale : Cipher → Option ℕ → Bool
is_stale c none = false
is_stale c (some dt) = ltb (dt + 1) c.updated_at

abbrev pub client_date : (Text → Option ℕ) → Option Text → Option ℕ
client_date parse none = none
client_date parse (some dt) = parse dt

abbrev pub is_too_long : ℕ → Option Text → Bool
is_too_long max none = false
is_too_long max (some note) = ltb max (length (utf8 note))

-- a folder that is named must be one of the user's
abbrev pub check_folder : Option ℕ → ℕ → M (Unit {0})
check_folder none user = pure tt
check_folder (some id) user = do
  found ← query (Folder.find_by_uuid_and_user id user)
  guard (is_some found) invalid_folder

-- the loop over `attachments2`: a missing attachment is passed over, one of another cipher ends it
unfoldable pub rotate_attachments : ℕ → List (ℕ × AttachmentData) → M (Unit {0})
rotate_attachments cipher [] = pure tt
rotate_attachments cipher ((id, attachment) ∷ rest) = do
  found ← query (Attachment.find_by_id id)
  elim found [
    | none ↦ rotate_attachments cipher rest
    | some saved ↦ if not (saved.cipher_uuid == cipher) then pure tt else (do
      Attachment.save
          (record saved { akey = some attachment.key; file_name = attachment.file_name })
      rotate_attachments cipher rest)
  ]

abbrev pub rotated : ℕ → Option (List (ℕ × AttachmentData)) → M (Unit {0})
rotated cipher none = pure tt
rotated cipher (some list) = rotate_attachments cipher list

abbrev pub type_data_opt : CipherData → M (Option Text)
type_data_opt data_ =
    if data_.atype == 1
    then pure data_.login
    else if data_.atype == 2
    then pure data_.secure_note
    else if data_.atype == 3
    then pure data_.card
    else if data_.atype == 4
    then pure data_.identity
    else if data_.atype == 5
    then pure data_.ssh_key
    else raise invalid_type

abbrev pub cleaned : (Text → Option Text) → Option Text → M (Option Text)
cleaned clean none = pure none
cleaned clean (some json) = do text ← require panicked (clean json); pure (some text)

-- only the two values of `RepromptType` are kept
abbrev valid_reprompt : Option ℤ → Option ℤ
valid_reprompt none = none
valid_reprompt (some (pos n)) = if n == 0 || n == 1 then some (pos n) else none
valid_reprompt (some (negsuc n)) = none

abbrev pub filled : Cipher → CipherData → Option Text → Text → ℕ → Cipher
filled c data_ fields type_data user = record c {
  user_uuid = some user;
  key = data_.key;
  name = data_.name;
  notes = data_.notes;
  fields = fields;
  data_ = type_data;
  password_history = data_.password_history;
  reprompt = valid_reprompt data_.reprompt;
}

abbrev pub archive_at : Option ℕ → ℕ → ℕ → ℕ → M (Unit {0})
archive_at none now user cipher = pure tt
archive_at (some dt) now user cipher = Archive.save now user cipher dt

module _ (env : Env) where
  -- behind the checks
  unfoldable pub store_cipher : ℕ → UpdateType → Cipher → CipherData → ℕ → M Cipher
  unfolding rotate_attachments
  store_cipher now ut c data_ user = do
    rotated c.uuid data_.attachments2
    type_data_opt ← type_data_opt data_
    json ← require data_missing type_data_opt
    type_data ← require panicked (env.clean_data json)
    fields ← cleaned env.clean_fields data_.fields
    saved ← Cipher.save env.storage now (filled c data_ fields type_data user)
    Cipher.move_to_folder now data_.folder_id user c.uuid
    set_favorite data_.favorite now user c.uuid
    archive_at (client_date env.parse_date data_.archived_date) now user c.uuid
    (if is_sync ut then update_users_revision now saved else pure tt)
    pure saved

  unfoldable pub update_cipher_from_data : ℕ → UpdateType → Cipher → CipherData → ℕ → M Cipher
  unfolding store_cipher
  update_cipher_from_data now ut c data_ user = do
    guard
        (not (is_sync ut && is_stale c (client_date env.parse_date data_.last_known_revision_date)))
        stale_client
    guard (not (is_some data_.organization_id)) no_organizations
    guard (not (is_too_long env.max_note_size data_.notes)) note_too_long
    check_folder data_.folder_id user
    store_cipher now ut c data_ user
