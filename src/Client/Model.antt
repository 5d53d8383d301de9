-- ===== src/Client/Model.antt =====
-- client/src-tauri/src/model.rs: the items of a vault. `SensitiveString` is its text, and a uuid is a
-- number.
use umewarden.Prelude.{ℕ, Bool, Option, List}
use umewarden.Prelude.Int.{ℤ}
use umewarden.Prelude.Text.{Text}

pub data UriMatchType : Type 0 where
  domain host starts_with exact regular_expression never : UriMatchType

pub record LoginUri : Type 0 where
  pub uri : Text
  pub match : UriMatchType

pub record LoginData : Type 0 where
  pub username : Option Text
  pub password : Option Text
  pub totp : Option Text
  pub uris : List LoginUri

-- the data of a card and of an identity have no fields yet
pub data ItemKind : Type 0 where
  login : LoginData → ItemKind
  card identity secure_note : ItemKind

pub data FieldValue : Type 0 where
  text hidden : Text → FieldValue
  boolean : Bool → FieldValue

pub record CustomField : Type 0 where
  pub name : Text
  pub value : FieldValue
  pub linked_id : Option Text

pub record VaultItem : Type 0 where
  pub id : ℕ
  pub name : Text
  pub kind : ItemKind
  pub favorite : Bool
  pub folder_id : Option ℕ
  pub created_at : ℤ
  pub updated_at : ℤ
  pub fields : List CustomField
  pub notes : Option Text

pub record Folder : Type 0 where
  pub id : ℕ
  pub name : Text

pub data BackendKind : Type 0 where
  vaultwarden kdbx : BackendKind
