-- ===== src/Server/Models/Cipher/Tests.antt =====
-- A cipher shown by both ways, and the theorem at a concrete input.
use umewarden.Prelude.{
  ◌≡◌, refl, true, Option, none, some, [], ◌∷◌, ◌==◌, All, arith, if◌then◌else◌,
}
use umewarden.Prelude.Int.{pos}
use umewarden.Prelude.Text.{Text, codes, text_eq}
use umewarden.Server.Json.{Value, null, number, string, array, object, nil, cons, end, member}
use umewarden.Server.Db.{Cipher, Db, empty}
use umewarden.Server.Models.Cipher
use umewarden.Server.Models.Cipher.Json.{View, sync_data, to_json, to_json_sync}
use umewarden.Server.Models.Cipher.Shown.{fields_json, password_history_json, type_data_json}
use umewarden.Server.Models.Cipher.Fields.{HasNumericType, IsHistoryEntry}
use umewarden.Server.Models.Cipher.Readable.{IsTypeData, shown-IsReadable}
use umewarden.Server.Models.Cipher.Sync.{to_json_sync-eq-to_json}

-- three texts that are read
abbrev read : Text → Option Value
read t =
    if text_eq t (codes "fields")
    then some (array (cons (object (member (codes "Type") (string (codes "2")) end)) nil))
    else if text_eq t (codes "history")
    then some (array (cons (object (member (codes "password") (string (codes "old")) end)) nil))
    else if text_eq t (codes "data")
    then some (object (member (codes "type") null end))
    else none

abbrev pub view : View
view = record {
  reader = record {
    from_str = read;
    to_lowercase = λ t. t;
    char_lowercase = λ c. (if c == 84 then 116 else c) ∷ [];
    format_rfc3339 = λ t. none;
  };
  get_url = λ a. true;
}

abbrev login : Cipher
login = record (Cipher.new 50 900 1 (codes "mail")) { user_uuid = some 1 }

abbrev vault : Db
vault = record empty {
  ciphers = Cipher.new 49 900 1 (codes "other") ∷ login ∷ [];
  folders =
      record { uuid = 3; created_at = 900; updated_at = 900; user_uuid = 1; name = codes "work" }
      ∷ [];
  folders_ciphers = record { cipher_uuid = 50; folder_uuid = 3 } ∷ [];
  favorites =
      record { user_uuid = 2; cipher_uuid = 50 } ∷ record { user_uuid = 1; cipher_uuid = 50 } ∷ [];
  archives = record { user_uuid = 1; cipher_uuid = 50; archived_at = 950 } ∷ [];
  attachments =
      record { id = 8; cipher_uuid = 50; file_name = codes "f"; file_size = pos 10; akey = none }
      ∷ [];
}

to_json_sync-eq-to_json_example :
    to_json_sync view (sync_data 1 vault) 1 login vault ≡ to_json view 1 login vault
unfolding Cipher.find_by_uuid
to_json_sync-eq-to_json_example =
    to_json_sync-eq-to_json view 1 login vault refl refl (omega arith) (omega arith)

abbrev stored_note : Cipher
stored_note = record (Cipher.new 51 900 2 (codes "note")) {
  fields = some (codes "fields");
  password_history = some (codes "history");
  data_ = codes "data";
}

-- The type "2" of the field is shown as a number, and the note without a numeric type as one of type 0.
note_fields : fields_json view.reader stored_note ≡ member (codes "type") (number 2) end ∷ []
unfolding fields_json umewarden.Server.Json.convert_members
note_fields = refl

note_data : type_data_json view.reader stored_note ≡ object (member (codes "type") (number 0) end)
unfolding type_data_json umewarden.Server.Json.convert_members
note_data = refl

shown-IsReadable_example :
    All HasNumericType (fields_json view.reader stored_note)
    × (All IsHistoryEntry (password_history_json view.reader stored_note)
        × IsTypeData
            (stored_note.atype == 1)
            (stored_note.atype == 2)
            (stored_note.atype == 5)
            (type_data_json view.reader stored_note))
shown-IsReadable_example = shown-IsReadable view.reader stored_note
