-- ===== src/Server/Api/Attachments/Tests.antt =====
-- An upload of 1000 bytes under a limit of 2 KiB, of which 500 bytes are used, and the theorem at it.
use umewarden.Prelude.{◌≡◌, refl, true, false, none, some, [], ◌∷◌}
use umewarden.Prelude.Int.{pos, ◌≤ℤ◌}
use umewarden.Prelude.Text.{codes}
use umewarden.Server.Db.{Cipher, Db, err, empty, limit_exceeded}
use umewarden.Server.Models.Attachment
use umewarden.Server.Models.Cipher
use umewarden.Server.Models.Cipher.Tests.{view}
use umewarden.Server.Api.Attachments.{Uploads, UploadData, in_bytes, save_attachment}
use umewarden.Server.Api.Attachments.Limit.{total}
use umewarden.Server.Api.Attachments.Total.{save_attachment-IsWithin}

abbrev uploads : Uploads
uploads = record {
  env = record {
    storage = record {
      remove_file = λ a. true;
      violates = λ id db. false;
      cascade = λ id list. list;
    };
    view = view;
    max_note_size = 10000;
    parse_date = λ t. none;
    clean_fields = λ t. some t;
    clean_data = λ t. some t;
  };
  user_attachment_limit = some (pos 2);
  save_temp_file = λ cipher file. true;
}

abbrev login : Cipher
login = record (Cipher.new 50 900 1 (codes "mail")) { user_uuid = some 1 }

abbrev vault : Db
vault = record empty {
  ciphers = login ∷ [];
  attachments =
      record { id = 8; cipher_uuid = 50; file_name = codes "f"; file_size = pos 500; akey = none }
      ∷ [];
}

abbrev file : UploadData
file = record { key = some (codes "k"); file_name = some (codes "g"); size = 1000 }

abbrev after : Db
after = (save_attachment uploads none 9 1000 50 file 1 vault).1

save_attachment-large :
    (save_attachment uploads none 9 1000 50 (record file { size = 1549 }) 1 vault).0
    ≡ err limit_exceeded
unfolding save_attachment Cipher.find_by_uuid Attachment.find_all_by_user
save_attachment-large = refl

save_attachment-IsWithin_example : total 1 after ≤ℤ in_bytes (pos 2)
unfolding save_attachment Cipher.find_by_uuid Attachment.find_by_id
save_attachment-IsWithin_example =
    save_attachment-IsWithin uploads 1 (pos 2) 9 1000 50 file vault after login refl refl refl
