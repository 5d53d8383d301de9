-- ===== src/Server/Api/Ciphers/Tests.antt =====
-- Requests of two users on one vault, and the theorems at concrete inputs.
use umewarden.Prelude.{◌≡◌, refl, true, false, none, some, List, [], ◌∷◌}
use umewarden.Prelude.Text.{codes}
use umewarden.Server.Db.{Cipher, Db, Folder, err, empty, not_accessible, not_all_moved}
use umewarden.Server.Models.Cipher
use umewarden.Server.Models.Cipher.Tests.{view}
use umewarden.Server.Api.Ciphers.{Env, CipherData}
use umewarden.Server.Api.Ciphers.Edit.{put_cipher}
use umewarden.Server.Api.Ciphers.Remove.{hard_single, move_cipher_selected}
use umewarden.Server.Api.Ciphers.Requests.{put, delete, move, create}
use umewarden.Server.Api.Ciphers.Isolation.{Sent, serve_all, serve_all-find_by_uuid}
use umewarden.Server.Api.Ciphers.Moves.{move_nothing-IsPlacedIn}
use umewarden.Server.Api.Ciphers.Placed.{IsPlacedIn}
use umewarden.Server.Models.Folder

abbrev env : Env
env = record {
  storage = record {
    remove_file = λ a. true;
    violates = λ id db. false;
    cascade = λ id list. list;
  };
  view = view;
  max_note_size = 10000;
  parse_date = λ t. none;
  clean_fields = λ t. some t;
  clean_data = λ t. some t;
}

abbrev login : Cipher
login = record (Cipher.new 50 900 1 (codes "mail")) { user_uuid = some 1 }

abbrev note : Cipher
note = record (Cipher.new 51 900 2 (codes "note")) { user_uuid = some 1 }

abbrev other : Cipher
other = record (Cipher.new 49 900 1 (codes "other")) { user_uuid = some 2 }

abbrev work : Folder
work = record { uuid = 3; created_at = 900; updated_at = 900; user_uuid = 1; name = codes "work" }

abbrev vault : Db
vault = record empty { ciphers = other ∷ login ∷ note ∷ []; folders = work ∷ [] }

abbrev renamed : CipherData
renamed = record {
  id = none;
  folder_id = none;
  organization_id = none;
  key = none;
  atype = 1;
  name = codes "mine";
  notes = none;
  fields = none;
  login = some (codes "{}");
  secure_note = none;
  card = none;
  identity = none;
  ssh_key = none;
  favorite = none;
  reprompt = none;
  password_history = none;
  attachments2 = none;
  last_known_revision_date = none;
  archived_date = none;
}

put_cipher-foreign : (put_cipher env 1000 50 renamed 2 vault).0 ≡ err not_accessible
unfolding put_cipher Cipher.find_by_uuid
put_cipher-foreign = refl

abbrev requests : List Sent
requests =
    record { user = 2; now = 1000; request = put 50 renamed }
    ∷ record { user = 2; now = 1001; request = create 52 renamed }
    ∷ record { user = 2; now = 1002; request = delete hard_single 50 }
    ∷ record { user = 3; now = 1003; request = move none (50 ∷ 51 ∷ []) }
    ∷ []

serve_all-find_by_uuid_example : Cipher.find_by_uuid 50 (serve_all env requests vault) ≡ some login
unfolding Cipher.find_by_uuid
serve_all-find_by_uuid_example =
    serve_all-find_by_uuid env login vault requests
      ((refl, refl), ((refl, refl), ((refl, refl), ((refl, refl), tt)))) refl

-- two ciphers are moved, and the answer is that none of none were
move_nothing-IsPlacedIn_example :
    ((move_cipher_selected env 1000 (some 3) [] 1 vault).0 ≡ err (not_all_moved 2 0))
    × IsPlacedIn 3 (login ∷ note ∷ []) (move_cipher_selected env 1000 (some 3) [] 1 vault).1
unfolding Cipher.find_owned_by_user Folder.find_by_uuid_and_user
move_nothing-IsPlacedIn_example = move_nothing-IsPlacedIn env 1000 3 1 vault work refl refl
