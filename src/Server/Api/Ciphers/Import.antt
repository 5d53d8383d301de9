-- ===== src/Server/Api/Ciphers/Import.antt =====
-- server/src/api/core/ciphers.rs and `Cipher::validate_cipher_data`: importing ciphers and folders. Each
-- of them comes with the uuid that the server draws for it.
use umewarden.Prelude.{
  ℕ, suc, Bool, true, false, not, ◌&&◌, ◌||◌, Option, none, some, List, [], ◌∷◌, get_elem?, all,
  if◌then◌else◌,
}
use umewarden.Prelude.Text.{Text, codes}
use umewarden.Server.Db.{Folder, invalid_import, M, pure, guard, query, ◌>>=◌, ◌>>◌}
use umewarden.Server.Json.{
  Value, null, boolean, number, other_number, string, array, object, Values, nil, cons, get, as_str,
}
use umewarden.Server.Models.User.{update_revision_impl}
use umewarden.Server.Models.Folder
use umewarden.Server.Models.Cipher
use umewarden.Server.Models.Cipher.{contains_id}
use umewarden.Server.Models.Cipher.Json.{get_last}
use umewarden.Server.Api.Ciphers.{Env, CipherData, none_, is_too_long, update_cipher_from_data}

pub record FolderData : Type 0 where
  pub name : Text
  pub id : Option ℕ

-- with the uuids, and the relations from ciphers to folders by their places
pub record ImportData : Type 0 where
  pub ciphers : List (ℕ × CipherData)
  pub folders : List (ℕ × FolderData)
  pub folder_relationships : List (ℕ × ℕ)

-- a password that is there and no text
abbrev pub is_other : Option Value → Bool
is_other none = false
is_other (some v) = elim (as_str v) [ none ↦ true | some _ ↦ false ]

unfoldable pub has_other : Values → Bool
unfolding get
has_other nil = false
has_other (cons (object m) rest) = is_other (get (codes "password") m) || has_other rest
has_other (cons null rest) = has_other rest
has_other (cons (boolean _) rest) = has_other rest
has_other (cons (number _) rest) = has_other rest
has_other (cons (other_number _) rest) = has_other rest
has_other (cons (string _) rest) = has_other rest
has_other (cons (array _) rest) = has_other rest

abbrev pub has_bad_history : Option Value → Bool
has_bad_history (some (array vs)) = has_other vs
has_bad_history (some null) = false
has_bad_history (some (boolean _)) = false
has_bad_history (some (number _)) = false
has_bad_history (some (other_number _)) = false
has_bad_history (some (string _)) = false
has_bad_history (some (object _)) = false
has_bad_history none = false

abbrev pub read_history : (Text → Option Value) → Option Text → Option Value
read_history from_str none = none
read_history from_str (some t) = from_str t

-- the folder that is there, or none
abbrev pub chosen : List ℕ → Option ℕ → Option ℕ
chosen existing none = none
chosen existing (some id) = if contains_id existing id then some id else none

abbrev pub folder_uuids : List Folder → List ℕ
folder_uuids [] = []
folder_uuids (f ∷ fs) = f.uuid ∷ folder_uuids fs

-- `relations_map.get(&index)`, then the folder at that place
abbrev pub folder_at : Option ℕ → List ℕ → Option ℕ
folder_at none folders = none
folder_at (some i) folders = get_elem? folders i

module _ (env : Env) where
  abbrev pub is_valid : ℕ × CipherData → Bool
  is_valid (_, d) =
      not (is_too_long env.max_note_size d.notes)
      && not (has_bad_history (read_history env.view.reader.from_str d.password_history))

  unfoldable pub validate_cipher_data : List (ℕ × CipherData) → M (Unit {0})
  unfolding has_other
  validate_cipher_data list = guard (all is_valid list) invalid_import

  unfoldable pub import_folders : ℕ → ℕ → List ℕ → List (ℕ × FolderData) → M (List ℕ)
  unfolding Folder.save
  import_folders now user existing [] = pure []
  import_folders now user existing ((fresh_id, f) ∷ rest) = do
    id ← elim (chosen existing f.id) [
      | some id ↦ pure id
      | none ↦ (do saved ← Folder.save now (Folder.new fresh_id now user f.name); pure saved.uuid)
    ]
    ids ← import_folders now user existing rest
    pure (id ∷ ids)

  unfoldable pub import_ciphers :
      ℕ → ℕ → List ℕ → List (ℕ × ℕ) → ℕ → List (ℕ × CipherData) → M (Unit {0})
  unfolding update_cipher_from_data
  import_ciphers now user folders relations index [] = pure tt
  import_ciphers now user folders relations index ((fresh_id, d) ∷ rest) = do
    _ ←
        update_cipher_from_data env now none_ (Cipher.new fresh_id now d.atype d.name)
          (record d { folder_id = folder_at (get_last index relations) folders }) user
    import_ciphers now user folders relations (suc index) rest

  unfoldable pub post_ciphers_import : ℕ → ImportData → ℕ → M (Unit {0})
  unfolding validate_cipher_data import_folders import_ciphers Folder.find_by_user
  post_ciphers_import now data_ user = do
    validate_cipher_data data_.ciphers
    found ← query (Folder.find_by_user user)
    folders ← import_folders now user (folder_uuids found) data_.folders
    import_ciphers now user folders data_.folder_relationships 0 data_.ciphers
    update_revision_impl user now
