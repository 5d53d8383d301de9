-- ===== src/Server/Models/Cipher/Readable.antt =====
-- Whatever text a row stores, the values that clients rely on are shown with the type they expect.
use umewarden.Prelude.{
  ◌≡◌, refl, inl, inr, Bool, Bool-cases, true, false, ◌&&◌, All, if◌then◌else◌, ◌==◌,
}
use umewarden.Prelude.Text.{codes}
use umewarden.Server.Db.{Cipher}
use umewarden.Server.Json.{
  Value, null, boolean, number, other_number, string, array, object, Members, Reader, get, at,
}
use umewarden.Server.Models.Cipher.Shown.{
  fields_json, password_history_json, type_data_json, read_list, shown_note, shown_ssh, read_data,
  is_number_opt, is_filled, shown_login,
}
use umewarden.Server.Models.Cipher.Fields.{HasNumericType, IsHistoryEntry, fields-All, history-All}
use umewarden.Server.Models.Cipher.Uris.{IsUris, shown_login-IsUris}

abbrev IsLogin : Value → Type 0
IsLogin (object m) = IsUris (at (codes "uris") m)
IsLogin null = ⊥
IsLogin (boolean _) = ⊥
IsLogin (number _) = ⊥
IsLogin (other_number _) = ⊥
IsLogin (string _) = ⊥
IsLogin (array _) = ⊥

abbrev IsNote : Value → Type 0
IsNote (object m) = HasNumericType m
IsNote null = ⊥
IsNote (boolean _) = ⊥
IsNote (number _) = ⊥
IsNote (other_number _) = ⊥
IsNote (string _) = ⊥
IsNote (array _) = ⊥

-- null, or with its three parts
abbrev IsSshKey : Value → Type 0
IsSshKey (object m) =
    (is_filled (at (codes "keyFingerprint") m)
      && (is_filled (at (codes "privateKey") m) && is_filled (at (codes "publicKey") m)))
    ≡ true
IsSshKey null = Unit
IsSshKey (boolean _) = ⊥
IsSshKey (number _) = ⊥
IsSshKey (other_number _) = ⊥
IsSshKey (string _) = ⊥
IsSshKey (array _) = ⊥

abbrev IsObject : Value → Type 0
IsObject (object m) = Unit
IsObject null = ⊥
IsObject (boolean _) = ⊥
IsObject (number _) = ⊥
IsObject (other_number _) = ⊥
IsObject (string _) = ⊥
IsObject (array _) = ⊥

-- by whether the type is that of a login, of a secure note and of an SSH key
abbrev pub IsTypeData : Bool → Bool → Bool → Value → Type 0
IsTypeData true note ssh v = IsLogin v
IsTypeData false true ssh v = IsNote v
IsTypeData false false true v = IsSshKey v
IsTypeData false false false v = IsObject v

shown_note-IsNote : (m : Members) → IsNote (shown_note m)
unfolding shown_note
shown_note-IsNote m = elim (Bool-cases (is_number_opt (get (codes "type") m))) [
  | inl e ↦ rw (e, e) refl
  | inr e ↦ rw e refl
]

shown_ssh-IsSshKey : (m : Members) → IsSshKey (shown_ssh m)
unfolding shown_ssh
shown_ssh-IsSshKey m =
    elim (Bool-cases (
      is_filled (at (codes "keyFingerprint") m)
      && (is_filled (at (codes "privateKey") m) && is_filled (at (codes "publicKey") m)))) [
        | inl e ↦ rw (e, e) refl
        | inr e ↦ rw e tt
      ]

chosen :
    (reader : Reader) (login note ssh : Bool) (m : Members)
    → IsTypeData login note ssh (
        if login
        then object (shown_login reader m)
        else if note
        then shown_note m
        else if ssh
        then shown_ssh m
        else object m)
chosen reader true note ssh m = shown_login-IsUris reader m
chosen reader false true ssh m = shown_note-IsNote m
chosen reader false false true m = shown_ssh-IsSshKey m
chosen reader false false false m = tt

-- Whatever the stored texts are, also when they are no JSON, every shown field has a number as its
-- type, every shown entry of the password history has texts as its password and its date, no address
-- of a login has a text as its match, a secure note has a number as its type, an SSH key is null or
-- has its three parts, and the data of every other type is an object.
pub shown-IsReadable :
    (reader : Reader) (c : Cipher)
    → All HasNumericType (fields_json reader c)
      × (All IsHistoryEntry (password_history_json reader c)
          × IsTypeData (c.atype == 1) (c.atype == 2) (c.atype == 5) (type_data_json reader c))
unfolding fields_json password_history_json type_data_json
shown-IsReadable reader c = (
  fields-All (read_list reader c.fields),
  (
    history-All reader (read_list reader c.password_history),
    chosen reader (c.atype == 1) (c.atype == 2) (c.atype == 5) (read_data reader c.data_),
  ),
)
