-- ===== src/Server/Models/Cipher/Shown.antt =====
-- server/src/db/models/cipher.rs, `Cipher::to_json`: what is shown of the JSON texts that a row
-- stores. Values that clients cannot read are repaired.
use mathlib.Core.Option
use umewarden.Prelude.{
  ℕ, Bool, true, false, ◌&&◌, Option, none, some, List, [], ◌∷◌, ◌==◌, if◌then◌else◌,
}
use umewarden.Prelude.Int.{ℤ, pos, negsuc}
use umewarden.Prelude.Text.{Text, codes, parse_uint}
use umewarden.Server.Db.{Cipher}
use umewarden.Server.Json.{
  Value, null, boolean, number, other_number, string, array, object, Values, nil, cons, Members,
  end, member, Reader, get, insert, at, is_number, as_str, lower_case, lower_case_list,
}

abbrev pub or_else : {A : Type 0} → A → Option A → A
or_else a none = a
or_else a (some b) = b

-- `parse::<u8>().unwrap_or(1)`
abbrev type_num : Text → ℕ
type_num t = or_else 1 (parse_uint 255 t)

-- the `type` that is stored, repaired
abbrev pub field_type : Option Value → Value
field_type (some (number n)) = number n
field_type (some (other_number t)) = other_number t
field_type (some (string t)) = number (type_num t)
field_type (some null) = number 1
field_type (some (boolean _)) = number 1
field_type (some (array _)) = number 1
field_type (some (object _)) = number 1
field_type none = number 1

-- writing the number that is there again changes nothing
unfoldable pub shown_field : Members → Members
unfolding get insert parse_uint
shown_field f = insert (codes "type") (field_type (get (codes "type") f)) f

abbrev pub shown_fields : List Members → List Members
shown_fields [] = []
shown_fields (f ∷ fs) = shown_field f ∷ shown_fields fs

abbrev pub is_string : Option Value → Bool
is_string none = false
is_string (some v) = elim (as_str v) [ none ↦ false | some _ ↦ true ]

abbrev epoch : Text
epoch = codes "1970-01-01T00:00:00.000000Z"

module _ (reader : Reader) where
  abbrev pub validate_and_format_date : Text → Text
  validate_and_format_date dt = or_else epoch (reader.format_rfc3339 dt)

  abbrev pub last_used : Option Value → Text
  last_used none = epoch
  last_used (some v) = elim (as_str v) [ none ↦ epoch | some l ↦ validate_and_format_date l ]

  unfoldable pub shown_history : List Members → List Members
  unfolding get insert
  shown_history [] = []
  shown_history (d ∷ ds) =
      let rest = shown_history ds in
      if is_string (get (codes "password") d)
      then insert (codes "lastUsedDate") (string (last_used (get (codes "lastUsedDate") d))) d
        ∷ rest
      else rest

  -- what a stored text reads as, if it does
  abbrev pub read_list : Option Text → Option (List Members)
  read_list none = none
  read_list (some s) = elim (reader.from_str s) [ none ↦ none | some v ↦ lower_case_list reader v ]

  unfoldable pub fields_json : Cipher → List Members
  unfolding shown_field lower_case_list
  fields_json c = or_else [] (Option.map shown_fields (read_list c.fields))

  unfoldable pub password_history_json : Cipher → List Members
  unfolding shown_history lower_case_list
  password_history_json c = or_else [] (Option.map shown_history (read_list c.password_history))

  unfoldable pub read_data : Text → Members
  unfolding lower_case
  read_data s = elim (reader.from_str s) [ none ↦ end | some v ↦ or_else end (lower_case reader v) ]

-- `match` as a text becomes a number, or null
abbrev pub match_value : Value → Option Value
match_value v = elim (as_str v) [
  | none ↦ none
  | some s ↦ some (elim (parse_uint 255 s) [ none ↦ null | some n ↦ number n ])
]

-- an element of `uris`, which may be no object
unfoldable pub shown_uri : Value → Value
unfolding get insert parse_uint
shown_uri (object m) = elim (match_value (at (codes "match") m)) [
  | none ↦ object m
  | some v ↦ object (insert (codes "match") v m)
]
shown_uri null = null
shown_uri (boolean b) = boolean b
shown_uri (number n) = number n
shown_uri (other_number t) = other_number t
shown_uri (string s) = string s
shown_uri (array vs) = array vs

unfoldable pub shown_uris : Values → Values
unfolding shown_uri
shown_uris nil = nil
shown_uris (cons v vs) = cons (shown_uri v) (shown_uris vs)

-- `uris[0]["uri"]`
unfoldable pub uri_of : Value → Value
unfolding get
uri_of (object m) = at (codes "uri") m
uri_of null = null
uri_of (boolean _) = null
uri_of (number _) = null
uri_of (other_number _) = null
uri_of (string _) = null
uri_of (array _) = null

-- `uris` is there as null when it was missing; the first address also stands alone
abbrev pub with_uris : Value → Members → Members
with_uris (array (cons v vs)) m =
    insert (codes "uri") (uri_of (shown_uri v))
      (insert (codes "uris") (array (shown_uris (cons v vs))) m)
with_uris (array nil) m = m
with_uris null m = insert (codes "uris") null m
with_uris (boolean _) m = m
with_uris (number _) m = m
with_uris (other_number _) m = m
with_uris (string _) m = m
with_uris (object _) m = m

abbrev pub is_number_opt : Option Value → Bool
is_number_opt none = false
is_number_opt (some v) = is_number v

abbrev pub is_filled : Value → Bool
is_filled v = elim (as_str v) [ none ↦ false | some s ↦ (elim s [ [] ↦ false | ◌∷◌ _ _ ↦ true ]) ]

-- a secure note without a numeric type is shown as one of type 0
unfoldable pub shown_note : Members → Value
unfolding get
shown_note m =
    if is_number_opt (get (codes "type") m)
    then object m
    else object (member (codes "type") (number 0) end)

-- an SSH key lacking a part is shown as null
unfoldable pub shown_ssh : Members → Value
unfolding get
shown_ssh m =
    if is_filled (at (codes "keyFingerprint") m)
      && (is_filled (at (codes "privateKey") m) && is_filled (at (codes "publicKey") m))
    then object m
    else null

module _ (reader : Reader) where
  abbrev pub with_revision : Option Text → Members → Members
  with_revision none m = m
  with_revision (some dt) m =
      insert (codes "passwordRevisionDate") (string (validate_and_format_date reader dt)) m

  unfoldable pub shown_login : Members → Members
  unfolding get insert shown_uris uri_of
  shown_login m =
      let m' = insert (codes "uri") null m in
      let m'' = with_uris (at (codes "uris") m') m' in
      with_revision (as_str (at (codes "passwordRevisionDate") m'')) m''

  unfoldable pub type_data_json : Cipher → Value
  unfolding read_data shown_login shown_note shown_ssh
  type_data_json c =
      let m = read_data reader c.data_ in
      if c.atype == 1
      then object (shown_login m)
      else if c.atype == 2
      then shown_note m
      else if c.atype == 5
      then shown_ssh m
      else object m

-- only the two values of `RepromptType` are shown
abbrev pub shown_reprompt : Option ℤ → ℕ
shown_reprompt none = 0
shown_reprompt (some (pos n)) = if n == 1 then 1 else 0
shown_reprompt (some (negsuc _)) = 0
