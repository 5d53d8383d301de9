-- ===== src/Server/Json.antt =====
-- JSON values as the server reads them: `LowerCase` and the renaming of keys in server/src/util.rs.
-- An object is the list of its members; their order stands for nothing. Reading a text, and the
-- lower case of Unicode, are arguments.
use mathlib.Core.Option
use umewarden.Prelude.{ℕ, Bool, true, false, Option, none, some, List, [], ◌∷◌, ◌++◌, if◌then◌else◌}
use umewarden.Prelude.Text.{Text, codes, text_eq}

mutual
  pub data Value : Type 0 where
    null : Value
    boolean : Bool → Value
    -- a number without sign, fraction and exponent
    number : ℕ → Value
    -- another number, as it is written
    other_number : Text → Value
    string : Text → Value
    array : Values → Value
    object : Members → Value

  pub data Values : Type 0 where
    nil : Values
    cons : Value → Values → Values

  pub data Members : Type 0 where
    end : Members
    member : Text → Value → Members → Members

-- what is used of the crates serde_json and chrono, and of `str` and `char`
pub record Reader : Type 0 where
  pub from_str : Text → Option Value
  -- `str::to_lowercase` and `char::to_lowercase`
  pub to_lowercase : Text → Text
  pub char_lowercase : ℕ → Text
  -- `parse_from_rfc3339`, then `to_rfc3339_opts`
  pub format_rfc3339 : Text → Option Text

-- `Map::get`
unfoldable pub get : Text → Members → Option Value
get key end = none
get key (member k v rest) = if text_eq k key then some v else get key rest

-- `Map::insert`
unfoldable pub insert : Text → Value → Members → Members
insert key value end = member key value end
insert key value (member k v rest) =
    if text_eq k key then member key value rest else member k v (insert key value rest)

-- indexing by a key, of a value that is not changed
abbrev pub at : Text → Members → Value
at key m = elim (get key m) [ none ↦ null | some v ↦ v ]

abbrev pub is_number : Value → Bool
is_number (number _) = true
is_number (other_number _) = true
is_number null = false
is_number (boolean _) = false
is_number (string _) = false
is_number (array _) = false
is_number (object _) = false

-- `as_str`
abbrev pub as_str : Value → Option Text
as_str (string s) = some s
as_str null = none
as_str (boolean _) = none
as_str (number _) = none
as_str (other_number _) = none
as_str (array _) = none
as_str (object _) = none

module _ (reader : Reader) where
  unfoldable pub lcase_first : Text → Text
  lcase_first [] = []
  lcase_first (c ∷ s) = reader.char_lowercase c ++ s

  unfoldable pub process_json_key : Text → Text
  unfolding lcase_first
  process_json_key key =
      if text_eq (reader.to_lowercase key) (codes "ssn") then codes "ssn" else lcase_first key

  unfoldable mutual
    unfolding process_json_key insert

    pub convert_json_key_lcase_first : Value → Value
    convert_json_key_lcase_first null = null
    convert_json_key_lcase_first (boolean b) = boolean b
    convert_json_key_lcase_first (number n) = number n
    convert_json_key_lcase_first (other_number t) = other_number t
    convert_json_key_lcase_first (string s) = string s
    convert_json_key_lcase_first (array vs) = array (convert_values vs)
    convert_json_key_lcase_first (object ms) = object (convert_members ms end)

    pub convert_values : Values → Values
    convert_values nil = nil
    convert_values (cons v vs) = cons (convert_json_key_lcase_first v) (convert_values vs)

    -- inserts the converted members into the map
    pub convert_members : Members → Members → Members
    convert_members end acc = acc
    convert_members (member k v rest) acc =
        convert_members rest (insert (process_json_key k) (convert_json_key_lcase_first v) acc)

  -- `from_str::<LowerCase<Value>>`: the flattened field takes an object
  unfoldable pub lower_case : Value → Option Members
  lower_case (object ms) = some (convert_members ms end)
  lower_case null = none
  lower_case (boolean _) = none
  lower_case (number _) = none
  lower_case (other_number _) = none
  lower_case (string _) = none
  lower_case (array _) = none

  unfoldable pub lower_cases : Values → Option (List Members)
  unfolding lower_case
  lower_cases nil = some []
  lower_cases (cons v vs) =
      let rest = lower_cases vs in
      elim (lower_case v) [ none ↦ none | some m ↦ Option.map (◌∷◌ m) rest ]

  -- `from_str::<Vec<LowerCase<Value>>>`
  unfoldable pub lower_case_list : Value → Option (List Members)
  unfolding lower_cases
  lower_case_list (array vs) = lower_cases vs
  lower_case_list (object _) = none
  lower_case_list null = none
  lower_case_list (boolean _) = none
  lower_case_list (number _) = none
  lower_case_list (other_number _) = none
  lower_case_list (string _) = none
