-- ===== src/Server/Models/Cipher/Fields.antt =====
-- Whatever text a row stores, the values that clients rely on are shown with the type they expect.
use mathlib.Core.Option
use umewarden.Prelude.{
  ◌≡◌, refl, inl, inr, Bool-cases, true, false, Option, none, some, List, [], ◌∷◌, All, arith,
}
use umewarden.Prelude.Text.{Text, codes, text_eq}
use umewarden.Server.Json.{
  Value, null, boolean, number, other_number, string, array, object, Members, end, member, Reader,
  get, insert, is_number,
}
use umewarden.Server.Models.Cipher.Shown.{
  shown_field, shown_fields, field_type, shown_history, is_string, last_used, or_else,
  is_number_opt,
}

abbrev pub HasNumericType : Members → Type 0
HasNumericType m = is_number_opt (get (codes "type") m) ≡ true

abbrev pub IsHistoryEntry : Members → Type 0
IsHistoryEntry m =
    (is_string (get (codes "password") m) ≡ true)
    × (is_string (get (codes "lastUsedDate") m) ≡ true)

text_eq_self : (t : Text) → text_eq t t ≡ true
text_eq_self [] = refl
text_eq_self (c ∷ t) = ground (arith, text_eq_self t)

pub text_eq_sound : (s t : Text) → text_eq s t ≡ true → s ≡ t
text_eq_sound [] [] h = refl
text_eq_sound [] (c ∷ t) h = absurd (ground (arith, h))
text_eq_sound (a ∷ s) [] h = absurd (ground (arith, h))
text_eq_sound (a ∷ s) (b ∷ t) h = ground (arith, h, text_eq_sound s t)

pub get-insert : (key : Text) (v : Value) (m : Members) → get key (insert key v m) ≡ some v
unfolding get insert
get-insert key v end = rw (text_eq_self key) refl
get-insert key v (member k w rest) = elim (Bool-cases (text_eq k key)) [
  | inl e ↦ rw (e, text_eq_self key) refl
  | inr e ↦ rw (e, e) (get-insert key v rest)
]

pub get-insert_other :
    (key other : Text) (v : Value) (m : Members)
    → text_eq key other ≡ false
    → get other (insert key v m) ≡ get other m
unfolding get insert
get-insert_other key other v end h = rw h refl
get-insert_other key other v (member k w rest) h = elim (Bool-cases (text_eq k key)) [
  | inl e ↦
      let same = text_eq_sound k key e in
      let apart : text_eq k other ≡ false = rw same h in rw (e, h, apart) refl
  | inr e ↦ elim (Bool-cases (text_eq k other)) [
    | inl o ↦ rw (e, o) refl
    | inr o ↦ rw (e, o) (get-insert_other key other v rest h)
  ]
]

field_type-number : (o : Option Value) → is_number (field_type o) ≡ true
field_type-number none = refl
field_type-number (some null) = refl
field_type-number (some (boolean b)) = refl
field_type-number (some (number n)) = refl
field_type-number (some (other_number t)) = refl
field_type-number (some (string s)) = refl
field_type-number (some (array vs)) = refl
field_type-number (some (object m)) = refl

shown_fields-All : (list : List Members) → All HasNumericType (shown_fields list)
unfolding shown_field
shown_fields-All [] = tt
shown_fields-All (f ∷ fs) = (
  rw (get-insert (codes "type") (field_type (get (codes "type") f)) f)
      (field_type-number (get (codes "type") f)),
  shown_fields-All fs,
)

shown_history-All :
    (reader : Reader) (list : List Members) → All IsHistoryEntry (shown_history reader list)
unfolding shown_history
shown_history-All reader [] = tt
shown_history-All reader (d ∷ ds) = elim (Bool-cases (is_string (get (codes "password") d))) [
  | inl e ↦ rw e (
    (
      rw
          (get-insert_other (codes "lastUsedDate") (codes "password")
            (string (last_used reader (get (codes "lastUsedDate") d))) d refl)
          e,
      rw
          (get-insert (codes "lastUsedDate")
            (string (last_used reader (get (codes "lastUsedDate") d))) d)
          refl,
    ),
    shown_history-All reader ds,
  )
  | inr e ↦ rw e (shown_history-All reader ds)
]

pub fields-All :
    (o : Option (List Members)) → All HasNumericType (or_else [] (Option.map shown_fields o))
fields-All none = tt
fields-All (some list) = shown_fields-All list

pub history-All :
    (reader : Reader) (o : Option (List Members))
    → All IsHistoryEntry (or_else [] (Option.map (shown_history reader) o))
history-All reader none = tt
history-All reader (some list) = shown_history-All reader list
