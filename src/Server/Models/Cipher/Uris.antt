-- ===== src/Server/Models/Cipher/Uris.antt =====
-- The addresses of a shown login have no `match` that is a text.
use umewarden.Prelude.{ℕ, ◌≡◌, refl, ap, ◌∙◌, false, Option, none, some}
use umewarden.Prelude.Text.{Text, codes, text_eq, parse_uint}
use umewarden.Server.Json.{
  Value, null, boolean, number, other_number, string, array, object, Values, nil, cons, Members,
  Reader, insert, at, as_str,
}
use umewarden.Server.Models.Cipher.Shown.{
  or_else, match_value, shown_uri, shown_uris, uri_of, with_uris, with_revision,
  validate_and_format_date, shown_login,
}
use umewarden.Server.Models.Cipher.Fields.{get-insert, get-insert_other}

-- an address without a `match` that is a text
abbrev pub IsUri : Value → Type 0
IsUri (object m) = as_str (at (codes "match") m) ≡ none
IsUri null = Unit
IsUri (boolean _) = Unit
IsUri (number _) = Unit
IsUri (other_number _) = Unit
IsUri (string _) = Unit
IsUri (array _) = Unit

abbrev pub AllUris : Values → Type 0
AllUris nil = Unit
AllUris (cons v vs) = IsUri v × AllUris vs

abbrev pub IsUris : Value → Type 0
IsUris (array vs) = AllUris vs
IsUris null = Unit
IsUris (boolean _) = Unit
IsUris (number _) = Unit
IsUris (other_number _) = Unit
IsUris (string _) = Unit
IsUris (object _) = Unit

pub at-insert : (key : Text) (v : Value) (m : Members) → at key (insert key v m) ≡ v
at-insert key v m = ap (or_else null) (get-insert key v m)

pub at-insert_other :
    (key other : Text) (v : Value) (m : Members)
    → text_eq key other ≡ false
    → at other (insert key v m) ≡ at other m
at-insert_other key other v m h = ap (or_else null) (get-insert_other key other v m h)

matched :
    (o : Option ℕ) → as_str (elim o as (λ _. Value) [ none ↦ null | some n ↦ number n ]) ≡ none
matched none = refl
matched (some n) = refl

shown_object :
    (m : Members) (v : Value)
    → at (codes "match") m ≡ v
    → IsUri (elim (match_value v) as (λ _. Value) [
      | none ↦ object m
      | some w ↦ object (insert (codes "match") w m)
    ])
shown_object m null e = ap as_str e
shown_object m (boolean b) e = ap as_str e
shown_object m (number n) e = ap as_str e
shown_object m (other_number t) e = ap as_str e
shown_object m (array vs) e = ap as_str e
shown_object m (object ms) e = ap as_str e
shown_object m (string s) e =
    let w : Value = elim (parse_uint 255 s) [ none ↦ null | some n ↦ number n ] in
    ap as_str (at-insert (codes "match") w m) ∙ matched (parse_uint 255 s)

shown_uri-IsUri : (v : Value) → IsUri (shown_uri v)
unfolding shown_uri
shown_uri-IsUri null = tt
shown_uri-IsUri (boolean b) = tt
shown_uri-IsUri (number n) = tt
shown_uri-IsUri (other_number t) = tt
shown_uri-IsUri (string s) = tt
shown_uri-IsUri (array vs) = tt
shown_uri-IsUri (object m) = shown_object m (at (codes "match") m) refl

shown_uris-AllUris : (vs : Values) → AllUris (shown_uris vs)
unfolding shown_uris
shown_uris-AllUris nil = tt
shown_uris-AllUris (cons v vs) = (shown_uri-IsUri v, shown_uris-AllUris vs)

pub with_uris-IsUris :
    (v : Value) (m : Members) → at (codes "uris") m ≡ v → IsUris (at (codes "uris") (with_uris v m))
unfolding shown_uris
with_uris-IsUris null m e = rw (at-insert (codes "uris") null m) tt
with_uris-IsUris (boolean b) m e = rw e tt
with_uris-IsUris (number n) m e = rw e tt
with_uris-IsUris (other_number t) m e = rw e tt
with_uris-IsUris (string s) m e = rw e tt
with_uris-IsUris (object ms) m e = rw e tt
with_uris-IsUris (array nil) m e = rw e tt
with_uris-IsUris (array (cons v vs)) m e =
    let uris = array (shown_uris (cons v vs)) in
    rw
      (
        at-insert_other (codes "uri") (codes "uris") (uri_of (shown_uri v))
            (insert (codes "uris") uris m) refl,
        at-insert (codes "uris") uris m,
      )
      (shown_uris-AllUris (cons v vs))

pub with_revision-IsUris :
    (reader : Reader) (o : Option Text) (m : Members)
    → IsUris (at (codes "uris") m)
    → IsUris (at (codes "uris") (with_revision reader o m))
with_revision-IsUris reader none m h = h
with_revision-IsUris reader (some dt) m h =
    rw
      (at-insert_other (codes "passwordRevisionDate") (codes "uris")
        (string (validate_and_format_date reader dt)) m refl)
      h

pub shown_login-IsUris :
    (reader : Reader) (m : Members) → IsUris (at (codes "uris") (shown_login reader m))
unfolding shown_login
shown_login-IsUris reader m =
    let m' = insert (codes "uri") null m in
    let m'' = with_uris (at (codes "uris") m') m' in
    with_revision-IsUris reader (as_str (at (codes "passwordRevisionDate") m'')) m''
      (with_uris-IsUris (at (codes "uris") m') m' refl)
