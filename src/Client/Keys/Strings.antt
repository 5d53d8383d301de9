-- ===== src/Client/Keys/Strings.antt =====
-- Printing and parsing encrypted strings.
use mathlib.Core.List.{append-nil}
use umewarden.Prelude.{
  ℕ, ◌≡◌, refl, ap, ◌∙◌, Bool-cases, false, none, some, inl, inr, ◌⊎◌, List, [], ◌∷◌, ◌++◌, All,
  arith, ◌==◌,
}
use umewarden.Prelude.Text.{Text, split_once, split, parse_uint, decimal_fuel}
use umewarden.Client.{ok, returned_by, ok_or}
use umewarden.Client.Keys.{
  Crates, EncString, decimal, b64_decode, parse_2, parse_0, parse_parts, parse, to_string,
}

-- What the program relies on of base64: the decoder reads what the encoder wrote, and the alphabet
-- has no bar.
pub record IsBase64 (c : Crates) : Type 0 where
  pub decode-encode : (b : List ℕ) → c.b64_decode (c.b64_encode b) ≡ inr b
  pub no_bar : (b : List ℕ) → All (λ x. (x == b'|') ≡ false) (c.b64_encode b)

-- the two kinds that the parser takes: type 2 with a MAC, and type 0 without
abbrev pub IsSupported : EncString → Type 0
IsSupported e =
    ((e.enc_type ≡ 2) × (mac : List ℕ) × (e.mac ≡ some mac)) ⊎ ((e.enc_type ≡ 0) × (e.mac ≡ none))

split-one : (d : ℕ) (a : Text) → All (λ x. (x == d) ≡ false) a → split d a ≡ a ∷ []
unfolding split
split-one d [] h = refl
split-one d (x ∷ a) (e, h) = rw (e, split-one d a h) refl

split-append :
    (d : ℕ) (a b : Text) → All (λ x. (x == d) ≡ false) a → split d (a ++ d ∷ b) ≡ a ∷ split d b
unfolding split
split-append d [] b h = ground arith
split-append d (x ∷ a) b (e, h) = rw (e, split-append d a b h) refl

module _ (c : Crates) (base64 : IsBase64 c) where
  read_back : (b : List ℕ) → b64_decode c (c.b64_encode b) ≡ ok b
  unfolding b64_decode
  read_back b = rw (base64.decode-encode b) refl

  two_parts :
      (a b : List ℕ)
      → split b'|' (c.b64_encode a ++ b'|' ∷ c.b64_encode b) ≡ c.b64_encode a ∷ c.b64_encode b ∷ []
  two_parts a b =
      split-append b'|' _ _ (base64.no_bar a)
      ∙ ap (λ s. c.b64_encode a ∷ s) (split-one b'|' _ (base64.no_bar b))

  three_parts :
      (a b m : List ℕ)
      → split b'|' (c.b64_encode a ++ (b'|' ∷ (c.b64_encode b ++ (b'|' ∷ c.b64_encode m))))
        ≡ c.b64_encode a ∷ c.b64_encode b ∷ c.b64_encode m ∷ []
  three_parts a b m =
      split-append b'|' _ _ (base64.no_bar a) ∙ ap (λ s. c.b64_encode a ∷ s) (two_parts b m)

  parsed_2 :
      (a b m : List ℕ)
      → parse_2 c (c.b64_encode a ∷ c.b64_encode b ∷ c.b64_encode m ∷ [])
        ≡ ok (record { enc_type = 2; iv = a; ciphertext = b; mac = some m })
  unfolding parse_2
  parsed_2 a b m = rw (read_back a, read_back b, read_back m) refl

  parsed_0 :
      (a b : List ℕ)
      → parse_0 c (c.b64_encode a ∷ c.b64_encode b ∷ [])
        ≡ ok (record { enc_type = 0; iv = a; ciphertext = b; mac = none })
  unfolding parse_0
  parsed_0 a b = rw (read_back a, read_back b) refl

  printed_2 :
      (a b m : List ℕ)
      → parse c (to_string c (record { enc_type = 2; iv = a; ciphertext = b; mac = some m }))
        ≡ ok (record { enc_type = 2; iv = a; ciphertext = b; mac = some m })
  unfolding parse to_string split_once parse_uint decimal decimal_fuel parse_parts
  printed_2 a b m = ap (parse_2 c) (three_parts a b m) ∙ parsed_2 a b m

  printed_0 :
      (a b : List ℕ)
      → parse c (to_string c (record { enc_type = 0; iv = a; ciphertext = b; mac = none }))
        ≡ ok (record { enc_type = 0; iv = a; ciphertext = b; mac = none })
  unfolding parse to_string split_once parse_uint decimal decimal_fuel parse_parts
  printed_0 a b =
      let whole = append-nil (c.b64_encode b) in
      ap (λ s. parse_0 c (split b'|' (c.b64_encode a ++ (b'|' ∷ s)))) whole
      ∙ (ap (parse_0 c) (two_parts a b) ∙ parsed_0 a b)

  -- Parsing what was printed gives the encrypted string back, for both kinds that are supported.
  pub parse-to_string : (e : EncString) → IsSupported e → parse c (to_string c e) ≡ ok e
  parse-to_string e (inl (two, mac, m)) = rw (two, m) (printed_2 e.iv e.ciphertext mac)
  parse-to_string e (inr (zero_, m)) = rw (zero_, m) (printed_0 e.iv e.ciphertext)

module _ (c : Crates) where
  parse_2-IsSupported : (parts : List Text) (e : EncString) → parse_2 c parts ≡ ok e → IsSupported e
  unfolding parse_2
  parse_2-IsSupported (iv ∷ ct ∷ mac ∷ []) e h =
      let (_, _, h1) = returned_by (b64_decode c iv) _ h in
      let (_, _, h2) = returned_by (b64_decode c ct) _ h1 in
      let (mac', _, h3) = returned_by (b64_decode c mac) _ h2 in
      inl (ground arith, mac', ground arith)
  parse_2-IsSupported [] e h = absurd (ground arith)
  parse_2-IsSupported (_ ∷ []) e h = absurd (ground arith)
  parse_2-IsSupported (_ ∷ _ ∷ []) e h = absurd (ground arith)
  parse_2-IsSupported (_ ∷ _ ∷ _ ∷ _ ∷ _) e h = absurd (ground arith)

  parse_0-IsSupported : (parts : List Text) (e : EncString) → parse_0 c parts ≡ ok e → IsSupported e
  unfolding parse_0
  parse_0-IsSupported (iv ∷ ct ∷ []) e h =
      let (_, _, h1) = returned_by (b64_decode c iv) _ h in
      let (_, _, h2) = returned_by (b64_decode c ct) _ h1 in inr (ground arith, ground arith)
  parse_0-IsSupported [] e h = absurd (ground arith)
  parse_0-IsSupported (_ ∷ []) e h = absurd (ground arith)
  parse_0-IsSupported (_ ∷ _ ∷ _ ∷ _) e h = absurd (ground arith)

  -- Whatever the text, the parser returns only encrypted strings of the two supported kinds: of type
  -- 2 with a MAC, or of type 0 without one.
  pub parse-IsSupported : (s : Text) (e : EncString) → parse c s ≡ ok e → IsSupported e
  unfolding parse parse_parts
  parse-IsSupported s e h =
      let ((type_part, rest), _, h1) = returned_by (ok_or _ (split_once b'.' s)) _ h in
      let (enc_type, _, h2) = returned_by (ok_or _ (parse_uint 255 type_part)) _ h1 in
      elim (Bool-cases (enc_type == 2)) [
        | inl t ↦ parse_2-IsSupported (split b'|' rest) e (rw t at h2)
        | inr f ↦ elim (Bool-cases (enc_type == 0)) [
          | inl t ↦ parse_0-IsSupported (split b'|' rest) e (rw (f, t) at h2)
          | inr g ↦ absurd (let h3 = rw (f, g) at h2 in ground arith)
        ]
      ]
