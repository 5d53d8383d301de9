-- ===== src/Client/Totp/Base32.antt =====
-- `base32_decode` against the number that the characters spell in base 32.
use mathlib.Core.List.{foldl, foldl-append}
use native.Mathlib.Decide.{dec_lt}
use umewarden.Prelude.{
  ℕ, zero, suc, ◌+◌, ◌-◌, ◌*◌, ◌/◌, ◌%◌, ◌^◌, ◌≤◌, ◌<◌, ◌≡◌, refl, ◌∙◌, ◌≢◌, inl, inr, Option, none,
  some, Option-cases, true, false, List, [], ◌∷◌, ◌++◌, length, length-append, arith, leb,
}
use umewarden.Client.{Outcome, ok, err}
use umewarden.Prelude.Text.{Text}
use umewarden.Client.Totp.{
  alphabet, position, invalid_character, decode_loop, decode_cleaned, cleaned, base32_decode,
}

-- The number that the bytes spell in base 256, the first byte the highest.
abbrev pub number : List ℕ → ℕ
number = foldl (λ n b. n * 256 + b) 0

-- The number that the characters spell in base 32 behind `n`; `none` for a character outside of
-- the alphabet.
unfoldable pub base32_value : ℕ → List ℕ → Option ℕ
base32_value n [] = some n
base32_value n (c ∷ cs) = elim (position c alphabet) [
  | none ↦ none
  | some val ↦ base32_value (n * 32 + val) cs
]

position_lt : (c : ℕ) (as_ : List ℕ) (i : ℕ) → position c as_ ≡ some i → i < length as_
unfolding position
position_lt c [] i h = cc
position_lt c (a ∷ as_) i h = elim (Option-cases (position c as_)) [
  | inl e ↦ ground arith
  | inr (j, e) ↦ ground (arith, position_lt c as_ j e)
]

number-concat : (out : List ℕ) (b : ℕ) → number (out ++ b ∷ []) ≡ number out * 256 + b
number-concat out b = rw foldl-append

module _ (buf val out m : ℕ) (small : val < 32) where
  -- a round that completes no byte, and one that completes the byte
  round_short :
      (len : ℕ)
      → len < 3
      → out * 2 ^ len + buf % 2 ^ len ≡ m
      → out * 2 ^ (len + 5) + (buf * 32 % 2 ^ 64 + val) % 2 ^ (len + 5) ≡ m * 32 + val
  round_short zero l h = omega arith
  round_short (suc zero) l h = omega arith
  round_short (suc (suc zero)) l h = omega arith
  round_short (suc (suc (suc len))) l h = absurd (omega arith)

  round_full :
      (len : ℕ)
      → 3 ≤ len
      → len < 8
      → out * 2 ^ len + buf % 2 ^ len ≡ m
      → let buf' = buf * 32 % 2 ^ 64 + val in
        let len' = len + 5 - 8 in
        (out * 256 + buf' / 2 ^ len' % 256) * 2 ^ len' + buf' % 2 ^ len' ≡ m * 32 + val
  round_full (suc (suc (suc zero))) g l h = omega arith
  round_full (suc (suc (suc (suc zero)))) g l h = omega arith
  round_full (suc (suc (suc (suc (suc zero))))) g l h = omega arith
  round_full (suc (suc (suc (suc (suc (suc zero)))))) g l h = omega arith
  round_full (suc (suc (suc (suc (suc (suc (suc zero))))))) g l h = omega arith
  round_full _ g l h = absurd (omega arith)

-- What the loop leaves: the bytes, and the count and value of the bits that fill no byte.
pub record Decoded (n bits : ℕ) (result : Outcome (List ℕ)) : Type 0 where
  pub bytes : List ℕ
  pub left : ℕ
  pub rest : ℕ
  pub returned : result ≡ ok bytes
  pub left_small : left < 8
  pub rest_small : rest < 2 ^ left
  pub counted : 8 * length bytes + left ≡ bits
  pub value : number bytes * 2 ^ left + rest ≡ n

rest_lt : (buf len : ℕ) → len < 8 → buf % 2 ^ len < 2 ^ len
rest_lt buf zero h = omega arith
rest_lt buf (suc zero) h = omega arith
rest_lt buf (suc (suc zero)) h = omega arith
rest_lt buf (suc (suc (suc zero))) h = omega arith
rest_lt buf (suc (suc (suc (suc zero)))) h = omega arith
rest_lt buf (suc (suc (suc (suc (suc zero))))) h = omega arith
rest_lt buf (suc (suc (suc (suc (suc (suc zero)))))) h = omega arith
rest_lt buf (suc (suc (suc (suc (suc (suc (suc zero))))))) h = omega arith
rest_lt buf _ h = absurd (omega arith)

decode_loop_short :
    (buf len c val : ℕ) (out cs : List ℕ)
    → position c alphabet ≡ some val
    → len < 3
    → decode_loop buf len out (c ∷ cs) ≡ decode_loop (buf * 32 % 2 ^ 64 + val) (len + 5) out cs
unfolding decode_loop
decode_loop_short buf len c val out cs e h =
    let short : leb 8 (len + 5) ≡ false = ground arith in rw (e, decode_loop) (rw short refl)

decode_loop_full :
    (buf len c val : ℕ) (out cs : List ℕ)
    → position c alphabet ≡ some val
    → 3 ≤ len
    → let buf' = buf * 32 % 2 ^ 64 + val in
      decode_loop buf len out (c ∷ cs)
      ≡ decode_loop buf' (len + 5 - 8) (out ++ (buf' / 2 ^ (len + 5 - 8) % 256) ∷ []) cs
unfolding decode_loop
decode_loop_full buf len c val out cs e h =
    let full : leb 8 (len + 5) ≡ true = ground arith in rw (e, decode_loop) (rw full refl)

val_lt : (c val : ℕ) → position c alphabet ≡ some val → val < 32
val_lt c val e = position_lt c alphabet val e

decode_loop_exact :
    (cs : List ℕ) (buf len : ℕ) (out : List ℕ) (m bits n : ℕ)
    → len < 8
    → number out * 2 ^ len + buf % 2 ^ len ≡ m
    → 8 * length out + len ≡ bits
    → base32_value m cs ≡ some n
    → Decoded n (bits + 5 * length cs) (decode_loop buf len out cs)
unfolding decode_loop base32_value
decode_loop_exact [] buf len out m bits n l v k h = record {
  bytes = out;
  left = len;
  rest = buf % 2 ^ len;
  returned = refl;
  left_small = l;
  rest_small = rest_lt buf len l;
  counted = omega arith;
  value = v ∙ ground arith;
}
decode_loop_exact (c ∷ cs) buf len out m bits n l v k h =
    elim (Option-cases (position c alphabet)) [
      | inl e ↦ absurd (ground (arith, e))
      | inr (val, e) ↦
          let small = val_lt c val e in
          let later : base32_value (m * 32 + val) cs ≡ some n = rw (e, base32_value) at h in
          let shift : bits + 5 * length (c ∷ cs) ≡ bits + 5 + 5 * length cs = omega arith in
          let buf' = buf * 32 % 2 ^ 64 + val in
          let byte = buf' / 2 ^ (len + 5 - 8) % 256 in
          rw shift (elim (dec_lt len 3) [
            | yes short ↦ rw (decode_loop_short buf len c val out cs e short) (
                decode_loop_exact cs buf' (len + 5) out (m * 32 + val) (bits + 5) n (omega arith)
                  (round_short buf val (number out) m small len short v) (omega arith) later)
            | no long ↦ rw (decode_loop_full buf len c val out cs e (omega arith)) (
                decode_loop_exact cs buf' (len + 5 - 8) (out ++ byte ∷ []) (m * 32 + val) (bits + 5)
                  n (omega arith)
                  (rw number-concat (round_full buf val (number out) m small len (omega arith) l v))
                  (omega (arith, length-append {0} out (byte ∷ []))) later)
          ])
    ]

-- The loop refuses a text with a character outside of the alphabet.
decode_loop_invalid :
    (cs : List ℕ) (buf len : ℕ) (out : List ℕ) (m : ℕ)
    → base32_value m cs ≡ none
    → (c : ℕ) × (decode_loop buf len out cs ≡ err (invalid_character c))
      × (position c alphabet ≡ none)
unfolding decode_loop base32_value
decode_loop_invalid [] buf len out m h = cc
decode_loop_invalid (c ∷ cs) buf len out m h = elim (Option-cases (position c alphabet)) [
  | inl e ↦ (c, rw (e, decode_loop) refl, e)
  | inr (val, e) ↦
      rw (e, decode_loop) (decode_loop_invalid cs _ _ _ (m * 32 + val) (rw (e, base32_value) at h))
]

quotient :
    (n q rest left : ℕ) → left < 8 → rest < 2 ^ left → q * 2 ^ left + rest ≡ n → q ≡ n / 2 ^ left
quotient n q rest zero l r h = omega arith
quotient n q rest (suc zero) l r h = omega arith
quotient n q rest (suc (suc zero)) l r h = omega arith
quotient n q rest (suc (suc (suc zero))) l r h = omega arith
quotient n q rest (suc (suc (suc (suc zero)))) l r h = omega arith
quotient n q rest (suc (suc (suc (suc (suc zero))))) l r h = omega arith
quotient n q rest (suc (suc (suc (suc (suc (suc zero)))))) l r h = omega arith
quotient n q rest (suc (suc (suc (suc (suc (suc (suc zero))))))) l r h = omega arith
quotient n q rest _ l r h = absurd (omega arith)

decode_cleaned_loop : (cs : List ℕ) → cs ≢ [] → decode_cleaned cs ≡ decode_loop 0 0 [] cs
unfolding decode_cleaned
decode_cleaned_loop [] h = absurd (h refl)
decode_cleaned_loop (c ∷ cs) h = refl

ne-nil_of_invalid : (cs : List ℕ) → base32_value 0 cs ≡ none → cs ≢ []
unfolding base32_value
ne-nil_of_invalid [] h = λ _. cc
ne-nil_of_invalid (c ∷ cs) h = λ e. cc

module _ (to_uppercase : ℕ → List ℕ) (input : Text) where
  -- When the cleaned text is not empty and spells the number `n` in base 32, the decoder returns the
  -- bytes that spell in base 256 the number `n` without its last 5 * count % 8 bits; they are
  -- 5 * count / 8 bytes.
  pub base32_decode_exact :
      (n : ℕ)
      → cleaned to_uppercase input ≢ []
      → base32_value 0 (cleaned to_uppercase input) ≡ some n
      → (bytes : List ℕ) × (base32_decode to_uppercase input ≡ ok bytes)
        × (length bytes ≡ 5 * length (cleaned to_uppercase input) / 8)
        × (number bytes ≡ n / 2 ^ (5 * length (cleaned to_uppercase input) % 8))
  unfolding base32_decode
  base32_decode_exact n some_text spelled =
      let cs = cleaned to_uppercase input in
      let d = decode_loop_exact cs 0 0 [] 0 0 n (omega arith) (omega arith) (omega arith) spelled in
      let left : d.left ≡ 5 * length cs % 8 = omega (arith, d.counted, d.left_small) in
      (
        d.bytes,
        decode_cleaned_loop cs some_text ∙ d.returned,
        omega (arith, d.counted, d.left_small),
        rw (← left) (quotient n (number d.bytes) d.rest d.left d.left_small d.rest_small d.value),
      )

  -- When some character of the cleaned text is outside of the alphabet, the decoder returns the error
  -- that names such a character.
  pub base32_decode_invalid :
      base32_value 0 (cleaned to_uppercase input) ≡ none
      → (c : ℕ) × (base32_decode to_uppercase input ≡ err (invalid_character c))
        × (position c alphabet ≡ none)
  unfolding base32_decode
  base32_decode_invalid spelled =
      let cs = cleaned to_uppercase input in
      let nonempty = ne-nil_of_invalid cs spelled in
      let (c, refused, outside) = decode_loop_invalid cs 0 0 [] 0 spelled in
      (c, decode_cleaned_loop cs nonempty ∙ refused, outside)
