-- ===== src/Client/Totp/Hotp.antt =====
-- `hotp` and `generate`: the code's shape and value, the countdown, and when the call panics.
use mathlib.Core.List.{foldl, foldl-append}
use native.Mathlib.Nat.{pow-suc}
use umewarden.Prelude.{
  ℕ, zero, suc, ◌+◌, ◌-◌, ◌*◌, ◌/◌, ◌%◌, ◌^◌, ◌≤◌, ◌<◌, ◌≡◌, refl, ap, ◌∙◌, ◌≢◌, inl, inr, none,
  some, true, false, Bool-cases, List, [], ◌∷◌, ◌++◌, length, length-append, length-replicate,
  replicate, All, All-append, All-replicate, get_elem?, take, drop, arith, ltb, ◌==◌,
}
use umewarden.Prelude.Text.{Text, format_padded, decimal_fuel}
use umewarden.Client.{ok, or_panic, ◌>>=◌}
use native.Mathlib.Numerals.{towards_suc}
use umewarden.Client.Totp.Base32.{number}
use umewarden.Client.Totp.{truncated, code_of, hotp, be_bytes}

abbrev pub IsDigit : ℕ → Type 0
IsDigit c = (b'0' ≤ c) × (c ≤ b'9')

-- the number that decimal digits spell
abbrev pub decimal_value : Text → ℕ
decimal_value = foldl (λ n c. n * 10 + (c - b'0')) 0

decimal_value-concat :
    (s : Text) (c : ℕ) → decimal_value (s ++ c ∷ []) ≡ decimal_value s * 10 + (c - b'0')
decimal_value-concat s c = rw foldl-append

foldl_zeros : (k : ℕ) (s : Text) → decimal_value (replicate k b'0' ++ s) ≡ decimal_value s
foldl_zeros zero s = refl
foldl_zeros (suc k) s = foldl_zeros k s

-- The digits of `n`, when there is fuel for them.
record Spelled (width n : ℕ) (s : Text) : Type 0 where
  short : length s ≤ width
  digits : All IsDigit s
  value : decimal_value s ≡ n

decimal_fuel_lem :
    (fuel width n : ℕ)
    → 0 < width
    → width ≤ fuel
    → n < 10 ^ width
    → Spelled width n (decimal_fuel fuel n)
unfolding decimal_fuel
decimal_fuel_lem zero width n w le lt = absurd (omega arith)
decimal_fuel_lem (suc fuel) zero n w le lt = absurd (omega arith)
decimal_fuel_lem (suc fuel) (suc zero) n w le lt =
    let small : ltb n 10 ≡ true = ground arith in
    rw small (record { short = omega arith; digits = omega arith; value = omega arith })
decimal_fuel_lem (suc fuel) (suc (suc width)) n w le lt = elim (Bool-cases (ltb n 10)) [
  | inl small ↦
      rw small (record { short = omega arith; digits = ground arith; value = ground arith })
  | inr large ↦
      let tenth : n / 10 < 10 ^ suc width = omega (arith, pow-suc 10 (suc width)) in
      let front = decimal_fuel_lem fuel (suc width) (n / 10) (omega arith) (omega arith) tenth in
      let s = decimal_fuel fuel (n / 10) in
      rw large (record {
        short = omega (arith, front.short, length-append {0} s ((48 + n % 10) ∷ []));
        digits = All-append IsDigit s _ front.digits (omega arith);
        value = rw (decimal_value-concat s (48 + n % 10), front.value) (omega arith);
      })
]

pow_fits : (d : ℕ) → d ≤ 9 → 10 ^ d < 2 ^ 32
pow_fits zero h = omega arith
pow_fits (suc zero) h = omega arith
pow_fits (suc (suc zero)) h = omega arith
pow_fits (suc (suc (suc zero))) h = omega arith
pow_fits (suc (suc (suc (suc zero)))) h = omega arith
pow_fits (suc (suc (suc (suc (suc zero))))) h = omega arith
pow_fits (suc (suc (suc (suc (suc (suc zero)))))) h = omega arith
pow_fits (suc (suc (suc (suc (suc (suc (suc zero))))))) h = omega arith
pow_fits (suc (suc (suc (suc (suc (suc (suc (suc zero)))))))) h = omega arith
pow_fits (suc (suc (suc (suc (suc (suc (suc (suc (suc zero))))))))) h = omega arith
pow_fits _ h = absurd (omega arith)

pow_pos : (d : ℕ) → 0 < 10 ^ d
pow_pos zero = omega arith
pow_pos (suc d) = omega (arith, pow_pos d, pow-suc 10 d)

-- A code: as many decimal digits as asked for, which spell `n`.
pub record IsCode (digits n : ℕ) (code : Text) : Type 0 where
  pub length_code : length code ≡ digits
  pub decimal : All IsDigit code
  pub value : decimal_value code ≡ n

format_padded-IsCode : (d n : ℕ) → 0 < d → d ≤ 9 → n < 10 ^ d → IsCode d n (format_padded d n)
unfolding format_padded
format_padded-IsCode d n pos le lt =
    let s = decimal_fuel 10 n in
    let f = decimal_fuel_lem 10 d n pos (omega arith) lt in
    record {
      length_code = omega (
        arith,
        f.short,
        length-append {0} (replicate (d - length s) b'0') s,
        length-replicate {0} {A = ℕ} (d - length s) b'0',
      );
      decimal =
          All-append IsDigit _ s (All-replicate IsDigit (d - length s) b'0' (omega arith)) f.digits;
      value = foldl_zeros (d - length s) s ∙ f.value;
    }

code_of-IsCode :
    (d b : ℕ) → 0 < d → d ≤ 9 → (code : Text) × (code_of d b ≡ ok code) × IsCode d (b % 10 ^ d) code
unfolding code_of
code_of-IsCode d b pos le =
    let fits = pow_fits d le in
    let same : 10 ^ d % 2 ^ 32 ≡ 10 ^ d = omega (arith, fits) in
    let nonzero : (10 ^ d == 0) ≡ false = ground (arith, pow_pos d) in
    (
      format_padded d (b % 10 ^ d),
      rw same (rw nonzero refl),
      format_padded-IsCode d (b % 10 ^ d) pos le (omega (arith, pow_pos d)),
    )

drop_cons {ℓ} :
    {A : Type ℓ} {P : A → Type ℓ} (xs : List A) (i : ℕ)
    → All P xs
    → i < length xs
    → (a : A) × (get_elem? xs i ≡ some a) × (drop i xs ≡ a ∷ drop (suc i) xs) × P a
drop_cons [] i ps h = absurd (omega arith)
drop_cons (x ∷ xs) zero ps h = (x, refl, refl, ps.0)
drop_cons (x ∷ xs) (suc i) ps h = drop_cons xs i ps.1 (omega arith)

abbrev pub IsByte : ℕ → Type 0
IsByte b = b < 256

-- The four bytes behind `i`, with the sign bit masked, as a number.
window_lem :
    (xs : List ℕ) (i : ℕ)
    → All IsByte xs
    → i + 3 < length xs
    → (do
      h0 ← or_panic (get_elem? xs i)
      h1 ← or_panic (get_elem? xs (i + 1))
      h2 ← or_panic (get_elem? xs (i + 2))
      h3 ← or_panic (get_elem? xs (i + 3))
      ok (h0 % 128 * 2 ^ 24 + h1 % 256 * 2 ^ 16 + h2 % 256 * 2 ^ 8 + h3 % 256))
      ≡ ok (number (take 4 (drop i xs)) % 2 ^ 31)
window_lem xs i ps h =
    let (a, ea, da, pa) = drop_cons xs i ps (omega arith) in
    let (b, eb, db, pb) = drop_cons xs (suc i) ps (omega arith) in
    let (c, ec, dc, pc) = drop_cons xs (suc (suc i)) ps (omega arith) in
    let (d, ed, dd, pd) = drop_cons xs (suc (suc (suc i))) ps (omega arith) in
    simp (towards_suc, ea, eb, ec, ed, da, db, dc, dd) (ap ok (omega arith))

-- The byte that chooses the window, and the 31 bits that RFC 4226 §5.4 takes from the window there.
unfoldable pub window_offset : List ℕ → ℕ
window_offset hash = elim (get_elem? hash 19) [ none ↦ 0 | some last ↦ last % 16 ]

abbrev pub rfc4226_bits : List ℕ → ℕ
rfc4226_bits hash = number (take 4 (drop (window_offset hash) hash)) % 2 ^ 31

window_offset_lem :
    (hash : List ℕ) (last : ℕ) → get_elem? hash 19 ≡ some last → window_offset hash ≡ last % 16
unfolding window_offset
window_offset_lem hash last e = rw (e, window_offset) refl

pub truncated_lem :
    (hash : List ℕ) → length hash ≡ 20 → All IsByte hash → truncated hash ≡ ok (rfc4226_bits hash)
unfolding truncated
truncated_lem hash l bytes =
    let (last, e, _, _) = drop_cons hash 19 bytes (omega arith) in
    rw (window_offset_lem hash last e) (rw (l, e) (window_lem hash (last % 16) bytes (omega arith)))

-- What the program relies on of HMAC-SHA1: a tag is 20 bytes.
pub record IsHmacSha1 (hmac_sha1 : List ℕ → List ℕ → List ℕ) : Type 0 where
  pub tag_length : (key message : List ℕ) → length (hmac_sha1 key message) ≡ 20
  pub tag_bytes : (key message : List ℕ) → All IsByte (hmac_sha1 key message)

module _ (hmac_sha1 : List ℕ → List ℕ → List ℕ) (is_hmac : IsHmacSha1 hmac_sha1) where
  -- With a non-empty secret and one to nine digits `hotp` returns a code of that many decimal digits,
  -- which spell the 31 truncated bits of the tag modulo 10 ^ digits.
  pub hotp-IsCode :
      (secret : List ℕ) (counter digits : ℕ)
      → secret ≢ []
      → 0 < digits
      → digits ≤ 9
      → (code : Text) × (hotp hmac_sha1 secret counter digits ≡ ok code)
        × IsCode digits (rfc4226_bits (hmac_sha1 secret (be_bytes 8 counter)) % 10 ^ digits) code
  unfolding hotp
  hotp-IsCode [] counter digits some_secret pos le = absurd (some_secret refl)
  hotp-IsCode (b ∷ bs) counter digits some_secret pos le =
      let tag = hmac_sha1 (b ∷ bs) (be_bytes 8 counter) in
      let cut = truncated_lem tag (is_hmac.tag_length _ _) (is_hmac.tag_bytes _ _) in
      let (code, e, is_code) = code_of-IsCode digits (rfc4226_bits tag) pos le in
      (code, rw cut e, is_code)
