-- ===== src/Client/Totp.antt =====
-- client/src-tauri/src/crypto/totp.rs. The table of `char::to_uppercase` and HMAC-SHA1 (the crate
-- ring) are parameters; a release build is modelled, where integer overflow wraps around.
pub mod Base32
pub mod Generate
pub mod Hotp
mod Tests
use mathlib.Core.List.{flat_map}
use umewarden.Prelude.{
  ℕ, zero, suc, ◌+◌, ◌-◌, ◌*◌, ◌/◌, ◌%◌, ◌^◌, Bool, true, false, not, ◌&&◌, ◌||◌, Option, none,
  some, List, [], ◌∷◌, ◌++◌, length, get_elem?, filter, leb, ◌==◌, if◌then◌else◌,
}
use umewarden.Prelude.Text.{
  Text, codes, text_eq, trim, strip_prefix, split_once, split, utf8, parse_uint, format_padded,
}
use umewarden.Client.{Outcome, ok, err, panic, VaultError, internal, ◌>>=◌, ok_or, or_panic}

abbrev pub alphabet : List ℕ
alphabet = codes "ABCDEFGHIJKLMNOPQRSTUVWXYZ234567"

-- `Iterator::position`
unfoldable pub position : ℕ → List ℕ → Option ℕ
position c [] = none
position c (a ∷ as_) =
    if a == c then some 0 else (elim (position c as_) [ none ↦ none | some i ↦ some (suc i) ])

-- `u8::is_ascii_whitespace`
is_ascii_whitespace : ℕ → Bool
is_ascii_whitespace b = b == 9 || (b == 10 || (b == 12 || (b == 13 || b == 32)))

abbrev pub invalid_character : ℕ → VaultError
invalid_character c = internal (codes "invalid Base32 character: " ++ c ∷ [])

-- The loop of `base32_decode`. `val` is below 32, so `| val` after the shift is a sum.
pub decode_loop : ℕ → ℕ → List ℕ → List ℕ → Outcome (List ℕ)
decode_loop bits_buf bits_len out [] = ok out
decode_loop bits_buf bits_len out (c ∷ cs) = elim (position c alphabet) [
  | none ↦ err (invalid_character c)
  | some val ↦
      let buf = bits_buf * 32 % 2 ^ 64 + val in
      let len = bits_len + 5 in
      let full = leb 8 len in
      decode_loop buf (if full then len - 8 else len)
        (if full then out ++ (buf / 2 ^ (len - 8) % 256) ∷ [] else out) cs
]

-- what `base32_decode` does with the cleaned bytes
pub decode_cleaned : List ℕ → Outcome (List ℕ)
decode_cleaned [] = err (internal (codes "TOTP secret is empty after cleaning"))
decode_cleaned (c ∷ cs) = decode_loop 0 0 [] (c ∷ cs)

-- the big-endian bytes of a u64, the `n` lowest of them
pub be_bytes : ℕ → ℕ → List ℕ
be_bytes zero x = []
be_bytes (suc n) x = be_bytes n (x / 256) ++ (x % 256) ∷ []

-- the dynamic truncation of RFC 4226, with `hash[i]` panicking out of bounds
pub truncated : List ℕ → Outcome ℕ
truncated hash = do
  last ← or_panic (get_elem? hash (length hash - 1))
  let offset = last % 16
  h0 ← or_panic (get_elem? hash offset)
  h1 ← or_panic (get_elem? hash (offset + 1))
  h2 ← or_panic (get_elem? hash (offset + 2))
  h3 ← or_panic (get_elem? hash (offset + 3))
  ok (h0 % 128 * 2 ^ 24 + h1 % 256 * 2 ^ 16 + h2 % 256 * 2 ^ 8 + h3 % 256)

-- `10u32.pow(digits)` wraps around, and `% 0` panics
pub code_of : ℕ → ℕ → Outcome Text
code_of digits bin_code =
    let modulus = 10 ^ digits % 2 ^ 32 in
    if modulus == 0 then panic else ok (format_padded digits (bin_code % modulus))

pub record TotpParams : Type 0 where
  pub secret : List ℕ
  pub digits : ℕ
  pub period : ℕ

-- the variables that the loop over the query's pairs assigns
pub record Query : Type 0 where
  pub secret_b32 : Option Text
  pub digits : ℕ
  pub period : ℕ

abbrev or_default : ℕ → Option ℕ → ℕ
or_default d none = d
or_default d (some n) = n

read_pair : Query → Text → Query
read_pair q pair = elim (split_once b'=' pair) [
  | none ↦ q
  | some (key, value) ↦
      if text_eq key (codes "secret")
      then record q { secret_b32 = some value }
      else if text_eq key (codes "digits")
      then record q { digits = or_default 6 (parse_uint (2 ^ 32 - 1) value) }
      else if text_eq key (codes "period")
      then record q { period = or_default 30 (parse_uint (2 ^ 64 - 1) value) }
      else q
]

pub read_query : Query → List Text → Query
unfolding read_pair
read_query q [] = q
read_query q (pair ∷ pairs) = read_query (read_pair q pair) pairs

-- Unicode's upper-case table, which `str::to_uppercase` reads.
module _ (to_uppercase : ℕ → List ℕ) where
  pub cleaned : Text → List ℕ
  unfolding is_ascii_whitespace flat_map trim utf8
  cleaned input =
      filter (λ b. not (b == b'=') && not (is_ascii_whitespace b))
        (utf8 (flat_map to_uppercase (trim input)))

  pub base32_decode : Text → Outcome (List ℕ)
  unfolding cleaned decode_cleaned decode_loop position
  base32_decode input = decode_cleaned (cleaned input)

  pub parse_totp_input : Text → Outcome TotpParams
  parse_totp_input input = elim (strip_prefix (codes "otpauth://totp/") (trim input)) [
    | none ↦ do
      secret ← base32_decode (trim input)
      ok (record { secret = secret; digits = 6; period = 30 })
    | some rest ↦ do
      (_, query) ←
          ok_or (internal (codes "otpauth URI missing query string")) (split_once b'?' rest)
      let q = read_query (record { secret_b32 = none; digits = 6; period = 30 }) (split b'&' query)
      b32 ← ok_or (internal (codes "otpauth URI missing secret parameter")) q.secret_b32
      secret ← base32_decode b32
      ok (record { secret = secret; digits = q.digits; period = q.period })
  ]

-- `ring::hmac` with HMAC-SHA1: key, message
module _ (hmac_sha1 : List ℕ → List ℕ → List ℕ) where
  pub hotp : List ℕ → ℕ → ℕ → Outcome Text
  unfolding be_bytes
  hotp [] counter digits = err (internal (codes "TOTP secret is empty"))
  hotp (b ∷ bs) counter digits = do
    bin_code ← truncated (hmac_sha1 (b ∷ bs) (be_bytes 8 counter))
    code_of digits bin_code

  -- `now` is `none` when the clock stands before the Unix epoch
  pub generate_from : Option ℕ → TotpParams → Outcome (Text × ℕ)
  generate_from none params = err (internal (codes "system clock before Unix epoch"))
  generate_from (some now) params = if params.period == 0 then panic else (do
    code ← hotp params.secret (now / params.period) params.digits
    ok (code, (params.period - now % params.period) % 256))

  pub generate : (ℕ → List ℕ) → Option ℕ → Text → Outcome (Text × ℕ)
  generate to_uppercase now input = do
    params ← parse_totp_input to_uppercase input
    generate_from now params
