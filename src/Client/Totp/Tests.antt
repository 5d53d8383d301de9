-- ===== src/Client/Totp/Tests.antt =====
-- Runs of the TOTP code, and the theorems at concrete inputs.
use umewarden.Prelude.{
  ℕ, ◌-◌, ◌%◌, ◌^◌, ◌≡◌, refl, ◌≢◌, ◌⊎◌, ◌↔◌, ◌≤◌, some, List, [], ◌∷◌, length, replicate,
  All-replicate, leb, ◌&&◌, if◌then◌else◌, arith,
}
use umewarden.Prelude.Text.{Text, codes, split, split_once, strip_prefix, parse_uint, format_padded}
use umewarden.Client.{ok, panic}
use umewarden.Client.Totp.{
  position, cleaned, base32_decode, hotp, generate_from, truncated, code_of, be_bytes, TotpParams,
  parse_totp_input, read_query,
}
use umewarden.Client.Totp.Base32.{number, base32_value, base32_decode_exact}
use umewarden.Client.Totp.Hotp.{IsHmacSha1, IsByte, IsCode, rfc4226_bits, hotp-IsCode}
use umewarden.Client.Totp.Generate.{generate-eq-panic_iff}

-- the ASCII part of the upper-case table
abbrev ascii_upper : ℕ → List ℕ
ascii_upper c = (if leb b'a' c && leb c b'z' then c - 32 else c) ∷ []

-- a function with the shape of HMAC-SHA1: the tag's bytes are the message's last one
abbrev flat_hmac : List ℕ → List ℕ → List ℕ
flat_hmac key message = replicate 20 0x1f

flat_hmac-IsHmacSha1 : IsHmacSha1 flat_hmac
flat_hmac-IsHmacSha1 = record {
  tag_length = λ key message. refl;
  tag_bytes = λ key message. All-replicate IsByte 20 0x1f (omega arith);
}

foobar : base32_decode ascii_upper (codes "mzxw 6ytboi======") ≡ ok (codes "foobar")
unfolding base32_decode
foobar = refl

nonempty : cleaned ascii_upper (codes "mzxw6ytboi") ≢ []
unfolding cleaned
nonempty e = ground arith

base32_decode_exact_example :
    (bytes : List ℕ) × (base32_decode ascii_upper (codes "mzxw6ytboi") ≡ ok bytes)
    × (length bytes ≡ 6)
    × (number bytes ≡ 112628796121458)
unfolding cleaned base32_value position
base32_decode_exact_example =
    base32_decode_exact ascii_upper (codes "mzxw6ytboi") 450515184485832 nonempty refl

uri :
    parse_totp_input ascii_upper
      (codes "otpauth://totp/Ex:al?secret=MY&issuer=Ex&digits=x&period=60")
    ≡ ok (record { secret = codes "f"; digits = 6; period = 60 })
unfolding parse_totp_input base32_decode read_query split split_once strip_prefix parse_uint
uri = refl

hotp-IsCode_example :
    (code : Text) × (hotp flat_hmac (1 ∷ []) 7 6 ≡ ok code)
    × IsCode 6 (rfc4226_bits (flat_hmac (1 ∷ []) (be_bytes 8 7)) % 10 ^ 6) code
hotp-IsCode_example =
    hotp-IsCode flat_hmac flat_hmac-IsHmacSha1 (1 ∷ []) 7 6 (λ e. cc) (omega arith) (omega arith)

abbrev params : TotpParams
params = record { secret = 1 ∷ []; digits = 6; period = 30 }

at_70 : generate_from flat_hmac (some 70) params ≡ ok (codes "133279", 20)
unfolding generate_from hotp truncated code_of be_bytes format_padded
at_70 = refl

-- The URI's period may be zero: nothing tests it, and the division panics.
abbrev no_period : TotpParams
no_period = record { secret = codes "f"; digits = 6; period = 0 }

uri_no_period :
    parse_totp_input ascii_upper (codes "otpauth://totp/Ex:al?secret=MY&period=0") ≡ ok no_period
unfolding parse_totp_input base32_decode read_query split split_once strip_prefix parse_uint
uri_no_period = refl

generate-eq-panic_iff_example :
    (generate_from flat_hmac (some 70) no_period ≡ panic)
    ↔ ((no_period.period ≡ 0) ⊎ ((no_period.secret ≢ []) × (32 ≤ no_period.digits)))
generate-eq-panic_iff_example = generate-eq-panic_iff flat_hmac no_period 70 flat_hmac-IsHmacSha1
