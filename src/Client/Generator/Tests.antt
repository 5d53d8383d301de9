-- ===== src/Client/Generator/Tests.antt =====
-- A generated password, and the theorem at concrete inputs.
use umewarden.Prelude.{◌≤◌, ◌≡◌, refl, true, false, some, arith, length, ltb, if◌then◌else◌}
use umewarden.Prelude.Text.{Text, codes}
use umewarden.Client.{ok}
use umewarden.Client.Generator.{
  Rng, PasswordOptions, contains, symbol_set, digit_set, full_set, forced, fill, digit_part,
  symbol_part, generate_with, generate_password,
}
use umewarden.Client.Generator.Password.{count, IsRng}
use umewarden.Client.Generator.Counts.{generate_password-ok}

-- draws count upwards while they are in range, and the shuffle moves nothing
abbrev rng : Rng
rng = record { gen_range = λ k bound. if ltb k bound then k else 0; shuffle = λ s. s }

rng-IsRng : IsRng rng
rng-IsRng = record { in_range = λ k bound h. ground arith; same_count = λ p s. refl }

abbrev opts : PasswordOptions
opts = record {
  length = 6;
  uppercase = false;
  lowercase = true;
  numbers = true;
  symbols = true;
  avoid_ambiguous = true;
  min_numbers = 2;
  min_symbols = 1;
}

generated : generate_password rng (some opts) ≡ ok (codes "23#def")
unfolding generate_password generate_with digit_part symbol_part forced fill
generated = refl

generate_password-ok_example :
    (s : Text) × (generate_password rng (some opts) ≡ ok s)
    × (length s ≡ 6)
    × (count (contains (full_set opts)) s ≡ 6)
    × (2 ≤ count (contains (digit_set opts)) s)
    × (1 ≤ count (contains symbol_set) s)
generate_password-ok_example =
    generate_password-ok rng rng-IsRng opts (omega arith) (omega arith) (omega arith) refl
