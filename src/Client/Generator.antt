-- ===== src/Client/Generator.antt =====
-- client/src-tauri/src/commands/generator.rs: generate_password. The random generator is the fields
-- of `Rng`: its answers to `gen_range`, by the number of the draw and the upper bound, and its
-- shuffle.
pub mod Password
pub mod Counts
mod Tests
use umewarden.Prelude.{
  ℕ, zero, suc, ◌+◌, ◌-◌, ◌%◌, ◌^◌, Bool, true, false, not, ◌&&◌, ◌||◌, Option, none, some, List,
  [], ◌∷◌, ◌++◌, length, get_elem?, filter, ltb, ◌==◌, if◌then◌else◌,
}
use umewarden.Prelude.Text.{Text, codes}
use umewarden.Client.{VaultError, internal, Outcome, ok, err, ◌>>=◌, or_panic}

pub record Rng : Type 0 where
  pub gen_range : ℕ → ℕ → ℕ
  pub shuffle : Text → Text

pub record PasswordOptions : Type 0 where
  pub length : ℕ
  pub uppercase : Bool
  pub lowercase : Bool
  pub numbers : Bool
  pub symbols : Bool
  pub avoid_ambiguous : Bool
  pub min_numbers : ℕ
  pub min_symbols : ℕ

abbrev default : PasswordOptions
default = record {
  length = 20;
  uppercase = true;
  lowercase = true;
  numbers = true;
  symbols = true;
  avoid_ambiguous = false;
  min_numbers = 1;
  min_symbols = 1;
}

-- `contains`
abbrev pub contains : Text → ℕ → Bool
contains [] c = false
contains (x ∷ s) c = x == c || contains s c

abbrev pub ambiguous : Text
ambiguous = codes "0Ol1I"

-- the closure `filter`
abbrev pub unambiguous : PasswordOptions → Text → Text
unambiguous opts s = filter (λ c. not opts.avoid_ambiguous || not (contains ambiguous c)) s

abbrev pub symbol_set : Text
symbol_set = codes "!@#$%^&*()-_=+[]{}|;:,.<>?"

abbrev pub digit_set : PasswordOptions → Text
digit_set opts = unambiguous opts (codes "0123456789")

-- the sets that `full_set` is extended by
abbrev pub uppers : PasswordOptions → Text
uppers opts = if opts.uppercase then unambiguous opts (codes "ABCDEFGHIJKLMNOPQRSTUVWXYZ") else []

abbrev pub lowers : PasswordOptions → Text
lowers opts = if opts.lowercase then unambiguous opts (codes "abcdefghijklmnopqrstuvwxyz") else []

abbrev pub digits : PasswordOptions → Text
digits opts = if opts.numbers then digit_set opts else []

abbrev pub signs : PasswordOptions → Text
signs opts = if opts.symbols then symbol_set else []

abbrev pub full_set : PasswordOptions → Text
full_set opts = uppers opts ++ (lowers opts ++ (digits opts ++ signs opts))

abbrev unwrap_or : ℕ → Option ℕ → ℕ
unwrap_or d none = d
unwrap_or d (some c) = c

-- `max(1)`
abbrev at_least_one : ℕ → ℕ
at_least_one n = if n == 0 then 1 else n

module _ (rng : Rng) where
  -- `count` characters of a set from the draw `k` on, with what stands in for a missing one
  unfoldable pub forced : Text → ℕ → ℕ → ℕ → Text
  forced set fallback zero k = []
  forced set fallback (suc count) k =
      unwrap_or fallback (get_elem? set (rng.gen_range k (at_least_one (length set))))
      ∷ forced set fallback count (suc k)

  -- the loop that fills up, with the count of rounds that are left
  unfoldable pub fill : Text → ℕ → ℕ → Outcome Text
  fill set zero k = ok []
  fill set (suc count) k = do
    c ← or_panic (get_elem? set (rng.gen_range k (length set)))
    rest ← fill set count (suc k)
    ok (c ∷ rest)

  -- the digits and the symbols that come first
  unfoldable pub digit_part : PasswordOptions → Text
  unfolding forced
  digit_part opts = if opts.numbers then forced (digit_set opts) b'0' opts.min_numbers 0 else []

  unfoldable pub symbol_part : PasswordOptions → Text
  unfolding forced digit_part
  symbol_part opts =
      if opts.symbols
      then forced symbol_set b'!' opts.min_symbols (length (digit_part opts))
      else []

  abbrev or_default : Option PasswordOptions → PasswordOptions
  or_default none = default
  or_default (some opts) = opts

  -- behind the first test of the length; the sum of the two counts wraps around
  unfoldable pub generate_with : PasswordOptions → Outcome Text
  unfolding fill digit_part symbol_part
  generate_with opts =
      if ltb opts.length 4
      then err (internal (codes "minimum length is 4"))
      else if ltb opts.length ((opts.min_numbers + opts.min_symbols) % 2 ^ 64)
      then err (internal (codes "min_numbers + min_symbols cannot exceed the requested length"))
      else if length (full_set opts) == 0
      then err (internal (codes "no character set selected"))
      else (do
        let chars = digit_part opts ++ symbol_part opts
        more ← fill (full_set opts) (opts.length - length chars) (length chars)
        ok (rng.shuffle (chars ++ more)))

  unfoldable pub generate_password : Option PasswordOptions → Outcome Text
  unfolding generate_with
  generate_password opts = generate_with (or_default opts)
