-- ===== src/Client/Generator/Counts.antt =====
-- The length of a generated password, and how many characters of which set it has.
use umewarden.Prelude.{
  ℕ, ◌+◌, ◌-◌, ◌%◌, ◌^◌, ◌≤◌, ◌<◌, ◌≡◌, refl, sym, ◌∙◌, Bool, Bool-cases, true, false, ◌||◌, some,
  inl, inr, [], ◌∷◌, ◌++◌, length, length-append, All, All-append, arith, ltb, ◌==◌, if◌then◌else◌,
}
use umewarden.Prelude.Text.{Text}
use umewarden.Client.{ok}
use umewarden.Client.Generator.{
  Rng, PasswordOptions, contains, symbol_set, digit_set, full_set, digit_part, symbol_part,
  generate_with, generate_password,
}
use umewarden.Client.Generator.Password.{
  count, IsRng, count-append, count_all, forced_count, fill-ok, digits_filled, symbols_filled,
  full_filled, digits_full, symbols_full, own,
}

abbrev wanted : Bool → ℕ → ℕ
wanted b n = if b then n else 0

count_units : (s : Text) → All (λ c. true ≡ true) s
count_units [] = tt
count_units (c ∷ s) = (refl, count_units s)

length_shuffle : (rng : Rng) → IsRng rng → (s : Text) → length (rng.shuffle s) ≡ length s
length_shuffle rng fair s =
    sym (count_all (λ c. true) (rng.shuffle s) (count_units (rng.shuffle s)))
    ∙ (fair.same_count (λ c. true) s ∙ count_all (λ c. true) s (count_units s))

module _ (rng : Rng) (fair : IsRng rng) (opts : PasswordOptions) where
  digit_part_lem :
      (p : ℕ → Bool)
      → (opts.numbers ≡ true → All (λ c. p c ≡ true) (digit_set opts))
      → All (λ c. p c ≡ true) (digit_part rng opts)
        × (length (digit_part rng opts) ≡ wanted opts.numbers opts.min_numbers)
  unfolding digit_part
  digit_part_lem p h = elim (Bool-cases opts.numbers) [
    | inl e ↦ rw e (
        forced_count rng fair (digit_set opts) (digits_filled opts) b'0' opts.min_numbers 0 p (h e))
    | inr e ↦ rw e (tt, refl)
  ]

  symbol_part_lem :
      (p : ℕ → Bool)
      → (opts.symbols ≡ true → All (λ c. p c ≡ true) symbol_set)
      → All (λ c. p c ≡ true) (symbol_part rng opts)
        × (length (symbol_part rng opts) ≡ wanted opts.symbols opts.min_symbols)
  unfolding symbol_part
  symbol_part_lem p h = elim (Bool-cases opts.symbols) [
    | inl e ↦ rw e (
        forced_count rng fair symbol_set (symbols_filled opts) b'!' opts.min_symbols
          (length (digit_part rng opts)) p (h e))
    | inr e ↦ rw e (tt, refl)
  ]

  abbrev chars : Text
  chars = digit_part rng opts ++ symbol_part rng opts

  total :
      (more : Text)
      → opts.min_numbers + opts.min_symbols ≤ opts.length
      → length more ≡ opts.length - length chars
      → length (chars ++ more) ≡ opts.length
  total more room len =
      let (_, a) = digit_part_lem (λ c. true) (λ e. count_units (digit_set opts)) in
      let (_, b) = symbol_part_lem (λ c. true) (λ e. count_units symbol_set) in
      let fits : wanted opts.numbers opts.min_numbers + wanted opts.symbols opts.min_symbols
          ≤ opts.length =
        ground arith in
      omega (
        arith,
        length-append chars more,
        length-append (digit_part rng opts) (symbol_part rng opts),
      )

  least_digits :
      (more : Text)
      → wanted opts.numbers opts.min_numbers ≤ count (contains (digit_set opts)) (chars ++ more)
  least_digits more =
      let p = contains (digit_set opts) in
      let (h, len) = digit_part_lem p (λ e. own (digit_set opts)) in
      omega (
        arith,
        count-append p chars more,
        count-append p (digit_part rng opts) (symbol_part rng opts),
        count_all p (digit_part rng opts) h,
      )

  least_symbols :
      (more : Text)
      → wanted opts.symbols opts.min_symbols ≤ count (contains symbol_set) (chars ++ more)
  least_symbols more =
      let p = contains symbol_set in
      let (h, len) = symbol_part_lem p (λ e. own symbol_set) in
      omega (
        arith,
        count-append p chars more,
        count-append p (digit_part rng opts) (symbol_part rng opts),
        count_all p (symbol_part rng opts) h,
      )

  all_full :
      (more : Text)
      → All (λ c. contains (full_set opts) c ≡ true) more
      → All (λ c. contains (full_set opts) c ≡ true) (chars ++ more)
  all_full more h =
      let p = contains (full_set opts) in
      let (d, _) = digit_part_lem p (digits_full opts) in
      let (s, _) = symbol_part_lem p (symbols_full opts) in
      All-append (λ c. p c ≡ true) chars more
        (All-append (λ c. p c ≡ true) (digit_part rng opts) (symbol_part rng opts) d s) h

  -- With some kind of character chosen, a length of 4 or more, and no more required digits and
  -- symbols than the length, a password is generated. It has exactly the length, each of its
  -- characters is of a chosen kind, and at least the required counts of digits and of symbols are
  -- among them, as far as these kinds are chosen.
  pub generate_password-ok :
      4 ≤ opts.length
      → opts.min_numbers + opts.min_symbols ≤ opts.length
      → opts.length < 2 ^ 64
      → (opts.uppercase || (opts.lowercase || (opts.numbers || opts.symbols))) ≡ true
      → (s : Text) × (generate_password rng (some opts) ≡ ok s)
        × (length s ≡ opts.length)
        × (count (contains (full_set opts)) s ≡ opts.length)
        × (wanted opts.numbers opts.min_numbers ≤ count (contains (digit_set opts)) s)
        × (wanted opts.symbols opts.min_symbols ≤ count (contains symbol_set) s)
  unfolding generate_password generate_with
  generate_password-ok long room small chosen =
      let filled = full_filled opts chosen in
      let (more, f, len, all_) =
        fill-ok rng fair (full_set opts) filled (opts.length - length chars) (length chars) in
      let g1 : ltb opts.length 4 ≡ false = ground arith in
      let g2 : ltb opts.length ((opts.min_numbers + opts.min_symbols) % 2 ^ 64) ≡ false =
        ground arith in
      let g3 : (length (full_set opts) == 0) ≡ false = ground arith in
      (
        rng.shuffle (chars ++ more),
        rw (g1, g2, g3) (rw f refl),
        length_shuffle rng fair (chars ++ more) ∙ total more room len,
        fair.same_count (contains (full_set opts)) (chars ++ more)
            ∙ (count_all (contains (full_set opts)) (chars ++ more)
                  (all_full more (all_ (contains (full_set opts)) (own (full_set opts))))
                ∙ total more room len),
        rw (fair.same_count (contains (digit_set opts)) (chars ++ more)) (least_digits more),
        rw (fair.same_count (contains symbol_set) (chars ++ more)) (least_symbols more),
      )
