-- ===== src/Client/Generator/Password.antt =====
-- What a generated password holds.
use umewarden.Prelude.{
  ℕ, zero, suc, ◌+◌, ◌≤◌, ◌<◌, ◌≡◌, refl, ap, Bool, Bool-cases, true, not, ◌||◌, some, inl, inr, [],
  ◌∷◌, ◌++◌, length, length-append, get_elem?, filter, All, arith, if◌then◌else◌,
}
use umewarden.Prelude.Text.{Text, codes}
use umewarden.Client.{ok}
use umewarden.Client.Generator.{
  Rng, PasswordOptions, contains, ambiguous, unambiguous, symbol_set, digit_set, uppers, lowers,
  digits, signs, full_set, forced, fill, at_least_one,
}

pub count : (ℕ → Bool) → Text → ℕ
count p [] = 0
count p (c ∷ s) = let rest = count p s in if p c then suc rest else rest

-- What the program relies on of the random generator: a draw is below its bound, and a shuffle only
-- moves the characters.
pub record IsRng (rng : Rng) : Type 0 where
  pub in_range : (k bound : ℕ) → 1 ≤ bound → rng.gen_range k bound < bound
  pub same_count : (p : ℕ → Bool) (s : Text) → count p (rng.shuffle s) ≡ count p s

pub count-append : (p : ℕ → Bool) (s t : Text) → count p (s ++ t) ≡ count p s + count p t
unfolding count
count-append p [] t = omega arith
count-append p (c ∷ s) t = ground (arith, count-append p s t)

pub count_all : (p : ℕ → Bool) (s : Text) → All (λ c. p c ≡ true) s → count p s ≡ length s
unfolding count
count_all p [] h = refl
count_all p (c ∷ s) (e, h) = rw e (ap suc (count_all p s h))

drawn :
    (set : Text) (i : ℕ)
    → i < length set
    → (c : ℕ) × (get_elem? set i ≡ some c)
      × ((p : ℕ → Bool) → All (λ x. p x ≡ true) set → p c ≡ true)
drawn [] i h = absurd (omega arith)
drawn (x ∷ set) zero h = (x, refl, λ p (e, _). e)
drawn (x ∷ set) (suc i) h = let (c, e, q) = drawn set i (omega arith) in (c, e, λ p (_, k). q p k)

module _ (rng : Rng) (fair : IsRng rng) (set : Text) (filled : 1 ≤ length set) where
  pub forced_count :
      (fallback n k : ℕ) (p : ℕ → Bool)
      → All (λ x. p x ≡ true) set
      → All (λ x. p x ≡ true) (forced rng set fallback n k)
        × (length (forced rng set fallback n k) ≡ n)
  unfolding forced
  forced_count fallback zero k p h = (tt, refl)
  forced_count fallback (suc n) k p h =
      let same : at_least_one (length set) ≡ length set = ground arith in
      let (c, e, q) =
        drawn set (rng.gen_range k (length set)) (fair.in_range k (length set) filled) in
      let (rest, len) = forced_count fallback n (suc k) p h in
      rw (same, e) ((q p h, rest), ap suc len)

  pub fill-ok :
      (n k : ℕ)
      → (s : Text) × (fill rng set n k ≡ ok s)
        × (length s ≡ n)
        × ((p : ℕ → Bool) → All (λ x. p x ≡ true) set → All (λ x. p x ≡ true) s)
  unfolding fill
  fill-ok zero k = ([], refl, refl, λ p h. tt)
  fill-ok (suc n) k =
      let (c, e, q) =
        drawn set (rng.gen_range k (length set)) (fair.in_range k (length set) filled) in
      let (s, f, len, all_) = fill-ok n (suc k) in
      (c ∷ s, rw e (rw f refl), ap suc len, λ p h. (q p h, all_ p h))

contains-front : (s t : Text) (c : ℕ) → contains s c ≡ true → contains (s ++ t) c ≡ true
contains-front [] t c h = absurd (ground arith)
contains-front (x ∷ s) t c h = ground (arith, contains-front s t c)

contains-back : (s t : Text) (c : ℕ) → contains t c ≡ true → contains (s ++ t) c ≡ true
contains-back [] t c h = h
contains-back (x ∷ s) t c h = ground (arith, contains-back s t c h)

All-imp : (P Q : ℕ → Type 0) → ((c : ℕ) → P c → Q c) → (s : Text) → All P s → All Q s
All-imp P Q f [] h = tt
All-imp P Q f (c ∷ s) (p, h) = (f c p, All-imp P Q f s h)

pub own : (s : Text) → All (λ c. contains s c ≡ true) s
own [] = tt
own (x ∷ s) = (
  ground arith,
  All-imp (λ c. contains s c ≡ true) (λ c. contains (x ∷ s) c ≡ true) (λ c h. ground arith) s
      (own s),
)

filled_front : (s t : Text) → 1 ≤ length s → 1 ≤ length (s ++ t)
filled_front s t h = omega (arith, length-append s t)

filled_back : (s t : Text) → 1 ≤ length t → 1 ≤ length (s ++ t)
filled_back s t h = omega (arith, length-append s t)

filled_if : (b : Bool) (s : Text) → 1 ≤ length s → b ≡ true → 1 ≤ length (if b then s else [])
filled_if b s h e = rw e h

module _ (opts : PasswordOptions) where
  -- a set of characters that is filtered by the option on ambiguous ones
  unambiguous_filled :
      (s : Text)
      → 1 ≤ length s
      → 1 ≤ length (filter (λ c. not (contains ambiguous c)) s)
      → 1 ≤ length (unambiguous opts s)
  unambiguous_filled s h k = elim (Bool-cases opts.avoid_ambiguous) [
    | inl e ↦ rw e k
    | inr e ↦ rw e (whole s h)
  ]
    where
      whole : (t : Text) → 1 ≤ length t → 1 ≤ length (filter (λ c. true) t)
      whole [] h = h
      whole (c ∷ t) h = omega arith

  pub digits_filled : 1 ≤ length (digit_set opts)
  digits_filled = unambiguous_filled (codes "0123456789") (omega arith) (omega arith)

  pub symbols_filled : 1 ≤ length symbol_set
  symbols_filled = omega arith

  pub full_filled :
      (opts.uppercase || (opts.lowercase || (opts.numbers || opts.symbols))) ≡ true
      → 1 ≤ length (full_set opts)
  full_filled h = elim (Bool-cases opts.uppercase) [
    | inl e ↦ filled_front (uppers opts) (lowers opts ++ (digits opts ++ signs opts)) (
        filled_if opts.uppercase (unambiguous opts (codes "ABCDEFGHIJKLMNOPQRSTUVWXYZ"))
          (unambiguous_filled (codes "ABCDEFGHIJKLMNOPQRSTUVWXYZ") (omega arith) (omega arith)) e)
    | inr u ↦
        filled_back (uppers opts) (lowers opts ++ (digits opts ++ signs opts))
          (elim (Bool-cases opts.lowercase) [
            | inl e ↦ filled_front (lowers opts) (digits opts ++ signs opts) (
                filled_if opts.lowercase (unambiguous opts (codes "abcdefghijklmnopqrstuvwxyz"))
                  (unambiguous_filled (codes "abcdefghijklmnopqrstuvwxyz") (omega arith)
                    (omega arith))
                  e)
            | inr l ↦
                filled_back (lowers opts) (digits opts ++ signs opts)
                  (elim (Bool-cases opts.numbers) [
                    | inl e ↦
                        filled_front (digits opts) (signs opts)
                          (filled_if opts.numbers (digit_set opts) digits_filled e)
                    | inr n ↦
                        filled_back (digits opts) (signs opts)
                          (filled_if opts.symbols symbol_set symbols_filled (rw (u, l, n) at h))
                  ])
          ])
  ]

  pub digits_full :
      opts.numbers ≡ true → All (λ c. contains (full_set opts) c ≡ true) (digit_set opts)
  digits_full e =
      All-imp (λ c. contains (digit_set opts) c ≡ true) (λ c. contains (full_set opts) c ≡ true)
        (λ c h. contains-back (uppers opts) (lowers opts ++ (digits opts ++ signs opts)) c (
          contains-back (lowers opts) (digits opts ++ signs opts) c
            (contains-front (digits opts) (signs opts) c (rw e h))))
        (digit_set opts) (own (digit_set opts))

  pub symbols_full : opts.symbols ≡ true → All (λ c. contains (full_set opts) c ≡ true) symbol_set
  symbols_full e =
      All-imp (λ c. contains symbol_set c ≡ true) (λ c. contains (full_set opts) c ≡ true)
        (λ c h. contains-back (uppers opts) (lowers opts ++ (digits opts ++ signs opts)) c (
          contains-back (lowers opts) (digits opts ++ signs opts) c
            (contains-back (digits opts) (signs opts) c (rw e h))))
        symbol_set (own symbol_set)
