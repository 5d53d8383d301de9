-- ===== src/Client/Totp/Generate.antt =====
-- `generate` behind the parser: the countdown that the frontend shows, and the inputs that panic.
use native.Mathlib.Nat.{pow-suc, div-eq_of_lt-le, div-add-mod', mod-lt}
use umewarden.Prelude.{
  ℕ, zero, suc, ◌+◌, ◌-◌, ◌*◌, ◌/◌, ◌%◌, ◌^◌, ◌≤◌, ◌<◌, ◌≡◌, refl, ap, ◌∙◌, ◌≢◌, ◌⊎◌, inl, inr, ◌↔◌,
  some, true, false, not, Bool-cases, List, [], ◌∷◌, arith, ◌==◌, holds_below, holds_below-at,
}
use umewarden.Prelude.Text.{Text}
use umewarden.Client.{Outcome, ok, err, panic, ◌>>=◌, returned_by}
use umewarden.Client.Totp.{be_bytes, code_of, hotp, TotpParams, generate_from}
use umewarden.Client.Totp.Hotp.{IsHmacSha1, truncated_lem, rfc4226_bits}

pow_wraps : (k d : ℕ) → d ≡ k + 32 → 10 ^ d % 2 ^ 32 ≡ 0
pow_wraps zero d e = let e' : d ≡ 32 = omega arith in rw e' refl
pow_wraps (suc k) zero e = absurd (omega arith)
pow_wraps (suc k) (suc d) e = omega (arith, pow-suc 10 d, pow_wraps k d (omega arith))

pow_table : holds_below (λ d. not (10 ^ d % 2 ^ 32 == 0)) 32 ≡ true
unfolding holds_below
pow_table = refl

pow_stays : (d : ℕ) → d < 32 → (10 ^ d % 2 ^ 32 == 0) ≡ false
pow_stays d h = ground (arith, holds_below-at (λ e. not (10 ^ e % 2 ^ 32 == 0)) 32 d h pow_table)

code_of-eq-panic_iff : (d b : ℕ) → (code_of d b ≡ panic) ↔ (32 ≤ d)
unfolding code_of
code_of-eq-panic_iff d b = (
  λ h. ground (arith, pow_stays d),
  λ le. let z : (10 ^ d % 2 ^ 32 == 0) ≡ true = ground (arith, pow_wraps (d - 32) d) in rw z refl,
)

module _ (now p k : ℕ) (pos : 0 < p) where
  same_quotient : k < p - now % p → (now + k) / p ≡ now / p
  same_quotient h =
      div-eq_of_lt-le p (omega (arith, div-add-mod' now p))
        (omega (arith, div-add-mod' now p, mod-lt now pos))

  later_rest : k < p - now % p → (now + k) % p ≡ now % p + k
  later_rest h = omega (
    arith,
    same_quotient h,
    div-add-mod' now p,
    div-add-mod' (now + k) p,
    ap (λ q. q * p) (same_quotient h),
  )

next_quotient : (now p : ℕ) → 0 < p → (now + (p - now % p)) / p ≡ now / p + 1
next_quotient now p pos =
    div-eq_of_lt-le p (omega (arith, div-add-mod' now p, mod-lt now pos))
      (omega (arith, div-add-mod' now p, mod-lt now pos))

module _ (hmac_sha1 : List ℕ → List ℕ → List ℕ) (params : TotpParams) (now : ℕ) {r : ℕ}
    {code : Text} where
  -- `as u8` keeps the countdown of a period up to 255.
  generated_lem :
      params.period ≤ 255
      → generate_from hmac_sha1 (some now) params ≡ ok (code, r)
      → (0 < params.period)
        × (hotp hmac_sha1 params.secret (now / params.period) params.digits ≡ ok code)
        × (r ≡ params.period - now % params.period)
  unfolding generate_from
  generated_lem small h = elim (Bool-cases (params.period == 0)) [
    | inl z ↦ absurd (ground arith)
    | inr nz ↦
        let m = hotp hmac_sha1 params.secret (now / params.period) params.digits in
        let (c, e, same) =
          returned_by m (λ c. ok (c, (params.period - now % params.period) % 256))
            (rw (nz, generate_from) at h) in
        (ground arith, e ∙ ground (arith, same), ground (arith, same))
  ]

bind-eq-panic_iff {ℓ κ} :
    {A : Type ℓ} {B : Type κ} (m : Outcome A) (f : A → B)
    → ((m >>= λ a. ok (f a)) ≡ panic) ↔ (m ≡ panic)
bind-eq-panic_iff (ok a) f = (λ h. absurd (ground arith), λ h. absurd (ground arith))
bind-eq-panic_iff (err e) f = (λ h. absurd (ground arith), λ h. absurd (ground arith))
bind-eq-panic_iff panic f = (λ _. refl, λ _. refl)

right_of {ℓ κ} : {A : Type ℓ} {B : Type κ} → ¬ A → A ⊎ B → B
right_of n (inl a) = absurd (n a)
right_of n (inr b) = b

hotp-eq-panic_iff :
    (hmac_sha1 : List ℕ → List ℕ → List ℕ)
    → IsHmacSha1 hmac_sha1
    → (secret : List ℕ) (counter digits : ℕ)
    → (hotp hmac_sha1 secret counter digits ≡ panic) ↔ ((secret ≢ []) × (32 ≤ digits))
unfolding hotp
hotp-eq-panic_iff hmac is_hmac [] counter digits =
    (λ h. absurd (ground arith), λ h. absurd (h.0 refl))
hotp-eq-panic_iff hmac is_hmac (b ∷ bs) counter digits =
    let tag = hmac (b ∷ bs) (be_bytes 8 counter) in
    let cut = truncated_lem tag (is_hmac.tag_length _ _) (is_hmac.tag_bytes _ _) in
    let (to, from) = code_of-eq-panic_iff digits (rfc4226_bits tag) in
    rw cut (λ h. (λ e. cc, to h), λ h. from h.1)

module _ (hmac_sha1 : List ℕ → List ℕ → List ℕ) (params : TotpParams) (now : ℕ) where
  -- When `generate` has returned a code with the countdown `r`, and the period is at most 255
  -- seconds, then `k` seconds later, for `k` below `r`, it returns the same code with the countdown
  -- `r - k`, and `r` seconds later the counter is the next one.
  pub generate_countdown :
      {r : ℕ} {code : Text} (k : ℕ)
      → params.period ≤ 255
      → generate_from hmac_sha1 (some now) params ≡ ok (code, r)
      → k < r
      → (generate_from hmac_sha1 (some (now + k)) params ≡ ok (code, r - k))
        × ((now + r) / params.period ≡ now / params.period + 1)
  unfolding generate_from
  generate_countdown {r} {code} k small h lt =
      let p = params.period in
      let (pos, hot, countdown) = generated_lem hmac_sha1 params now small h in
      let nz : (p == 0) ≡ false = ground arith in
      let soon : k < p - now % p = omega arith in
      let left : (p - (now + k) % p) % 256 ≡ r - k =
        omega (arith, later_rest now p k pos soon, mod-lt now pos) in
      (
        rw (nz, same_quotient now p k pos soon, hot) (rw left refl),
        rw countdown (next_quotient now p pos),
      )

  -- With HMAC-SHA1's tags of 20 bytes and the clock behind the Unix epoch, `generate` panics exactly
  -- for a period of zero, and for a secret that is not empty with 32 digits or more.
  pub generate-eq-panic_iff :
      IsHmacSha1 hmac_sha1
      → (generate_from hmac_sha1 (some now) params ≡ panic)
        ↔ ((params.period ≡ 0) ⊎ ((params.secret ≢ []) × (32 ≤ params.digits)))
  unfolding generate_from
  generate-eq-panic_iff is_hmac = elim (Bool-cases (params.period == 0)) [
    | inl z ↦ (λ _. inl (ground arith), λ _. rw z refl)
    | inr nz ↦
        let m = hotp hmac_sha1 params.secret (now / params.period) params.digits in
        let (to, from) =
          hotp-eq-panic_iff hmac_sha1 is_hmac params.secret (now / params.period) params.digits in
        let positive : params.period ≢ 0 = ground arith in
        rw (nz, generate_from)
          (
            λ h. inr (to ((bind-eq-panic_iff m _).0 h)),
            λ h. (bind-eq-panic_iff m _).1 (from (right_of positive h)),
          )
  ]
