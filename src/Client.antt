-- ===== src/Client.antt =====
-- client/src-tauri: the errors of error.rs, and the outcome of a call that may panic.
pub mod Totp
pub mod Keys
pub mod Generator
pub mod Model
pub mod Daemon
use umewarden.Prelude.{arith, ◌≡◌, refl, ℕ, List, Option, none, some}
use umewarden.Prelude.Text.{Text}

-- The messages of `VaultError`'s variants are texts.
pub data VaultError : Type 0 where
  vault_locked wrong_password : VaultError
  two_factor_required : List Text → VaultError
  not_found crypto kdbx api network io internal : Text → VaultError

-- What a call does: it returns, it returns an error, or the thread panics.
pub data Outcome {ℓ} (A : Type ℓ) : Type ℓ where
  ok : A → Outcome A
  err : VaultError → Outcome A
  panic : Outcome A

infixl 5 ◌>>=◌
abbrev pub ◌>>=◌ {ℓ κ} : {A : Type ℓ} {B : Type κ} → Outcome A → (A → Outcome B) → Outcome B
ok a >>= f = f a
err e >>= f = err e
panic >>= f = panic

-- `ok_or`
abbrev pub ok_or {ℓ} : {A : Type ℓ} → VaultError → Option A → Outcome A
ok_or e none = err e
ok_or e (some a) = ok a

-- `v[i]`: an index out of bounds panics
abbrev pub or_panic {ℓ} : {A : Type ℓ} → Option A → Outcome A
or_panic none = panic
or_panic (some a) = ok a

-- A sequence of two calls returns only if the first does.
pub returned_by {ℓ κ} :
    {A : Type ℓ} {B : Type κ} (first : Outcome A) (next : A → Outcome B) {b : B}
    → (first >>= next) ≡ ok b
    → (a : A) × (first ≡ ok a) × (next a ≡ ok b)
returned_by panic next h = absurd (ground arith)
returned_by (err e) next h = absurd (ground arith)
returned_by (ok a) next h = (a, refl, h)
