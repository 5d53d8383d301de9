-- ===== src/Server/Api/Identity/FactorSound.antt =====
-- What a login shows in its second step.
use umewarden.Prelude.{
  ℕ, ◌≡◌, refl, ap, Bool, true, false, ◌&&◌, Option, none, some, List, [], ◌∷◌, map, filter, find,
  Bool-cases, inl, inr, arith, ltb, ◌==◌,
}
use umewarden.Prelude.Text.{Text, text_eq, codes}
use umewarden.Server.Db.{User, Device, TwoFactor, Db, Result, ok, err, wrong_recovery_code}
use umewarden.Server.Ensures.{
  Ensures, Ensures-bind, Ensures-pure, Ensures-raise, Ensures-if, Ensures-conclude, Ensures-any,
  Ensures-when,
}
use umewarden.Server.Models.User.Laws.{save-returns}
use umewarden.Server.Models.User.Password.{check_valid_recovery_code}
use umewarden.Server.Models.TwoFactor.{TwoFactorType, from_i32}
use umewarden.Server.Auth.{decode_jwt}
use umewarden.Server.Auth.Claims.{TwoFactorRememberClaims, issuer}
use umewarden.Server.Api.Identity.{ConnectData, Fresh, Env}
use umewarden.Server.Api.Identity.Second.{
  contains, check_factor, is_remembered, check_remember, use_recovery_code, given_code, refuse,
}

-- a provider among the usable ones is that of a row that is turned on
pub chosen_row :
    (usable : TwoFactor → Bool) (selected : ℕ) (rows : List TwoFactor)
    → contains selected
        (map (λ (r : TwoFactor). r.atype) (filter (λ r. r.enabled && usable r) rows))
      ≡ true
    → (row : TwoFactor) × (find (λ r. r.atype == selected && r.enabled) rows ≡ some row)
chosen_row usable selected [] h = absurd (ground (arith, h))
chosen_row usable selected (r ∷ rs) h = elim (Bool-cases (r.atype == selected && r.enabled)) [
  | inl here ↦ (r, rw here refl)
  | inr other ↦
      let (row, e) = chosen_row usable selected rs (ground (arith, h, other)) in (row, rw other e)
]

-- the second factors of a user in the table
abbrev pub rows_of : ℕ → List TwoFactor → List TwoFactor
rows_of user table = filter (λ x. x.user_uuid == user && ltb x.atype 1000) table

module _ (env : Env) (now : ℕ) (fresh : Fresh) (ip : Text) (sends_mail : Bool)
    (asked : ConnectData) where
  -- the second factor of a login, over the rows of the user and the device
  pub data IsSecond (table rows : List TwoFactor) (u : User) (d : Device) : Type 0 where
    -- the user has none
    no_factor : rows ≡ [] → IsSecond table rows u d
    by_recovery :
        (code : Text)
        → asked.two_factor_token ≡ some code
        → check_valid_recovery_code env.reader u code ≡ true
        → IsSecond table rows u d
    -- the token that is stored for the device, signed for the device and the user
    by_remember :
        (code token : Text) (c : TwoFactorRememberClaims)
        → asked.two_factor_token ≡ some code
        → d.twofactor_remember ≡ some token
        → text_eq token code ≡ true
        → env.providers.remember_disabled ≡ false
        → decode_jwt env.remember_jwt now code (issuer env.auth (codes "|2faremember")) ≡ ok c
        → c.sub ≡ d.uuid
        → c.user_uuid ≡ u.uuid
        → IsSecond table rows u d
    -- a row of the user that is turned on, whose check has returned without an error from a database
    -- with the same second factors
    by_factor :
        (code : Text) (row : TwoFactor) (t : TwoFactorType) (before : Db)
        → asked.two_factor_token ≡ some code
        → find (λ r. r.atype == row.atype && r.enabled) rows ≡ some row
        → from_i32 row.atype ≡ some t
        → before.twofactor ≡ table
        → (check_factor env now fresh ip sends_mail asked u code (some row) t before).0 ≡ ok tt
        → IsSecond table rows u d

  -- an answer that refuses returns nothing
  pub refuse-returns :
      {P : Db → Type 0} {A : Type 0} {Q : A → Db → Type 0} (ids : List ℕ) (user : ℕ)
      → Ensures P (refuse env now fresh ip sends_mail asked {A = A} ids user) Q
  unfolding refuse
  refuse-returns ids user = Ensures-bind Ensures-any (λ _. Ensures-raise _)

  pub given_code-returns :
      {P : Db → Type 0} (ids : List ℕ) (user : ℕ) (given : Option Text)
      → Ensures P
          (given_code env now fresh ip sends_mail asked ids user given)
          (λ code db. P db × (given ≡ some code))
  given_code-returns ids user none = refuse-returns ids user
  given_code-returns ids user (some code) = Ensures-pure code (λ db h. (h, refl))

  -- a remember token that the test accepts has the parts of `by_remember`
  remembered_lem :
      (table rows : List TwoFactor) (u : User) (d : Device) (code : Text) (token : Option Text)
      (r : Result TwoFactorRememberClaims)
      → asked.two_factor_token ≡ some code
      → d.twofactor_remember ≡ token
      → decode_jwt env.remember_jwt now code (issuer env.auth (codes "|2faremember")) ≡ r
      → is_remembered env now fresh ip sends_mail asked u d code token ≡ true
      → IsSecond table rows u d
  remembered_lem table rows u d code none r g e v h = absurd (ground (arith, h))
  remembered_lem table rows u d code (some token) (err x) g e v h =
      absurd (ground (arith, rw v at h))
  remembered_lem table rows u d code (some token) (ok c) g e v h =
      let t = rw v at h in
      by_remember code token c g e (ground (arith, t)) (ground (arith, t)) v (ground (arith, t))
        (ground (arith, t))

  pub check_remember-returns :
      {P : Db → Type 0} (table rows : List TwoFactor) (ids : List ℕ) (u : User) (d : Device)
      (code : Text)
      → asked.two_factor_token ≡ some code
      → Ensures P
          (check_remember env now fresh ip sends_mail asked ids u d code)
          (λ _ _. IsSecond table rows u d)
  unfolding check_remember
  check_remember-returns table rows ids u d code g =
      Ensures-if (is_remembered env now fresh ip sends_mail asked u d code d.twofactor_remember)
        (λ yes. Ensures-pure tt (λ db h. remembered_lem table rows u d code _ _ g refl refl yes))
        (λ no. Ensures-bind Ensures-any (λ _. refuse-returns ids u.uuid))

  pub use_recovery_code-returns :
      {P : Db → Type 0} (u : User) (code : Text)
      → Ensures P
          (use_recovery_code env now fresh ip sends_mail asked u code)
          (λ v _. (check_valid_recovery_code env.reader u code ≡ true) × (v.uuid ≡ u.uuid))
  unfolding use_recovery_code
  use_recovery_code-returns u code =
      Ensures-when (check_valid_recovery_code env.reader u code) wrong_recovery_code (λ right.
        Ensures-bind Ensures-any (λ _.
          Ensures-conclude (λ v db e. (right, ap (λ (x : User). x.uuid) e))
            (save-returns env.reader now (record u { totp_recover = none }))))
