-- ===== src/Server/Api/Identity/SecondSound.antt =====
-- What has been checked when a login has passed its second step.
use umewarden.Prelude.{
  ℕ, ◌≡◌, refl, sym, Bool, true, false, not, ◌&&◌, Option, none, some, List, [], ◌∷◌, find,
  find-eq-some, Bool-cases, inl, inr, arith, ◌==◌,
}
use umewarden.Prelude.Text.{Text}
use umewarden.Server.Db.{
  User, Device, TwoFactor, TwoFactorIncomplete, Db, no_usable_factor, bad_factor, pure, ◌>>=◌,
}
use umewarden.Server.Keeps.{Keeps, Keeps-bind, Keeps-if, Keeps-query, Keeps-execute, Keeps-pure}
use umewarden.Server.Ensures.{
  Ensures, Ensures-bind, Ensures-pure, Ensures-raise, Ensures-query, Ensures-if, Ensures-conclude,
  Ensures-when, Ensures-ran, Ensures-known, Ensures-fact, Ensures-Keeps, Ensures-weaken,
}
use umewarden.Server.Models.TwoFactor
use umewarden.Server.Models.TwoFactor.{TwoFactorType, remember, recovery_code, from_i32}
use umewarden.Server.Models.TwoFactorIncomplete
use umewarden.Server.Api.TwoFactor.{is_row_usable}
use umewarden.Server.Api.Identity.{ConnectData, Fresh, Env}
use umewarden.Server.Api.Identity.Second.{
  Passed, contains, is_always, usable_ids, check_factor, check_remember, use_recovery_code,
  validate, remember_device, second_step, with_rows, twofactor_auth, wants, is_empty,
}
use umewarden.Server.Api.Identity.FactorSound.{
  chosen_row, rows_of, IsSecond, no_factor, by_recovery, by_factor, refuse-returns,
  given_code-returns, check_remember-returns, use_recovery_code-returns,
}

module _ (env : Env) (now : ℕ) (fresh : Fresh) (ip : Text) (sends_mail : Bool)
    (asked : ConnectData) where
  abbrev HasPassed : List TwoFactor → List TwoFactor → User → Device → User → Type 0
  HasPassed table rows u d v =
      IsSecond env now fresh ip sends_mail asked table rows u d × (v.uuid ≡ u.uuid)

  -- a factor that leaves the user as they are
  factor-HasPassed :
      (table rows : List TwoFactor) (u : User) (d : Device) (code : Text) (row : TwoFactor)
      (t : TwoFactorType)
      → asked.two_factor_token ≡ some code
      → find (λ r. r.atype == row.atype && r.enabled) rows ≡ some row
      → from_i32 row.atype ≡ some t
      → Ensures
          (λ db. db.twofactor ≡ table)
          (check_factor env now fresh ip sends_mail asked u code (some row) t >>= λ _. pure u)
          (λ v _. HasPassed table rows u d v)
  factor-HasPassed table rows u d code row t g found type_of = Ensures-bind Ensures-ran (λ _.
      Ensures-pure u
        (λ db (before, h, run). (by_factor code row t before g found type_of h run, refl)))

  remember-HasPassed :
      {P : Db → Type 0} (table rows : List TwoFactor) (ids : List ℕ) (u : User) (d : Device)
      (code : Text)
      → asked.two_factor_token ≡ some code
      → Ensures P
          (check_remember env now fresh ip sends_mail asked ids u d code >>= λ _. pure u)
          (λ v _. HasPassed table rows u d v)
  remember-HasPassed table rows ids u d code g =
      Ensures-bind
        (check_remember-returns env now fresh ip sends_mail asked table rows ids u d code g)
        (λ _. Ensures-pure u (λ db h. (h, refl)))

  recovery-HasPassed :
      {P : Db → Type 0} (table rows : List TwoFactor) (u : User) (d : Device) (code : Text)
      → asked.two_factor_token ≡ some code
      → Ensures P
          (use_recovery_code env now fresh ip sends_mail asked u code)
          (λ v _. HasPassed table rows u d v)
  recovery-HasPassed table rows u d code g =
      Ensures-conclude (λ v db (right, same). (by_recovery code g right, same))
        (use_recovery_code-returns env now fresh ip sends_mail asked u code)

  row-HasPassed :
      (table rows : List TwoFactor) (ids : List ℕ) (u : User) (d : Device) (code : Text)
      (row : TwoFactor) (t : Option TwoFactorType)
      → asked.two_factor_token ≡ some code
      → find (λ r. r.atype == row.atype && r.enabled) rows ≡ some row
      → from_i32 row.atype ≡ t
      → Ensures
          (λ db. db.twofactor ≡ table)
          (validate env now fresh ip sends_mail asked ids u d code (some row) t)
          (λ v _. HasPassed table rows u d v)
  unfolding validate
  row-HasPassed table rows ids u d code row none g found e = Ensures-raise bad_factor
  row-HasPassed table rows ids u d code row (some remember) g found e =
      remember-HasPassed table rows ids u d code g
  row-HasPassed table rows ids u d code row (some recovery_code) g found e =
      recovery-HasPassed table rows u d code g
  row-HasPassed table rows ids u d code row (some t) g found e =
      factor-HasPassed table rows u d code row t g found e

  always-HasPassed :
      (table rows : List TwoFactor) (ids : List ℕ) (u : User) (d : Device) (code : Text)
      (row : Option TwoFactor) (selected : ℕ)
      → asked.two_factor_token ≡ some code
      → is_always selected ≡ true
      → Ensures
          (λ db. db.twofactor ≡ table)
          (validate env now fresh ip sends_mail asked ids u d code row (from_i32 selected))
          (λ v _. HasPassed table rows u d v)
  unfolding validate from_i32
  always-HasPassed table rows ids u d code row selected g h = elim (Bool-cases (selected == 5)) [
    | inl five ↦
        let e : selected ≡ 5 = ground (arith, five) in
        rw e (remember-HasPassed table rows ids u d code g)
    | inr other ↦
        let e : selected ≡ 8 = ground (arith, other, h) in
        rw e (recovery-HasPassed table rows u d code g)
  ]

  validate-HasPassed :
      (table rows : List TwoFactor) (u : User) (d : Device) (code : Text) (selected : ℕ)
      → asked.two_factor_token ≡ some code
      → (not (is_always selected)
          && not (contains selected (usable_ids env now fresh ip sends_mail asked rows)))
        ≡ false
      → Ensures
          (λ db. db.twofactor ≡ table)
          (validate env now fresh ip sends_mail asked
            (usable_ids env now fresh ip sends_mail asked rows)
            u
            d
            code
            (find (λ r. r.atype == selected && r.enabled) rows)
            (from_i32 selected))
          (λ v _. HasPassed table rows u d v)
  validate-HasPassed table rows u d code selected g h = elim (Bool-cases (is_always selected)) [
    | inl always ↦ always-HasPassed table rows _ u d code _ selected g always
    | inr other ↦
        let (row, e) =
          chosen_row (is_row_usable env.providers) selected rows (ground (arith, h, other)) in
        let same : row.atype ≡ selected =
          ground
            (arith, find-eq-some (λ (r : TwoFactor). r.atype == selected && r.enabled) rows e) in
        rw e (rw (← same) (row-HasPassed table rows _ u d code row _ g (rw (← same) at e) refl))
  ]

  abbrev pub IsPassed : List TwoFactor → List TwoFactor → User → Device → Passed → Type 0
  IsPassed table rows u d p =
      IsSecond env now fresh ip sends_mail asked table rows u d
      × (p.user.uuid ≡ u.uuid)
      × (p.device.uuid ≡ d.uuid)

  remember_device-IsPassed :
      (table rows : List TwoFactor) (u : User) (d : Device) (v : User)
      → HasPassed table rows u d v
      → IsPassed table rows u d (remember_device env now fresh ip sends_mail asked v d)
  unfolding remember_device
  remember_device-IsPassed table rows u d v (second, same) =
      elim (Bool-cases (not env.providers.remember_disabled && wants asked.two_factor_remember)) [
        | inl e ↦ rw e (second, same, refl)
        | inr e ↦ rw e (second, same, refl)
      ]

  second_step-IsPassed :
      (table rows : List TwoFactor) (u : User) (d : Device) (selected : ℕ)
      → Ensures
          (λ db. db.twofactor ≡ table)
          (second_step env now fresh ip sends_mail asked rows u d selected)
          (λ p _. IsPassed table rows u d p)
  unfolding second_step
  second_step-IsPassed table rows u d selected =
      let ids = usable_ids env now fresh ip sends_mail asked rows in
      Ensures-bind
        (Ensures-if (not (is_always selected) && not (contains selected ids))
          {Q = λ _ db.
            (db.twofactor ≡ table)
            × ((not (is_always selected) && not (contains selected ids)) ≡ false)}
          (λ refused. refuse-returns env now fresh ip sends_mail asked ids u.uuid)
          (λ allowed. Ensures-pure tt (λ db h. (h, allowed))))
        (λ _. Ensures-known (λ allowed.
          Ensures-bind
            (given_code-returns env now fresh ip sends_mail asked ids u.uuid asked.two_factor_token)
            (λ code. Ensures-known (λ given.
              Ensures-bind (validate-HasPassed table rows u d code selected given allowed) (λ v.
                Ensures-bind Ensures-fact (λ _.
                  Ensures-pure _
                    (λ db passed. remember_device-IsPassed table rows u d v passed)))))))

  mark_incomplete-Keeps :
      (table : List TwoFactor) (row : TwoFactorIncomplete)
      → Keeps (λ db. db.twofactor ≡ table) (TwoFactorIncomplete.mark_incomplete env.incomplete row)
  unfolding TwoFactorIncomplete.mark_incomplete TwoFactorIncomplete.insert_missing
  mark_incomplete-Keeps table row =
      Keeps-if (not (TwoFactorIncomplete.is_enabled env.incomplete)) (Keeps-pure tt) (
        Keeps-bind
          (Keeps-query (TwoFactorIncomplete.find_by_user_and_device row.user_uuid row.device_uuid))
          inserted)
    where
      inserted :
          (found : Option TwoFactorIncomplete)
          → Keeps (λ db. db.twofactor ≡ table) (TwoFactorIncomplete.insert_missing row found)
      inserted none = Keeps-execute (λ db later h. h) _ (λ db h. h)
      inserted (some _) = Keeps-pure tt

  with_rows-IsPassed :
      (table rows : List TwoFactor) (u : User) (d : Device)
      → Ensures
          (λ db. db.twofactor ≡ table)
          (with_rows env now fresh ip sends_mail asked u d rows)
          (λ p _. IsPassed table rows u d p)
  unfolding with_rows
  with_rows-IsPassed table [] u d = Ensures-pure _ (λ db h. (no_factor refl, refl, refl))
  with_rows-IsPassed table (r ∷ rs) u d =
      Ensures-bind (Ensures-Keeps (mark_incomplete-Keeps table _)) (λ _.
        Ensures-when (not (is_empty (usable_ids env now fresh ip sends_mail asked (r ∷ rs))))
          no_usable_factor (λ some_left. second_step-IsPassed table (r ∷ rs) u d _))

  same_rows :
      (table rows rs : List TwoFactor) (u : User) (d : Device)
      → rows ≡ rs
      → Ensures
          (λ db. db.twofactor ≡ table)
          (with_rows env now fresh ip sends_mail asked u d rows)
          (λ p _. IsPassed table rs u d p)
  same_rows table rows rs u d e = rw e (with_rows-IsPassed table rs u d)

  -- A login that has passed its second step has had one, over the second factors that it found.
  pub twofactor_auth-IsPassed :
      (table : List TwoFactor) (u : User) (d : Device)
      → Ensures
          (λ db. db.twofactor ≡ table)
          (twofactor_auth env now fresh ip sends_mail asked u d)
          (λ p _. IsPassed table (rows_of u.uuid table) u d p)
  unfolding twofactor_auth TwoFactor.find_by_user
  twofactor_auth-IsPassed table u d =
      Ensures-bind (Ensures-query (TwoFactor.find_by_user u.uuid)) (λ rows.
        Ensures-weaken (λ db (h, e). (h, rw h at (sym e)))
          (Ensures-known {F = rows ≡ rows_of u.uuid table}
            (λ same. same_rows table rows (rows_of u.uuid table) u d same)))
