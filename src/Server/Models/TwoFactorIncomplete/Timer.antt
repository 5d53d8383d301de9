-- ===== src/Server/Models/TwoFactorIncomplete/Timer.antt =====
-- The timer of an incomplete login: repeated attempts do not set it back.
use umewarden.Prelude.{
  ℕ, ◌≡◌, refl, ◌∙◌, inl, inr, Bool, Bool-cases, true, false, not, ◌&&◌, some, Option-cases, List,
  [], ◌∷◌, filter, find, arith, ◌==◌,
}
use umewarden.Server.Db.{TwoFactorIncomplete, Db, execute-keeps}
use umewarden.Server.Models.TwoFactorIncomplete.{
  Config, is_enabled, is_pair, find_by_user_and_device, insert_missing, mark_incomplete,
  mark_complete, delete_by_user_and_device,
}

-- calls of other requests: attempts of any user and device, and completions
pub data Call : Type 0 where
  attempted : TwoFactorIncomplete → Call
  completed : ℕ → ℕ → Call

pub after_calls : Config → List Call → Db → Db
after_calls config [] db = db
after_calls config (attempted row ∷ calls) db =
    after_calls config calls (mark_incomplete config row db).1
after_calls config (completed user device ∷ calls) db =
    after_calls config calls (mark_complete config user device db).1

-- no call completes the login of the pair
abbrev pub IsOpen : ℕ → ℕ → List Call → Type 0
IsOpen user device [] = Unit
IsOpen user device (attempted row ∷ calls) = IsOpen user device calls
IsOpen user device (completed u d ∷ calls) =
    ((u == user && d == device) ≡ false) × IsOpen user device calls

find-other :
    (p q : TwoFactorIncomplete → Bool) (xs : List TwoFactorIncomplete)
    → ((x : TwoFactorIncomplete) → p x ≡ true → q x ≡ true)
    → find p (filter q xs) ≡ find p xs
find-other p q [] h = refl
find-other p q (x ∷ xs) h = elim (Bool-cases (p x)) [
  | inl e ↦ rw (h x e, e) refl
  | inr e ↦ ground (arith, find-other p q xs h)
]

module _ (config : Config) (user device : ℕ) (row : TwoFactorIncomplete) where
  abbrev IsWaiting : Db → Type 0
  IsWaiting db = find (is_pair user device) db.twofactor_incomplete ≡ some row

  attempt-IsWaiting :
      (other : TwoFactorIncomplete) (db : Db)
      → IsWaiting db
      → IsWaiting (mark_incomplete config other db).1
  unfolding mark_incomplete insert_missing find_by_user_and_device
  attempt-IsWaiting other db h = elim (Bool-cases (is_enabled config)) [
    | inr e ↦ rw e h
    | inl e ↦
        elim (Option-cases
          (find (is_pair other.user_uuid other.device_uuid) db.twofactor_incomplete)) [
            | inr (x, f) ↦ rw (e, f) h
            | inl f ↦
                rw (e, f)
                  (execute-keeps IsWaiting (λ db later k. k) _ db h
                    (elim (Bool-cases (is_pair user device other)) [
                      | inr g ↦ rw g h
                      | inl g ↦
                          let u : other.user_uuid ≡ user = ground arith in
                          let d : other.device_uuid ≡ device = ground arith in
                          let none_ = rw (u, d) at f in absurd (ground arith)
                    ]))
          ]
  ]

  complete-IsWaiting :
      (u d : ℕ) (db : Db)
      → (u == user && d == device) ≡ false
      → IsWaiting db
      → IsWaiting (mark_complete config u d db).1
  unfolding mark_complete delete_by_user_and_device
  complete-IsWaiting u d db apart h = elim (Bool-cases (is_enabled config)) [
    | inr e ↦ rw e h
    | inl e ↦ rw e (
        execute-keeps IsWaiting (λ db later k. k) _ db h
          (find-other (is_pair user device) (λ x. not (is_pair u d x)) db.twofactor_incomplete
              (λ x g. ground arith)
            ∙ h))
  ]

  -- Once a login of a user with a device waits for its second factor, its row stays as it is through
  -- any attempts, of this pair too, through completions of other pairs, and through failed
  -- statements: the time that the notification is measured from is the time of the first attempt.
  pub calls-IsWaiting :
      (calls : List Call) (db : Db)
      → IsOpen user device calls
      → find_by_user_and_device user device db ≡ some row
      → find_by_user_and_device user device (after_calls config calls db) ≡ some row
  unfolding find_by_user_and_device after_calls
  calls-IsWaiting [] db o h = h
  calls-IsWaiting (attempted other ∷ calls) db o h =
      calls-IsWaiting calls _ o (attempt-IsWaiting other db h)
  calls-IsWaiting (completed u d ∷ calls) db (apart, o) h =
      calls-IsWaiting calls _ o (complete-IsWaiting u d db apart h)
