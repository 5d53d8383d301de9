-- ===== src/Server/Models/TwoFactor/Keys.antt =====
-- The table twofactor never holds two rows with one uuid, nor two of one user and type.
use mathlib.Core.Bool.{not}
use umewarden.Prelude.{
  ℕ, ◌≡◌, refl, inl, inr, ◌&&◌, Bool, true, false, Bool-cases, none, some, List, [], ◌∷◌, All,
  All-filter, filter, find, arith, ◌==◌,
}
use umewarden.Server.Db.{TwoFactor, Db, ok, execute-keeps}
use umewarden.Server.Models.TwoFactor.{
  conflicts, save, delete, find_by_user_and_type, delete_all_by_user,
}

abbrev pub IsKeyed : List TwoFactor → Type 0
IsKeyed [] = Unit
IsKeyed (x ∷ xs) = All (λ y. conflicts x y ≡ false) xs × IsKeyed xs

filter-IsKeyed : (q : TwoFactor → Bool) (xs : List TwoFactor) → IsKeyed xs → IsKeyed (filter q xs)
filter-IsKeyed q [] h = tt
filter-IsKeyed q (x ∷ xs) (p, h) = elim (Bool-cases (q x)) [
  | inl e ↦ rw e (All-filter (λ y. conflicts x y ≡ false) q xs p, filter-IsKeyed q xs h)
  | inr e ↦ rw e (filter-IsKeyed q xs h)
]

not-conflicts :
    (r : TwoFactor) (xs : List TwoFactor)
    → All (λ y. conflicts r y ≡ false) (filter (λ x. not (conflicts r x)) xs)
not-conflicts r [] = tt
not-conflicts r (x ∷ xs) = elim (Bool-cases (conflicts r x)) [
  | inl e ↦ rw e (not-conflicts r xs)
  | inr e ↦ rw e (e, not-conflicts r xs)
]

save-IsKeyed : (r : TwoFactor) (db : Db) → IsKeyed db.twofactor → IsKeyed (save r db).1.twofactor
unfolding save
save-IsKeyed r db h =
    execute-keeps (λ d. IsKeyed d.twofactor) (λ d later k. k) _ db h
      (not-conflicts r db.twofactor, filter-IsKeyed _ db.twofactor h)

delete-IsKeyed :
    (r : TwoFactor) (db : Db) → IsKeyed db.twofactor → IsKeyed (delete r db).1.twofactor
unfolding delete
delete-IsKeyed r db h =
    execute-keeps (λ d. IsKeyed d.twofactor) (λ d later k. k) _ db h
      (filter-IsKeyed _ db.twofactor h)

delete_all_by_user-IsKeyed :
    (user : ℕ) (db : Db) → IsKeyed db.twofactor → IsKeyed (delete_all_by_user user db).1.twofactor
unfolding delete_all_by_user
delete_all_by_user-IsKeyed user db h =
    execute-keeps (λ d. IsKeyed d.twofactor) (λ d later k. k) _ db h
      (filter-IsKeyed _ db.twofactor h)

-- Every statement on the table, whether it fails or not, keeps the rows' keys apart: no two rows
-- have the same uuid, nor the same user and type.
pub statements-IsKeyed :
    (r : TwoFactor) (user : ℕ) (db : Db)
    → IsKeyed db.twofactor
    → IsKeyed (save r db).1.twofactor
      × IsKeyed (delete r db).1.twofactor
      × IsKeyed (delete_all_by_user user db).1.twofactor
statements-IsKeyed r user db h =
    (save-IsKeyed r db h, delete-IsKeyed r db h, delete_all_by_user-IsKeyed user db h)

module _ (user atype : ℕ) where
  abbrev is_row : TwoFactor → Bool
  is_row x = x.user_uuid == user && x.atype == atype

  others :
      (r : TwoFactor) (id : ℕ) (xs : List TwoFactor)
      → is_row r ≡ true
      → All (λ y. conflicts r y ≡ false) xs
      → find is_row (filter (λ x. not (x.uuid == id)) xs) ≡ none
  others r id [] m h = refl
  others r id (x ∷ xs) m (c, h) = ground (arith, others r id xs m h)

  pub find-filter :
      (r : TwoFactor) (xs : List TwoFactor)
      → IsKeyed xs
      → find is_row xs ≡ some r
      → find is_row (filter (λ x. not (x.uuid == r.uuid)) xs) ≡ none
  find-filter r [] k h = refl
  find-filter r (x ∷ xs) (c, k) h = elim (Bool-cases (is_row x)) [
    | inl e ↦ ground (arith, others x r.uuid xs e c)
    | inr e ↦ ground (arith, find-filter r xs k)
  ]

-- After a row found by user and type is deleted, none is found.
pub find-delete :
    (user atype : ℕ) (r r' : TwoFactor) (db db' : Db)
    → IsKeyed db.twofactor
    → find_by_user_and_type user atype db ≡ some r
    → r'.uuid ≡ r.uuid
    → delete r' db ≡ (ok tt, db')
    → find_by_user_and_type user atype db' ≡ none
unfolding delete find_by_user_and_type
find-delete user atype r r' db db' k f same h =
    ground (arith, find-filter user atype r db.twofactor k f)
