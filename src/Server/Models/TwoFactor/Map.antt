-- ===== src/Server/Models/TwoFactor/Map.antt =====
-- The table twofactor as a map: what is found under each pair of a user and a type behind a statement.
use mathlib.Core.Path.{subst}
use umewarden.Prelude.{
  ℕ, ◌≡◌, refl, inl, inr, ◌&&◌, ◌||◌, not, Bool, true, false, Bool-cases, Option, none, some, List,
  [], ◌∷◌, All, All-find, filter, find, arith, ◌==◌, if◌then◌else◌,
}
use umewarden.Server.Db.{TwoFactor, Db}
use umewarden.Server.Models.TwoFactor.{
  conflicts, save, delete, find_by_user_and_type, delete_all_by_user,
}
use umewarden.Server.Models.TwoFactor.Keys.{IsKeyed, find-filter}

-- the row has the pair
abbrev pub is_at : ℕ → ℕ → TwoFactor → Bool
is_at user atype x = x.user_uuid == user && x.atype == atype

-- the uuid of the row is that of no row with another pair
abbrev pub IsFresh : TwoFactor → List TwoFactor → Type 0
IsFresh r = All (λ x. (not (x.uuid == r.uuid) || is_at r.user_uuid r.atype x) ≡ true)

module _ (user atype : ℕ) where
  -- rows that a statement removes are those of the pair, or not of it
  find-kept :
      (q : TwoFactor → Bool) (xs : List TwoFactor)
      → All (λ x. (not (is_at user atype x) || q x) ≡ true) xs
      → find (is_at user atype) (filter q xs) ≡ find (is_at user atype) xs
  find-kept q [] h = refl
  find-kept q (x ∷ xs) (p, h) =
      let ih = find-kept q xs h in
      elim (Bool-cases (is_at user atype x)) [
        | inl at ↦ let kept : q x ≡ true = ground (arith, rw at at p) in rw kept (rw at refl)
        | inr off ↦ elim (Bool-cases (q x)) [
          | inl kept ↦ rw kept (rw off ih)
          | inr gone ↦ rw gone (rw off ih)
        ]
      ]

  find-gone :
      (q : TwoFactor → Bool) (xs : List TwoFactor)
      → All (λ x. (not (is_at user atype x) || not (q x)) ≡ true) xs
      → find (is_at user atype) (filter q xs) ≡ none
  find-gone q [] h = refl
  find-gone q (x ∷ xs) (p, h) =
      let ih = find-gone q xs h in
      elim (Bool-cases (q x)) [
        | inl kept ↦
            let off : is_at user atype x ≡ false = ground (arith, rw kept at p) in
            rw kept (rw off ih)
        | inr gone ↦ rw gone ih
      ]

  saved_kept :
      (r : TwoFactor) (xs : List TwoFactor)
      → is_at user atype r ≡ false
      → IsFresh r xs
      → All (λ x. (not (is_at user atype x) || not (conflicts r x)) ≡ true) xs
  saved_kept r [] off h = tt
  saved_kept r (x ∷ xs) off (p, h) = (ground (arith, off, p), saved_kept r xs off h)

  save_lem :
      (r : TwoFactor) (db : Db)
      → db.faults ≡ []
      → IsFresh r db.twofactor
      → find_by_user_and_type user atype (save r db).1
        ≡ (if is_at user atype r then some r else find_by_user_and_type user atype db)
  unfolding save find_by_user_and_type
  save_lem r db sound fresh = elim (Bool-cases (is_at user atype r)) [
    | inl at ↦ rw sound (rw at refl)
    | inr off ↦ rw sound (rw off (find-kept _ db.twofactor (saved_kept r db.twofactor off fresh)))
  ]

  deleted_kept :
      (r : TwoFactor) (xs : List TwoFactor)
      → is_at user atype r ≡ false
      → IsFresh r xs
      → All (λ x. (not (is_at user atype x) || not (x.uuid == r.uuid)) ≡ true) xs
  deleted_kept r [] off h = tt
  deleted_kept r (x ∷ xs) off (p, h) = (ground (arith, off, p), deleted_kept r xs off h)

  user_gone :
      (other : ℕ) (xs : List TwoFactor)
      → (user == other) ≡ true
      → All (λ x. (not (is_at user atype x) || not (not (x.user_uuid == other))) ≡ true) xs
  user_gone other [] same = tt
  user_gone other (x ∷ xs) same = (ground (arith, same), user_gone other xs same)

  user_kept :
      (other : ℕ) (xs : List TwoFactor)
      → (user == other) ≡ false
      → All (λ x. (not (is_at user atype x) || not (x.user_uuid == other)) ≡ true) xs
  user_kept other [] same = tt
  user_kept other (x ∷ xs) same = (ground (arith, same), user_kept other xs same)

  delete_all_lem :
      (other : ℕ) (db : Db)
      → db.faults ≡ []
      → find_by_user_and_type user atype (delete_all_by_user other db).1
        ≡ (if user == other then none else find_by_user_and_type user atype db)
  unfolding delete_all_by_user find_by_user_and_type
  delete_all_lem other db sound = elim (Bool-cases (user == other)) [
    | inl same ↦ rw sound (rw same (find-gone _ db.twofactor (user_gone other db.twofactor same)))
    | inr not_same ↦
        rw sound (rw not_same (find-kept _ db.twofactor (user_kept other db.twofactor not_same)))
  ]

-- a row that is found by its pair is the only one with its uuid
found-IsFresh :
    (r : TwoFactor) (xs : List TwoFactor)
    → IsKeyed xs
    → find (is_at r.user_uuid r.atype) xs ≡ some r
    → IsFresh r xs
found-IsFresh r [] k e = tt
found-IsFresh r (x ∷ xs) (p, k) e = elim (Bool-cases (is_at r.user_uuid r.atype x)) [
  | inl at ↦
      let same : x ≡ r = ground (arith, rw at at e) in
      (ground (arith, at), subst (λ y. IsFresh y xs) same (rest x xs p))
  | inr off ↦
      let found = rw off at e in
      let apart = All-find (λ y. conflicts x y ≡ false) (is_at r.user_uuid r.atype) xs p found in
      (ground (arith, apart), found-IsFresh r xs k found)
]
  where
    rest :
        (y : TwoFactor) (ys : List TwoFactor) → All (λ z. conflicts y z ≡ false) ys → IsFresh y ys
    rest y [] h = tt
    rest y (z ∷ zs) (c, h) = (ground (arith, c), rest y zs h)

renamed :
    (user user' atype atype' : ℕ) (xs : List TwoFactor) (o : Option TwoFactor)
    → user ≡ user'
    → atype ≡ atype'
    → find (is_at user atype) xs ≡ o
    → find (is_at user' atype') xs ≡ o
renamed user user' atype atype' xs o u t e = rw (u, t) at e

delete_lem :
    (user atype : ℕ) (r : TwoFactor) (db : Db)
    → db.faults ≡ []
    → IsKeyed db.twofactor
    → find_by_user_and_type r.user_uuid r.atype db ≡ some r
    → find_by_user_and_type user atype (delete r db).1
      ≡ (if is_at user atype r then none else find_by_user_and_type user atype db)
unfolding delete find_by_user_and_type
delete_lem user atype r db sound keyed e = elim (Bool-cases (is_at user atype r)) [
  | inl at ↦
      let u : r.user_uuid ≡ user = ground (arith, at) in
      let t : r.atype ≡ atype = ground (arith, at) in
      let found = renamed r.user_uuid user r.atype atype db.twofactor (some r) u t e in
      rw sound (rw at (find-filter user atype r db.twofactor keyed found))
  | inr off ↦ rw sound (
      rw off (
        find-kept user atype _ db.twofactor
          (deleted_kept user atype r db.twofactor off (found-IsFresh r db.twofactor keyed e))))
]

-- Without faults, over a table with its keys apart, the statements are those of a map from a pair of a
-- user and a type to a row: a save, of a row whose uuid is that of no other pair, sets the row of its
-- pair; the deletion of a stored row removes that of its pair; the deletion by user removes those of
-- the user; and under every other pair the same row is found as before.
pub statements-find :
    (user atype other : ℕ) (r d : TwoFactor) (db : Db)
    → db.faults ≡ []
    → IsKeyed db.twofactor
    → IsFresh r db.twofactor
    → find_by_user_and_type d.user_uuid d.atype db ≡ some d
    → (find_by_user_and_type user atype (save r db).1
        ≡ (if is_at user atype r then some r else find_by_user_and_type user atype db))
      × (find_by_user_and_type user atype (delete d db).1
          ≡ (if is_at user atype d then none else find_by_user_and_type user atype db))
      × (find_by_user_and_type user atype (delete_all_by_user other db).1
          ≡ (if user == other then none else find_by_user_and_type user atype db))
statements-find user atype other r d db sound keyed fresh e = (
  save_lem user atype r db sound fresh,
  delete_lem user atype d db sound keyed e,
  delete_all_lem user atype other db sound,
)
