-- ===== src/Server/Models/Favorite/Set.antt =====
-- Setting a favorite.
use umewarden.Prelude.{
  ℕ, ◌≡◌, refl, Bool, Bool-cases, true, false, not, ◌&&◌, inl, inr, List, [], ◌∷◌, filter, arith,
  ◌==◌,
}
use umewarden.Server.Db.{Favorite, Db, ok, execute}
use umewarden.Server.Models.User.{again, retry, update_revision_impl, update_uuid_revision}
use umewarden.Server.Models.Favorite.{is_pair, has_row, is_favorite, change_favorite, set_favorite}

removed :
    (user cipher : ℕ) (xs : List Favorite)
    → has_row (is_pair user cipher) (filter (λ x. not (is_pair user cipher x)) xs) ≡ false
removed user cipher [] = refl
removed user cipher (x ∷ xs) = ground (arith, removed user cipher xs)

kept :
    (user cipher u c : ℕ) (xs : List Favorite)
    → (u == user && c == cipher) ≡ false
    → has_row (is_pair u c) (filter (λ x. not (is_pair user cipher x)) xs)
      ≡ has_row (is_pair u c) xs
kept user cipher u c [] h = refl
kept user cipher u c (x ∷ xs) h = ground (arith, kept user cipher u c xs h)

added_lem :
    (now cipher user : ℕ) (db : Db)
    → db.faults ≡ []
    → ((change_favorite false true now cipher user db).0 ≡ ok tt)
      × ((change_favorite false true now cipher user db).1.favorites
          ≡ record { user_uuid = user; cipher_uuid = cipher } ∷ db.favorites)
unfolding change_favorite update_uuid_revision update_revision_impl retry again execute
added_lem now cipher user db sound = rw sound (refl, refl)

removed_lem :
    (now cipher user : ℕ) (db : Db)
    → db.faults ≡ []
    → ((change_favorite true false now cipher user db).0 ≡ ok tt)
      × ((change_favorite true false now cipher user db).1.favorites
          ≡ filter (λ x. not (is_pair user cipher x)) db.favorites)
unfolding change_favorite update_uuid_revision update_revision_impl retry again execute
removed_lem now cipher user db sound = rw sound (refl, refl)

same_lem :
    (b : Bool) (now cipher user : ℕ) (db : Db)
    → change_favorite b b now cipher user db ≡ (ok tt, db)
unfolding change_favorite
same_lem true now cipher user db = refl
same_lem false now cipher user db = refl

-- With no faults, setting a cipher as a user's favorite or not succeeds, the cipher then is a favorite
-- of the user exactly when it was set, and no other pair of a user and a cipher changes.
pub set_favorite_lem :
    (favorite : Bool) (now cipher user : ℕ) (db : Db)
    → db.faults ≡ []
    → (db' : Db) × (set_favorite favorite now cipher user db ≡ (ok tt, db'))
      × (is_favorite cipher user db' ≡ favorite)
      × ((c u : ℕ) → (u == user && c == cipher) ≡ false → is_favorite c u db' ≡ is_favorite c u db)
unfolding set_favorite is_favorite
set_favorite_lem favorite now cipher user db sound =
    elim (Bool-cases (has_row (is_pair user cipher) db.favorites)) [
      | inl e ↦ elim (Bool-cases favorite) [
        | inl t ↦ (db, rw (e, t) (same_lem true now cipher user db), rw (e, t) refl, λ c u h. refl)
        | inr t ↦
            let (r, rows) = removed_lem now cipher user db sound in
            let db' = (change_favorite true false now cipher user db).1 in
            (
              db',
              rw (e, t) (λ i. (r i, db')),
              rw (t, rows) (removed user cipher db.favorites),
              λ c u h. rw rows (kept user cipher u c db.favorites h),
            )
      ]
      | inr e ↦ elim (Bool-cases favorite) [
        | inl t ↦
            let (r, rows) = added_lem now cipher user db sound in
            let db' = (change_favorite false true now cipher user db).1 in
            (
              db',
              rw (e, t) (λ i. (r i, db')),
              rw (t, rows) (ground arith),
              λ c u h. rw rows (ground arith),
            )
        | inr t ↦ (db, rw (e, t) (same_lem false now cipher user db), rw (e, t) refl, λ c u h. refl)
      ]
    ]
