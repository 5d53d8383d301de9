-- ===== src/Server/Models/AuthRequest/Laws.antt =====
-- What the queries return after a statement, and what the purge leaves.
use mathlib.Core.Path.{fun_ext}
use umewarden.Prelude.{
  ap, ◌∙◌, ℕ, ◌-◌, ◌≡◌, refl, inl, inr, Bool, true, false, not, Bool-cases, List, [], ◌∷◌, filter,
  All, All-zip, arith, ltb, ◌==◌, if◌then◌else◌,
}
use umewarden.Server.Db.{AuthRequest, Db}
use umewarden.Server.Models.AuthRequest.{
  delete, find_created_before, delete_each, purge_expired_auth_requests,
}

-- Without faults the loop keeps exactly the rows with another uuid than those of the list.
abbrev listed : List AuthRequest → AuthRequest → Bool
listed [] x = false
listed (r ∷ rs) x = if x.uuid == r.uuid then true else listed rs x

-- the primary key of the table
abbrev pub IsKeyed : List AuthRequest → Type 0
IsKeyed [] = Unit
IsKeyed (x ∷ xs) = All (λ y. (x.uuid == y.uuid) ≡ false) xs × IsKeyed xs

filter-filter :
    (p q : AuthRequest → Bool) (xs : List AuthRequest)
    → filter p (filter q xs) ≡ filter (λ x. if q x then p x else false) xs
filter-filter p q [] = refl
filter-filter p q (x ∷ xs) = ground (arith, filter-filter p q xs)

filter-cong :
    (p q : AuthRequest → Bool) (xs : List AuthRequest)
    → All (λ x. p x ≡ q x) xs
    → filter p xs ≡ filter q xs
filter-cong p q [] h = refl
filter-cong p q (x ∷ xs) (e, h) = rw (e, filter-cong p q xs h) refl

delete_lem :
    (r : AuthRequest) (db : Db)
    → db.faults ≡ []
    → ((delete r db).1.faults ≡ [])
      × ((delete r db).1.auth_requests ≡ filter (λ x. not (x.uuid == r.uuid)) db.auth_requests)
unfolding delete
delete_lem r db h = ground arith

same_test :
    (r : AuthRequest) (rs : List AuthRequest) (x : AuthRequest)
    → (if not (x.uuid == r.uuid) then not (listed rs x) else false) ≡ not (listed (r ∷ rs) x)
same_test r rs x = ground arith

delete_each_lem :
    (rs : List AuthRequest) (db : Db)
    → db.faults ≡ []
    → (delete_each rs db).auth_requests ≡ filter (λ x. not (listed rs x)) db.auth_requests
unfolding delete_each
delete_each_lem [] db h = all_kept db.auth_requests
  where
    all_kept : (xs : List AuthRequest) → xs ≡ filter (λ x. true) xs
    all_kept [] = refl
    all_kept (x ∷ xs) = ap (◌∷◌ x) (all_kept xs)
delete_each_lem (r ∷ rs) db h =
    let (h', e) = delete_lem r db h in
    delete_each_lem rs (delete r db).1 h'
    ∙ rw e (
        filter-filter _ _ db.auth_requests
        ∙ ap (λ p. filter p db.auth_requests) (fun_ext (same_test r rs)))

module _ (old : AuthRequest → Bool) where
  unlisted :
      (x : AuthRequest) (xs : List AuthRequest)
      → All (λ y. (x.uuid == y.uuid) ≡ false) xs
      → listed (filter old xs) x ≡ false
  unlisted x [] h = refl
  unlisted x (y ∷ ys) (d, h) = elim (Bool-cases (old y)) [
    | inl e ↦ rw (e, d) (unlisted x ys h)
    | inr e ↦ rw e (unlisted x ys h)
  ]

  skip_listed :
      (y x : AuthRequest) (ys : List AuthRequest)
      → (y.uuid == x.uuid) ≡ false
      → listed (filter old (y ∷ ys)) x ≡ listed (filter old ys) x
  skip_listed y x ys d = elim (Bool-cases (old y)) [
    | inl e ↦ rw e (let d' : (x.uuid == y.uuid) ≡ false = ground arith in rw d' refl)
    | inr e ↦ rw e refl
  ]

  first_listed :
      (y : AuthRequest) (ys : List AuthRequest)
      → All (λ z. (y.uuid == z.uuid) ≡ false) ys
      → not (listed (filter old (y ∷ ys)) y) ≡ not (old y)
  first_listed y ys d = elim (Bool-cases (old y)) [
    | inl e ↦ rw e (ground arith)
    | inr e ↦ rw e (ap not (unlisted y ys d))
  ]

  listed-old :
      (xs : List AuthRequest)
      → IsKeyed xs
      → All (λ x. not (listed (filter old xs) x) ≡ not (old x)) xs
  listed-old [] k = tt
  listed-old (y ∷ ys) (d, k) = (
    first_listed y ys d,
    All-zip (λ x. (y.uuid == x.uuid) ≡ false) (λ x. not (listed (filter old ys) x) ≡ not (old x))
        (λ x. not (listed (filter old (y ∷ ys)) x) ≡ not (old x))
        (λ x differs same. ap not (skip_listed y x ys differs) ∙ same) ys d (listed-old ys k),
  )

-- With no faults and with the uuids apart, the purge at `now` leaves exactly the requests that were
-- created within the last 900 seconds, in their order.
pub purge_lem :
    (now : ℕ) (db : Db)
    → db.faults ≡ []
    → IsKeyed db.auth_requests
    → (purge_expired_auth_requests now db).auth_requests
      ≡ filter (λ x. not (ltb x.creation_date (now - 900))) db.auth_requests
unfolding purge_expired_auth_requests find_created_before
purge_lem now db sound keyed =
    let old = λ (x : AuthRequest). ltb x.creation_date (now - 900) in
    delete_each_lem (filter old db.auth_requests) db sound
    ∙ filter-cong _ _ db.auth_requests (listed-old old db.auth_requests keyed)
