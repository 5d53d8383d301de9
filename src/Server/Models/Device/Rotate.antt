-- ===== src/Server/Models/Device/Rotate.antt =====
-- The rotation of a user's refresh tokens leaves none of them valid.
use umewarden.Prelude.{
  ℕ, suc, ◌≡◌, refl, Bool, true, false, not, ◌&&◌, ◌||◌, List, [], ◌∷◌, filter, All, All-filter,
  arith, ◌==◌, Bool-cases, inl, inr,
}
use umewarden.Prelude.Text.{Text, text_eq}
use umewarden.Server.Db.{Device}
use umewarden.Server.Keeps.{Keeps-execute}
use umewarden.Server.Ensures.{
  Ensures, Ensures-bind, Ensures-pure, Ensures-query, Ensures-execute, Ensures-retry,
  Ensures-weaken, Ensures-conclude,
}
use umewarden.Server.Models.Device.{
  is_key, put, save, find_by_user, rotate_each, rotate_refresh_tokens_by_user,
}

module _ (old : Text) (user : ℕ) where
  -- no device of the user answers to the token
  abbrev pub is_revoked : Device → Bool
  is_revoked x = not (x.user_uuid == user && text_eq x.refresh_token old)

  abbrev is_among : Device → List Device → Bool
  is_among x [] = false
  is_among x (d ∷ ds) = is_key d.uuid d.user_uuid x || is_among x ds

  -- a device is revoked, or has its turn still to come
  abbrev IsDue : List Device → List Device → Type 0
  IsDue ds = All (λ x. (is_revoked x || is_among x ds) ≡ true)

  among_self :
      (x : Device) (xs : List Device) → (is_key x.uuid x.user_uuid x || is_among x xs) ≡ true
  among_self x xs = ground arith

  IsDue-put :
      (d : Device) (ds xs : List Device) (e : Device)
      → text_eq e.refresh_token old ≡ false
      → e.uuid ≡ d.uuid
      → e.user_uuid ≡ d.user_uuid
      → IsDue (d ∷ ds) xs
      → IsDue ds (filter (λ x. not (is_key e.uuid e.user_uuid x)) xs)
  IsDue-put d ds [] e fresh u v h = tt
  IsDue-put d ds (x ∷ xs) e fresh u v (p, h) =
      let ih = IsDue-put d ds xs e fresh u v h in
      elim (Bool-cases (is_key e.uuid e.user_uuid x)) [
        | inl t ↦ rw t ih
        | inr t ↦ rw t (kept (rw (u, v) at t), ih)
      ]
    where
      kept : is_key d.uuid d.user_uuid x ≡ false → (is_revoked x || is_among x ds) ≡ true
      kept t = rw t at p

  IsDue-weaken : (d : Device) (ds xs : List Device) → IsDue ds xs → IsDue (d ∷ ds) xs
  IsDue-weaken d ds [] h = tt
  IsDue-weaken d ds (x ∷ xs) (p, h) = (ground (arith, p), IsDue-weaken d ds xs h)

  IsDue-eq : (ds ds' xs : List Device) → ds' ≡ ds → IsDue ds xs → IsDue ds' xs
  IsDue-eq ds ds' xs e h = rw e h

  IsDue-start : (xs : List Device) → IsDue (filter (λ x. x.user_uuid == user) xs) xs
  IsDue-start [] = tt
  IsDue-start (x ∷ xs) =
      let rest = filter (λ y. y.user_uuid == user) xs in
      let ih = IsDue-start xs in
      elim (Bool-cases (x.user_uuid == user)) [
        | inl t ↦
            IsDue-eq (x ∷ rest) _ (x ∷ xs) (rw t refl)
              (ground (arith, among_self x rest), IsDue-weaken x rest xs ih)
        | inr t ↦ IsDue-eq rest _ (x ∷ xs) (rw t refl) (ground (arith, t), ih)
      ]

  module _ (fresh : ℕ → Text) (unlike : (i : ℕ) → text_eq (fresh i) old ≡ false) (now : ℕ) where
    abbrev renewed : Device → ℕ → Device
    renewed d i = record d { refresh_token = fresh i }

    IsDue-put_self :
        (d : Device) (ds xs : List Device) (i : ℕ)
        → IsDue ds (filter (λ x. not (is_key (renewed d i).uuid (renewed d i).user_uuid x)) xs)
        → IsDue ds (put (renewed d i) xs)
    IsDue-put_self d ds xs i h = (ground (arith, unlike i), h)

    rotate_each-IsDue :
        (ds : List Device) (i : ℕ)
        → Ensures
            (λ db. IsDue ds db.devices)
            (rotate_each fresh i now ds)
            (λ _ db. IsDue [] db.devices)
    unfolding rotate_each save
    rotate_each-IsDue [] i = Ensures-pure _ (λ db h. h)
    rotate_each-IsDue (d ∷ ds) i =
        let e = renewed d i in
        Ensures-bind
          (Ensures-bind
            (Ensures-retry 10
              (Keeps-execute (λ db later h. h) _
                (λ db h. IsDue-put_self d (d ∷ ds) db.devices i (All-filter _ _ db.devices h)))
              (Ensures-execute _ (λ db later h. h)
                (λ db h.
                  IsDue-put_self d ds db.devices i
                    (IsDue-put d ds db.devices e (unlike i) refl refl h))))
            (λ _.
              Ensures-pure {P = λ db. IsDue ds db.devices} e {Q = λ _ db. IsDue ds db.devices}
                (λ db h. h)))
          (λ _. rotate_each-IsDue ds (suc i))

    -- When the rotation of a user's refresh tokens returns, no device of the user answers to a token
    -- that is none of those drawn.
    pub rotate-revokes :
        Ensures
          (λ db. Unit {0})
          (rotate_refresh_tokens_by_user fresh now user)
          (λ _ db. All (λ x. is_revoked x ≡ true) db.devices)
    unfolding rotate_refresh_tokens_by_user find_by_user
    rotate-revokes = Ensures-bind (Ensures-query _) (λ ds.
        Ensures-conclude (λ _ db h. done db.devices h)
          (Ensures-weaken (λ db (_, e). rw (← e) (IsDue-start db.devices))
            (rotate_each-IsDue ds 0)))
      where
        done : (xs : List Device) → IsDue [] xs → All (λ x. is_revoked x ≡ true) xs
        done [] h = tt
        done (x ∷ xs) (p, h) = (ground (arith, p), done xs h)
