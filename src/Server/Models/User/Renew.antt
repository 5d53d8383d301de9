-- ===== src/Server/Models/User/Renew.antt =====
-- A password that is set with a new stamp: it is the one that is accepted, and no refresh token from
-- before is left.
use umewarden.Prelude.{
  ℕ, ◌≡◌, refl, ap, ◌∙◌, true, false, Option, none, some, List, All, Bool-cases, inl, inr, arith,
  ◌==◌,
}
use umewarden.Prelude.Text.{Text, text_eq, utf8}
use umewarden.Server.Db.{User, Db, panicked}
use umewarden.Server.Ensures.{
  Ensures, Ensures-bind, Ensures-pure, Ensures-require, Ensures-conclude, Ensures-known,
}
use umewarden.Server.Models.Device.Rotate.{is_revoked, rotate-revokes}
use umewarden.Server.Models.User.Password.{
  Pbkdf2, StampCodec, Draws, allow, rekey, set_stamp_exception, hash_password, verify_password_hash,
  check_valid_password, cast_unsigned, set_password, reset_security_stamp,
}

-- What the program relies on of the derivation of keys: it verifies what it has derived.
pub record IsPbkdf2 (kdf : Pbkdf2) : Type 0 where
  pub verify-derive :
      (n : ℕ) (salt secret : List ℕ) → kdf.verify n salt secret (kdf.derive n salt secret) ≡ true

-- no device of the user answers to the token
abbrev pub IsRevoked : Text → ℕ → Db → Type 0
IsRevoked old user db = All (λ x. is_revoked old user x ≡ true) db.devices

module _ (stamps : StampCodec) (kdf : Pbkdf2) (draws : Draws) (now : ℕ) where
  -- the same account with another hash
  record IsRehashed (u w : User) (hash : List ℕ) (routes : Option (List Text)) : Type 0 where
    same_uuid : w.uuid ≡ u.uuid
    same_salt : w.salt ≡ u.salt
    same_iterations : w.password_iterations ≡ u.password_iterations
    new_hash : w.password_hash ≡ hash
    same_exception : w.stamp_exception ≡ (allow stamps now routes u).stamp_exception

  rehashed :
      (u : User) (hash : List ℕ) (new_key : Option Text) (routes : Option (List Text))
      → IsRehashed u
          (rekey stamps new_key (allow stamps now routes (record u { password_hash = hash })))
          hash
          routes
  unfolding set_stamp_exception
  rehashed u hash none none = record {
    same_uuid = refl;
    same_salt = refl;
    same_iterations = refl;
    new_hash = refl;
    same_exception = refl;
  }
  rehashed u hash none (some r) = record {
    same_uuid = refl;
    same_salt = refl;
    same_iterations = refl;
    new_hash = refl;
    same_exception = refl;
  }
  rehashed u hash (some k) none = record {
    same_uuid = refl;
    same_salt = refl;
    same_iterations = refl;
    new_hash = refl;
    same_exception = refl;
  }
  rehashed u hash (some k) (some r) = record {
    same_uuid = refl;
    same_salt = refl;
    same_iterations = refl;
    new_hash = refl;
    same_exception = refl;
  }

  verified :
      IsPbkdf2 kdf
      → (n : ℕ) (salt secret hash : List ℕ) → hash_password kdf secret salt n ≡ some hash
      → verify_password_hash kdf secret salt hash n ≡ some true
  unfolding hash_password verify_password_hash
  verified k n salt secret hash e = elim (Bool-cases (n == 0)) [
    | inl z ↦ absurd (ground (arith, rw z at e))
    | inr nz ↦
        let same : kdf.derive n salt secret ≡ hash = ground (arith, rw nz at e) in
        rw nz (rw (← same) (ap some (k.verify-derive n salt secret)))
  ]

  -- what holds of the user and of the devices behind a new password with a new stamp
  pub record IsRenewed (old new : Text) (u : User) (routes : Option (List Text)) (w : User)
      (db : Db) : Type 0 where
    pub same_uuid : w.uuid ≡ u.uuid
    pub new_stamp : w.security_stamp ≡ draws.stamp
    pub accepted : check_valid_password kdf w new ≡ some true
    pub revoked : IsRevoked old u.uuid db
    pub same_exception : w.stamp_exception ≡ (allow stamps now routes u).stamp_exception

  renewed :
      IsPbkdf2 kdf
      → (old : Text) (u v w : User) (new : Text) (hash : List ℕ) (routes : Option (List Text))
        (db : Db)
      → hash_password kdf (utf8 new) u.salt (cast_unsigned u.password_iterations) ≡ some hash
      → IsRehashed u v hash routes
      → IsRevoked old v.uuid db
      → w ≡ record v { security_stamp = draws.stamp }
      → IsRenewed old new u routes w db
  unfolding check_valid_password
  renewed k old u v w new hash routes db e r h same = record {
    same_uuid = ap (λ (x : User). x.uuid) same ∙ r.same_uuid;
    new_stamp = ap (λ (x : User). x.security_stamp) same;
    accepted =
        (λ i. verify_password_hash kdf (utf8 new) (salts i) (hashes i) (cast_unsigned (counts i)))
        ∙ verified k (cast_unsigned u.password_iterations) u.salt (utf8 new) hash e;
    revoked = rw r.same_uuid at h;
    same_exception = ap (λ (x : User). x.stamp_exception) same ∙ r.same_exception;
  }
    where
      salts : w.salt ≡ u.salt
      salts = ap (λ (x : User). x.salt) same ∙ r.same_salt

      hashes : w.password_hash ≡ hash
      hashes = ap (λ (x : User). x.password_hash) same ∙ r.new_hash

      counts : w.password_iterations ≡ u.password_iterations
      counts = ap (λ (x : User). x.password_iterations) same ∙ r.same_iterations

  module _ (k : IsPbkdf2 kdf) (old : Text)
      (unlike : (i : ℕ) → text_eq (draws.refresh_token i) old ≡ false) where
    reset_revokes :
        (u : User)
        → Ensures
            (λ db. Unit {0})
            (reset_security_stamp draws now u)
            (λ w db. IsRevoked old u.uuid db × (w ≡ record u { security_stamp = draws.stamp }))
    unfolding reset_security_stamp
    reset_revokes u =
        Ensures-bind (rotate-revokes old u.uuid draws.refresh_token unlike now)
          (λ _. Ensures-pure _ (λ db h. (h, refl)))

    -- A password that is set with a new stamp is accepted from then on, and no device of the user
    -- answers to a refresh token from before.
    pub set_password-IsRenewed :
        (u : User) (new : Text) (new_key : Option Text) (routes : Option (List Text))
        → Ensures
            (λ db. Unit {0})
            (set_password stamps kdf draws now new new_key true routes u)
            (λ w db. IsRenewed old new u routes w db)
    unfolding set_password
    set_password-IsRenewed u new new_key routes =
        Ensures-bind
          (Ensures-require panicked
            (hash_password kdf (utf8 new) u.salt (cast_unsigned u.password_iterations)))
          (λ hash. Ensures-known (λ e.
            let v =
              rekey stamps new_key (allow stamps now routes (record u { password_hash = hash })) in
            Ensures-conclude
              (λ w db (h, same).
                renewed k old u v w new hash routes db e (rehashed u hash new_key routes) h same)
              (reset_revokes v)))
