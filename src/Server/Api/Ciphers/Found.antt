-- ===== src/Server/Api/Ciphers/Found.antt =====
-- Looking up a cipher for a user: ownership is checked before anything else.
use umewarden.Prelude.{
  ℕ, ◌≡◌, sym, ◌∙◌, Bool-cases, true, false, Option-cases, some, inl, inr, find-eq-some, arith,
  ◌==◌,
}
use umewarden.Server.Db.{Cipher, Db, M, ◌>>=◌}
use umewarden.Server.Keeps.{Keeps}
use umewarden.Server.Models.Cipher
use umewarden.Server.Models.Cipher.{
  is_owned_by_user, is_user, is_write_accessible_to_user, is_accessible_to_user, set_favorite,
  update_users_revision,
}
use umewarden.Server.Models.Cipher.Stored.{IsStored}
use umewarden.Server.Api.Ciphers.Edit.{find_writable, find_accessible}

-- a cipher that the user does not own, stored under `w`
module _ (w : ℕ) (c : Cipher) (user : ℕ) (foreign : is_owned_by_user user c ≡ false) where
  pub apart :
      (id : ℕ) (d : Cipher) (db : Db)
      → Cipher.find_by_uuid id db ≡ some d
      → is_owned_by_user user d ≡ true
      → IsStored w c db
      → (d.uuid == w) ≡ false
  unfolding Cipher.find_by_uuid
  apart id d db e own h = elim (Bool-cases (d.uuid == w)) [
    | inr t ↦ t
    | inl t ↦
        let found = find-eq-some (λ (x : Cipher). x.uuid == id) db.ciphers e in
        let same : id ≡ w = ground arith in
        let e' = rw same at e in absurd (ground (arith, sym h ∙ e'))
  ]

  pub writable-Keeps :
      {B : Type 0} (id : ℕ) {f : Cipher → M B}
      → ((d : Cipher) → (d.uuid == w) ≡ false → Keeps (IsStored w c) (f d))
      → Keeps (IsStored w c) (find_writable id user >>= f)
  writable-Keeps id k = record {
    at = λ db h. elim (Option-cases (Cipher.find_by_uuid id db)) [
      | inl e ↦ rw e h
      | inr (d, e) ↦ elim (Bool-cases (is_owned_by_user user d)) [
        | inl t ↦ rw (e, t) ((k d (apart id d db e t h)).at db h)
        | inr t ↦ rw (e, t) h
      ]
    ];
  }

  pub accessible-Keeps :
      {B : Type 0} (id : ℕ) {f : Cipher → M B}
      → ((d : Cipher) → Keeps (IsStored w c) (f d))
      → Keeps (IsStored w c) (find_accessible id user >>= f)
  accessible-Keeps id k = record {
    at = λ db h. elim (Option-cases (Cipher.find_by_uuid id db)) [
      | inl e ↦ rw e h
      | inr (d, e) ↦ elim (Bool-cases (is_owned_by_user user d)) [
        | inl t ↦ rw (e, t) ((k d).at db h)
        | inr t ↦ rw (e, t) h
      ]
    ];
  }
