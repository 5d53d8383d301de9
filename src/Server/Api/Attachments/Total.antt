-- ===== src/Server/Api/Attachments/Total.antt =====
-- An upload keeps what a user stores within the limit.
use mathlib.Core.Path.{subst}
use umewarden.Prelude.{
  ℕ, ◌≡◌, refl, ap, sym, ◌∙◌, Bool-cases, true, false, not, Option, none, some, inl, inr, List, [],
  ◌∷◌, find, filter, arith, ◌==◌,
}
use umewarden.Prelude.Int.{ℤ, pos, ◌+ℤ◌, ◌≤ℤ◌, +ℤ_parts}
use umewarden.Server.Db.{
  Attachment, Cipher, Db, Result, ok, err, cipher_missing, not_accessible, size_overflow, not_owned,
  limit_exceeded, storage_failed, panicked, no_filename, no_key, M, modify, Returned,
}
use umewarden.Server.Keeps.{Keeps, Keeps-again, Keeps-execute}
use umewarden.Server.Ensures.{
  Ensures, Ensures-bind, Ensures-guard, Ensures-require, Ensures-query, Ensures-pure,
  Ensures-execute,
}
use umewarden.Server.Models.User.{retry, update_revision_impl, update_uuid_revision}
use umewarden.Server.Models.Attachment
use umewarden.Server.Models.Attachment.{is_owner, owner_of, sum_sizes}
use umewarden.Server.Models.Cipher
use umewarden.Server.Models.Cipher.{
  is_owned_by_user, is_user, is_write_accessible_to_user, revise, update_users_revision,
}
use umewarden.Server.Api.Ciphers.Edit.{find_writable}
use umewarden.Server.Api.Attachments.{
  Uploads, UploadData, checked, in_bytes, size_limit, is_over, to_m, expect, create_attachment,
  save_attachment,
}
use umewarden.Server.Ensures.{Ensures-Keeps, Ensures-weaken}
use umewarden.Server.Models.Cipher.Sync.{owner_of-find, owned_by}
use umewarden.Server.Api.Attachments.Limit.{total, capped, limit-fits}

-- `replace_into` with an id that no row has
filter-fresh :
    (id : ℕ) (xs : List Attachment)
    → find (λ x. x.id == id) xs ≡ none
    → filter (λ x. not (x.id == id)) xs ≡ xs
filter-fresh id [] h = refl
filter-fresh id (x ∷ xs) h = elim (Bool-cases (x.id == id)) [
  | inl e ↦ absurd (ground (arith, rw e at h))
  | inr e ↦ rw e (ap (◌∷◌ x) (filter-fresh id xs (rw e at h)))
]

turned : (t s k : ℤ) → t +ℤ s ≤ℤ k → s +ℤ t ≤ℤ k
turned t s k h = omega (arith, h, +ℤ_parts t s, +ℤ_parts s t)

module _ (user : ℕ) (kb : ℤ) where
  abbrev pub IsWithin : Db → Type 0
  IsWithin db = total user db ≤ℤ in_bytes kb

  revision_impl-IsWithin : (u now : ℕ) → Keeps IsWithin (update_revision_impl u now)
  unfolding update_revision_impl retry Attachment.find_all_by_user
  revision_impl-IsWithin u now = Keeps-again 9 (Keeps-execute (λ db later h. h) _ (λ db h. h))

  revision-IsWithin : (now : ℕ) (d : Cipher) → Keeps IsWithin (update_users_revision now d)
  unfolding update_uuid_revision
  revision-IsWithin now d = go d.user_uuid
    where
      go : (o : Option ℕ) → Keeps IsWithin (modify (revise o now))
      go none = record { at = λ db h. h }
      go (some u) = record { at = λ db h. (revision_impl-IsWithin u now).at db h }

  -- Before the row is written: its id is new, its cipher is the user's, and its size fits.
  abbrev Fits : ℕ → ℕ → ℤ → Db → Type 0
  Fits fresh cipher size db =
      (Attachment.find_by_id fresh db ≡ none)
      × (owner_of cipher db.ciphers ≡ some user)
      × (total user db +ℤ size ≤ℤ in_bytes kb)

  save-IsWithin :
      (a : Attachment)
      → Ensures (Fits a.id a.cipher_uuid a.file_size) (Attachment.save a) (λ _. IsWithin)
  unfolding Attachment.save Attachment.find_all_by_user Attachment.find_by_id
  save-IsWithin a =
      Ensures-execute _ (λ db later h. h)
        (λ db h.
          let mine : is_owner user (owner_of a.cipher_uuid db.ciphers) ≡ true =
            rw h.1 (ground arith) in
          let fits = turned (total user db) a.file_size (in_bytes kb) h.2 in
          rw (filter-fresh a.id db.attachments h.0, mine) fits)

  expect-IsWithin :
      {P : Db → Type 0} {m : M (Unit {0})}
      → Ensures P m (λ _. IsWithin)
      → Ensures P (expect m) (λ _. IsWithin)
  expect-IsWithin {P} {m} k = record { at = λ db h. go (m db).0 (m db).1 (k.at db h) }
    where
      go :
          (r : Result (Unit {0})) (db : Db)
          → Returned (λ _. IsWithin) r db
          → Returned
              (λ _. IsWithin)
              (elim r as (λ _. Result (Unit {0}) × Db) [
                | ok _ ↦ (ok tt, db)
                | err _ ↦ (err panicked, db)
              ]).0
              (elim r as (λ _. Result (Unit {0}) × Db) [
                | ok _ ↦ (ok tt, db)
                | err _ ↦ (err panicked, db)
              ]).1
      go (ok _) db h = h
      go (err _) db h = tt

  create-IsWithin :
      (up : Uploads) (fresh cipher : ℕ) (data_ : UploadData) (size : ℤ)
      → Ensures
          (Fits fresh cipher size)
          (create_attachment up fresh cipher data_ size)
          (λ _. IsWithin)
  unfolding create_attachment
  create-IsWithin up fresh cipher data_ size =
      Ensures-bind (Ensures-require no_filename data_.file_name) (λ name.
        Ensures-bind (Ensures-require no_key data_.key) (λ key.
          Ensures-weaken (λ db h. h.0.0)
            (expect-IsWithin (
              save-IsWithin (record {
                id = fresh;
                cipher_uuid = cipher;
                file_name = name;
                file_size = size;
                akey = some key;
              })))))

  found-owned :
      {P : Db → Type 0} (id : ℕ)
      → Ensures P
          (find_writable id user)
          (λ c db. P db × (Cipher.find_by_uuid id db ≡ some c) × (is_owned_by_user user c ≡ true))
  found-owned id = Ensures-bind (Ensures-query (Cipher.find_by_uuid id)) (λ found.
      Ensures-bind (Ensures-require cipher_missing found) (λ c.
        Ensures-bind (Ensures-guard (is_write_accessible_to_user user c) not_accessible)
          (λ _. Ensures-pure c (λ db h. (h.0.0.0, h.0.0.1 ∙ h.0.1, owned c h.1)))))
    where
      owned :
          (c : Cipher) → is_write_accessible_to_user user c ≡ true → is_owned_by_user user c ≡ true
      owned c h = elim (Bool-cases (is_owned_by_user user c)) [
        | inl e ↦ e
        | inr e ↦ absurd (ground (arith, rw e at h))
      ]

  returned :
      {A : Type 0} {P : Db → Type 0} (r : Result A) → Ensures P (to_m r) (λ a db. P db × (r ≡ ok a))
  returned (ok a) = record { at = λ db h. (h, refl) }
  returned (err e) = record { at = λ db h. tt }

  same_owner : (o : Option ℕ) (owner : ℕ) → o ≡ some owner → o ≡ some user → owner ≡ user
  same_owner none owner e h = absurd (ground (arith, e))
  same_owner (some u) owner e h = ground (arith, e, h)

  -- what the checks before the row have found out
  fits :
      (up : Uploads) (fresh cipher : ℕ) (size : ℤ) (c : Cipher) (owner : ℕ) (used : ℤ)
      (limit : Option ℤ) (db : Db)
      → up.user_attachment_limit ≡ some kb
      → Attachment.find_by_id fresh db ≡ none
      → Cipher.find_by_uuid cipher db ≡ some c
      → is_owned_by_user user c ≡ true
      → c.user_uuid ≡ some owner
      → Attachment.size_by_user owner db ≡ used
      → size_limit up.user_attachment_limit used (pos 0) ≡ ok limit
      → not (is_over limit size) ≡ true
      → Fits fresh cipher size db
  unfolding Attachment.size_by_user Cipher.find_by_uuid
  fits up fresh cipher size c owner used limit db limited absent found owned eo eu el under =
      let mine = owned_by user c.user_uuid owned in
      let same = same_owner c.user_uuid owner eo mine in
      let cap : used ≡ capped (total user db) =
        sym eu ∙ ap (λ o. Attachment.size_by_user o db) same in
      let limit' : size_limit (some kb) (capped (total user db)) (pos 0) ≡ ok limit =
        (λ i. size_limit (sym limited i) (sym cap i) (pos 0)) ∙ el in
      let under' : is_over limit size ≡ false = elim (Bool-cases (is_over limit size)) [
        | inl e ↦ absurd (ground (arith, rw e at under))
        | inr e ↦ e
      ] in
      (
        absent,
        owner_of-find cipher db.ciphers {c = c} found ∙ mine,
        limit-fits kb (total user db) size limit limit' under',
      )

  save_attachment-Ensures :
      (up : Uploads) (fresh now cipher : ℕ) (data_ : UploadData)
      → up.user_attachment_limit ≡ some kb
      → Ensures
          (λ db. Attachment.find_by_id fresh db ≡ none)
          (save_attachment up none fresh now cipher data_ user)
          (λ _. IsWithin)
  unfolding save_attachment Attachment.size_by_user Cipher.find_by_uuid
  save_attachment-Ensures up fresh now cipher data_ limited =
      Ensures-bind (Ensures-require size_overflow (checked (pos data_.size))) (λ size.
        Ensures-bind (found-owned cipher) (λ c.
          Ensures-bind (Ensures-require not_owned c.user_uuid) (λ owner.
            Ensures-bind (Ensures-query (Attachment.size_by_user owner)) (λ used.
              Ensures-bind (returned (size_limit up.user_attachment_limit used (pos 0))) (λ limit.
                Ensures-bind (Ensures-guard (not (is_over limit size)) limit_exceeded) (λ _.
                  Ensures-bind
                    (Ensures-weaken
                      (λ db h.
                        fits up fresh cipher size c owner used limit db limited h.0.0.0.0.0.0
                          h.0.0.0.0.1 h.0.0.0.0.2 h.0.0.0.1 h.0.0.1 h.0.1 h.1)
                      (create-IsWithin up fresh cipher data_ size))
                    (λ _.
                      Ensures-bind (Ensures-guard (up.save_temp_file cipher fresh) storage_failed)
                        (λ _.
                          Ensures-bind
                            (Ensures-weaken (λ db h. h.0) (Ensures-Keeps (revision-IsWithin now c)))
                            (λ _. Ensures-pure c (λ db h. h))))))))))

-- When an attachment is uploaded by one request, with a limit in the configuration and a new id for the
-- row, and the upload succeeds, then all that the user stores, the new file included, is at most the
-- limit in KiB.
pub save_attachment-IsWithin :
    (up : Uploads) (user : ℕ) (kb : ℤ) (fresh now cipher : ℕ) (data_ : UploadData) (db db' : Db)
    (c : Cipher)
    → up.user_attachment_limit ≡ some kb
    → Attachment.find_by_id fresh db ≡ none
    → save_attachment up none fresh now cipher data_ user db ≡ (ok c, db')
    → total user db' ≤ℤ in_bytes kb
save_attachment-IsWithin up user kb fresh now cipher data_ db db' c limited absent e =
    subst (λ x. Returned (λ _. IsWithin user kb) x.0 x.1) e
      ((save_attachment-Ensures user kb up fresh now cipher data_ limited).at db absent)
