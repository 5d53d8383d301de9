-- ===== src/Server/Models/Cipher/Stored.antt =====
-- Which statements leave the row of a uuid in the table ciphers as it is.
use umewarden.Prelude.{
  ℕ, ◌≡◌, refl, ap, ◌∙◌, Bool, Bool-cases, true, false, not, Option, none, some, inl, inr, List, [],
  ◌∷◌, filter, find, map, arith, ◌==◌, if◌then◌else◌,
}
use umewarden.Server.Db.{
  Folder, Attachment, Cipher, Db, no_previous_folder, M, pure, raise, modify, execute,
}
use umewarden.Server.Keeps.{
  Keeps, Keeps-pure, Keeps-raise, Keeps-query, Keeps-guard, Keeps-if, Keeps-bind, Keeps-then,
  Keeps-again, Keeps-execute,
}
use umewarden.Server.Models.User.{retry, update_revision_impl, update_uuid_revision}
use umewarden.Server.Models.Folder
use umewarden.Server.Models.Attachment
use umewarden.Server.Models.Archive
use umewarden.Server.Models.Favorite
use umewarden.Server.Models.Cipher
use umewarden.Server.Models.Cipher.{
  Storage, revise, update_users_revision, is_owned_by_user, is_write_accessible_to_user,
  is_accessible_to_user, change_folder, delete_found,
}

-- the row that is found by the uuid `w`
module _ (w : ℕ) (c : Cipher) where
  abbrev pub IsStored : Db → Type 0
  IsStored db = find (λ x. x.uuid == w) db.ciphers ≡ some c

  -- a statement on other tables
  other_table :
      (f : Db → Db) → ((db : Db) → (f db).ciphers ≡ db.ciphers) → Keeps IsStored (execute f)
  other_table f same =
      Keeps-execute (λ db later h. h) f (λ db h. ap (find (λ x. x.uuid == w)) (same db) ∙ h)

  pub revision_impl-Keeps : (user now : ℕ) → Keeps IsStored (update_revision_impl user now)
  unfolding update_revision_impl retry
  revision_impl-Keeps user now = Keeps-again 9 (other_table _ (λ db. refl))

  pub revision-Keeps : (user now : ℕ) → Keeps IsStored (modify (update_uuid_revision user now))
  unfolding update_uuid_revision
  revision-Keeps user now = record { at = λ db h. (revision_impl-Keeps user now).at db h }

  pub users_revision-Keeps : (now : ℕ) (d : Cipher) → Keeps IsStored (update_users_revision now d)
  users_revision-Keeps now d = go d.user_uuid
    where
      go : (o : Option ℕ) → Keeps IsStored (modify (revise o now))
      go none = record { at = λ db h. h }
      go (some user) = revision-Keeps user now

  pub folder_save-Keeps : (r : _) → Keeps IsStored (Folder.save_cipher r)
  unfolding Folder.save_cipher
  folder_save-Keeps r = other_table _ (λ db. refl)

  pub delete_cipher-Keeps : (r : _) → Keeps IsStored (Folder.delete_cipher r)
  unfolding Folder.delete_cipher
  delete_cipher-Keeps r = other_table _ (λ db. refl)

  pub folders-Keeps : (d : ℕ) → Keeps IsStored (Folder.delete_all_by_cipher d)
  unfolding Folder.delete_all_by_cipher
  folders-Keeps d = other_table _ (λ db. refl)

  pub favorites-Keeps : (d : ℕ) → Keeps IsStored (Favorite.delete_all_by_cipher d)
  unfolding Favorite.delete_all_by_cipher
  favorites-Keeps d = other_table _ (λ db. refl)

  pub attachment_save-Keeps : (a : Attachment) → Keeps IsStored (Attachment.save a)
  unfolding Attachment.save
  attachment_save-Keeps a = other_table _ (λ db. refl)

  pub attachment_delete-Keeps :
      (r : Attachment → Bool) (a : Attachment) → Keeps IsStored (Attachment.delete r a)
  unfolding Attachment.delete retry
  attachment_delete-Keeps r a =
      Keeps-then (Keeps-again 9 (other_table _ (λ db. refl))) (Keeps-guard _ _)

  attachments_each-Keeps :
      (r : Attachment → Bool) (list : List Attachment)
      → Keeps IsStored (Attachment.delete_each r list)
  unfolding Attachment.delete_each
  attachments_each-Keeps r [] = Keeps-pure tt
  attachments_each-Keeps r (a ∷ list) =
      Keeps-then (attachment_delete-Keeps r a) (attachments_each-Keeps r list)

  pub attachments-Keeps :
      (r : Attachment → Bool) (d : ℕ) → Keeps IsStored (Attachment.delete_all_by_cipher r d)
  unfolding Attachment.delete_all_by_cipher
  attachments-Keeps r d = Keeps-bind (Keeps-query _) (λ found. attachments_each-Keeps r found)

  pub archive-Keeps : (now user d at : ℕ) → Keeps IsStored (Archive.save now user d at)
  unfolding Archive.save
  archive-Keeps now user d at = record {
    at = λ db h. (other_table _ (λ db. refl)).at _ ((revision-Keeps user now).at db h);
  }

  pub unarchive-Keeps : (now user d : ℕ) → Keeps IsStored (Archive.delete_by_cipher now user d)
  unfolding Archive.delete_by_cipher
  unarchive-Keeps now user d = record {
    at = λ db h. (other_table _ (λ db. refl)).at _ ((revision-Keeps user now).at db h);
  }

  pub favorite-Keeps :
      (b : Bool) (now user d : ℕ) → Keeps IsStored (Favorite.set_favorite b now d user)
  unfolding Favorite.set_favorite Favorite.change_favorite
  favorite-Keeps b now user d = record { at = λ db h. go db (Favorite.is_favorite d user db) b h }
    where
      go :
          (db : Db) (old new_ : Bool)
          → IsStored db
          → IsStored (Favorite.change_favorite old new_ now d user db).1
      go db false true h = (other_table _ (λ db. refl)).at _ ((revision-Keeps user now).at db h)
      go db true false h = (other_table _ (λ db. refl)).at _ ((revision-Keeps user now).at db h)
      go db true true h = h
      go db false false h = h

  folder_row-Keeps : (f : Folder) → Keeps IsStored (Folder.save_row f)
  unfolding Folder.save_row Folder.replace_into Folder.update_row
  folder_row-Keeps f = record {
    at = λ db h. elim (Bool-cases (Folder.refers_to f.uuid db.folders_ciphers)) [
      | inl e ↦
          rw e ((Keeps-then (other_table _ (λ db. refl)) (other_table _ (λ db. refl))).at db h)
      | inr e ↦ rw e ((other_table _ (λ db. refl)).at db h)
    ];
  }

  pub save_folder-Keeps : (now : ℕ) (f : Folder) → Keeps IsStored (Folder.save now f)
  unfolding Folder.save
  save_folder-Keeps now f = record {
    at = λ db h.
        (Keeps-then (folder_row-Keeps (record f { updated_at = now })) (Keeps-pure _)).at _
          ((revision-Keeps f.user_uuid now).at db h);
  }

  -- rows with another uuid
  found_other :
      (d : ℕ) (cs : List Cipher)
      → (d == w) ≡ false
      → find (λ x. x.uuid == w) (filter (λ x. not (x.uuid == d)) cs) ≡ find (λ x. x.uuid == w) cs
  found_other d [] e = refl
  found_other d (x ∷ cs) e = ground (arith, found_other d cs)

  found_mapped :
      (d : Cipher) (cs : List Cipher)
      → (d.uuid == w) ≡ false
      → find (λ x. x.uuid == w) (map (λ x. if x.uuid == d.uuid then d else x) cs)
        ≡ find (λ x. x.uuid == w) cs
  found_mapped d [] e = refl
  found_mapped d (x ∷ cs) e = ground (arith, found_mapped d cs)

  module _ (env : Storage) where
    pub replace-Keeps :
        (d : Cipher) → (d.uuid == w) ≡ false → Keeps IsStored (Cipher.replace_into env d)
    unfolding Cipher.replace_into
    replace-Keeps d e =
        Keeps-execute (λ db later h. h) _ (λ db h. rw (e, found_other d.uuid db.ciphers e) h)

    pub update-Keeps :
        (d : Cipher) → (d.uuid == w) ≡ false → Keeps IsStored (Cipher.update_row env d)
    unfolding Cipher.update_row
    update-Keeps d e = Keeps-execute (λ db later h. h) _ (λ db h. found_mapped d db.ciphers e ∙ h)

    pub save_row-Keeps :
        (d : Cipher) → (d.uuid == w) ≡ false → Keeps IsStored (Cipher.save_row env d)
    unfolding Cipher.save_row
    save_row-Keeps d e = record {
      at = λ db h. elim (Bool-cases (env.violates d.uuid db)) [
        | inl v ↦ rw v ((Keeps-then (other_table _ (λ db. refl)) (update-Keeps d e)).at db h)
        | inr v ↦ rw v ((replace-Keeps d e).at db h)
      ];
    }

    pub save-Keeps :
        (now : ℕ) (d : Cipher) → (d.uuid == w) ≡ false → Keeps IsStored (Cipher.save env now d)
    unfolding Cipher.save
    save-Keeps now d e =
        Keeps-then (users_revision-Keeps now d)
          (Keeps-then (save_row-Keeps (record d { updated_at = now }) e) (Keeps-pure _))

    pub delete_row-Keeps : (d : ℕ) → (d == w) ≡ false → Keeps IsStored (Cipher.delete_row env d)
    unfolding Cipher.delete_row
    delete_row-Keeps d e =
        Keeps-execute (λ db later h. h) _ (λ db h. found_other d db.ciphers e ∙ h)

    pub delete-Keeps :
        (now : ℕ) (d : Cipher) → (d.uuid == w) ≡ false → Keeps IsStored (Cipher.delete env now d)
    unfolding Cipher.delete
    delete-Keeps now d e = Keeps-then (users_revision-Keeps now d) (
        Keeps-then (folders-Keeps d.uuid) (
          Keeps-then (attachments-Keeps env.remove_file d.uuid)
            (Keeps-then (favorites-Keeps d.uuid) (delete_row-Keeps d.uuid e))))

  found_row-Keeps :
      (o : _) (otherwise : M (Unit {0}))
      → Keeps IsStored otherwise
      → Keeps IsStored (delete_found o otherwise)
  found_row-Keeps none otherwise k = k
  found_row-Keeps (some r) otherwise k = delete_cipher-Keeps r

  change_folder-Keeps : (d : ℕ) (old new_ : Option ℕ) → Keeps IsStored (change_folder d old new_)
  unfolding change_folder
  change_folder-Keeps d none none = Keeps-pure tt
  change_folder-Keeps d none (some folder) =
      folder_save-Keeps (record { cipher_uuid = d; folder_uuid = folder })
  change_folder-Keeps d (some folder) none =
      Keeps-bind (Keeps-query _)
        (λ row. found_row-Keeps row (raise no_previous_folder) (Keeps-raise no_previous_folder))
  change_folder-Keeps d (some old) (some folder) = Keeps-if (old == folder) (Keeps-pure tt) (
      Keeps-bind (Keeps-query _) (λ row.
        Keeps-then (found_row-Keeps row (pure tt) (Keeps-pure tt))
          (folder_save-Keeps (record { cipher_uuid = d; folder_uuid = folder }))))

  pub move-Keeps :
      (now : ℕ) (folder : Option ℕ) (user d : ℕ)
      → Keeps IsStored (Cipher.move_to_folder now folder user d)
  unfolding Cipher.move_to_folder
  move-Keeps now folder user d = Keeps-then (revision-Keeps user now) (
      Keeps-bind (Keeps-query (Cipher.get_folder_uuid user d))
        (λ old. change_folder-Keeps d old folder))
