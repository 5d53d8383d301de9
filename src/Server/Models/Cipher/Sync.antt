-- ===== src/Server/Models/Cipher/Sync.antt =====
-- The maps of a full sync show every cipher as the queries for this cipher do.
use mathlib.Core.Option
use umewarden.Prelude.{
  ℕ, ◌≤◌, ◌≡◌, refl, ap, ◌∙◌, Bool, Bool-cases, true, ◌&&◌, Option, none, some, inl, inr, List, [],
  ◌∷◌, filter, find, map, length, arith, ◌==◌,
}
use umewarden.Server.Db.{Attachment, Archive, Cipher, Favorite, FolderCipher, Db}
use umewarden.Server.Models.Attachment
use umewarden.Server.Models.Attachment.{is_owner, owner_of}
use umewarden.Server.Models.Archive
use umewarden.Server.Models.Favorite
use umewarden.Server.Models.Favorite.{has_row, is_pair}
use umewarden.Server.Models.Cipher.{
  find_by_uuid, is_owned_by_user, is_user, get_folder_uuid, is_user_folder, contains_id,
}
use umewarden.Server.Models.Cipher.Json.{
  View, folders_by_user, sync_data, get_last, print, to_json, to_json_sync,
}

module _ {A : Type 0} (key value : A → ℕ) (q : A → Bool) (k : ℕ) where
  abbrev hit : A → Bool
  hit r = key r == k && q r

  none_left :
      (rows : List A)
      → length (filter hit rows) ≤ 0
      → get_last k (map (λ r. (key r, value r)) (filter q rows)) ≡ none
  none_left [] h = refl
  none_left (r ∷ rows) h = ground (arith, none_left rows)

  last-first :
      (rows : List A)
      → length (filter hit rows) ≤ 1
      → get_last k (map (λ r. (key r, value r)) (filter q rows)) ≡ Option.map value (find hit rows)
  last-first [] h = refl
  last-first (r ∷ rows) h = elim (Bool-cases (q r)) [
    | inl e ↦ elim (Bool-cases (key r == k)) [
      | inl t ↦
          let z : length (filter hit rows) ≤ 0 = ground arith in
          let gone = none_left rows z in ground arith
      | inr t ↦ ground (arith, last-first rows)
    ]
    | inr e ↦ ground (arith, last-first rows)
  ]

contains-has_row :
    (user k : ℕ) (xs : List Favorite)
    → contains_id (map (λ (x : Favorite). x.cipher_uuid) (filter (λ x. x.user_uuid == user) xs)) k
      ≡ has_row (is_pair user k) xs
contains-has_row user k [] = refl
contains-has_row user k (x ∷ xs) = ground (arith, contains-has_row user k xs)

pub owner_of-find :
    (k : ℕ) (cs : List Cipher) {c : Cipher}
    → find (λ x. x.uuid == k) cs ≡ some c
    → owner_of k cs ≡ c.user_uuid
owner_of-find k [] h = absurd (ground arith)
owner_of-find k (x ∷ cs) {c} h = elim (Bool-cases (x.uuid == k)) [
  | inl e ↦ ground arith
  | inr e ↦ ground (arith, owner_of-find k cs {c = c})
]

own_attachments :
    (user k : ℕ) (cs : List Cipher) (xs : List Attachment)
    → owner_of k cs ≡ some user
    → filter (λ a. a.cipher_uuid == k) (filter (λ a. is_owner user (owner_of a.cipher_uuid cs)) xs)
      ≡ filter (λ a. a.cipher_uuid == k) xs
own_attachments user k cs [] h = refl
own_attachments user k cs (a ∷ xs) h = elim (Bool-cases (a.cipher_uuid == k)) [
  | inl e ↦
      let same : a.cipher_uuid ≡ k = ground arith in
      let mine : is_owner user (owner_of a.cipher_uuid cs) ≡ true = rw (same, h) (ground arith) in
      rw (mine, e) (ap (◌∷◌ a) (own_attachments user k cs xs h))
  | inr e ↦ elim (Bool-cases (is_owner user (owner_of a.cipher_uuid cs))) [
    | inl o ↦ rw (o, e) (own_attachments user k cs xs h)
    | inr o ↦ rw (o, e) (own_attachments user k cs xs h)
  ]
]

pub owned_by : (user : ℕ) (o : Option ℕ) → is_user user o ≡ true → o ≡ some user
owned_by user none h = absurd (ground arith)
owned_by user (some u) h = ground arith

swapped :
    (user k : ℕ) (xs : List Archive)
    → find (λ x. x.cipher_uuid == k && x.user_uuid == user) xs ≡ find (Archive.is_pair user k) xs
swapped user k [] = refl
swapped user k (x ∷ xs) = ground (arith, swapped user k xs)

-- For a cipher of the user that is stored under its uuid, is in one folder of the user at most and has
-- one date of archiving at most, the answer from the maps of a full sync is the answer from the
-- queries for this cipher, an error included.
pub to_json_sync-eq-to_json :
    (view : View) (user : ℕ) (c : Cipher) (db : Db)
    → find_by_uuid c.uuid db ≡ some c
    → is_owned_by_user user c ≡ true
    → length (
        filter
          (λ r. r.cipher_uuid == c.uuid && is_user_folder user r.folder_uuid db.folders)
          db.folders_ciphers)
      ≤ 1
    → length (filter (λ (x : Archive). x.cipher_uuid == c.uuid && x.user_uuid == user) db.archives)
      ≤ 1
    → to_json_sync view (sync_data user db) user c db ≡ to_json view user c db
unfolding to_json_sync to_json sync_data Attachment.find_all_by_user Attachment.find_by_cipher
    folders_by_user get_folder_uuid Favorite.get_all_cipher_uuid_by_user Favorite.is_favorite
    Archive.find_by_user Archive.get_archived_at find_by_uuid
to_json_sync-eq-to_json view user c db stored own folders archives =
    let owner = owner_of-find c.uuid db.ciphers {c = c} stored ∙ owned_by user c.user_uuid own in
    let same_attachments = own_attachments user c.uuid db.ciphers db.attachments owner in
    let same_folder =
      last-first (λ (r : FolderCipher). r.cipher_uuid) (λ r. r.folder_uuid)
        (λ r. is_user_folder user r.folder_uuid db.folders) c.uuid db.folders_ciphers folders in
    let same_favorite = contains-has_row user c.uuid db.favorites in
    let same_archive =
      last-first (λ (x : Archive). x.cipher_uuid) (λ x. x.archived_at) (λ x. x.user_uuid == user)
        c.uuid db.archives archives
      ∙ ap (Option.map (λ (x : Archive). x.archived_at)) (swapped user c.uuid db.archives) in
    λ i.
      print view user c (same_attachments i) (same_folder i) (same_favorite i) (same_archive i) db
