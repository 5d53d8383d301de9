-- ===== src/Server/Api/Ciphers/Placed.antt =====
-- Moving ciphers to a folder: each of them is in the folder afterwards.
use umewarden.Prelude.{
  ℕ, ◌≡◌, refl, ap, Bool, Bool-cases, true, false, not, ◌&&◌, ◌||◌, Option, Option-cases, none,
  some, inl, inr, List, [], ◌∷◌, All, filter, find, find-eq-some, arith, ◌==◌,
}
use umewarden.Server.Db.{Cipher, FolderCipher, Db, Result, ok, pure, execute, ◌>>◌}
use umewarden.Server.Models.User.{update_uuid_revision}
use umewarden.Server.Models.Folder
use umewarden.Server.Models.Folder.{is_pair}
use umewarden.Server.Models.Cipher.{
  change_folder, get_folder_uuid, is_user_folder, move_to_folder, delete_found,
}
use umewarden.Server.Api.Folders.Rename.{revision-IsQuiet}
use umewarden.Server.Api.Ciphers.{Env}
use umewarden.Server.Api.Ciphers.Remove.{move_each}

-- a row puts the cipher into the folder
abbrev pub is_in : ℕ → List FolderCipher → ℕ → Bool
is_in folder [] cipher = false
is_in folder (x ∷ xs) cipher = is_pair folder cipher x || is_in folder xs cipher

module _ (folder : ℕ) where
  is_in-filter :
      (f c cipher : ℕ) (xs : List FolderCipher)
      → is_pair f c (record { cipher_uuid = cipher; folder_uuid = folder }) ≡ false
      → is_in folder xs cipher ≡ true
      → is_in folder (filter (λ x. not (is_pair f c x)) xs) cipher ≡ true
  is_in-filter f c cipher [] other h = absurd (ground (arith, h))
  is_in-filter f c cipher (x ∷ xs) other h = elim (Bool-cases (is_pair folder cipher x)) [
    | inl here ↦
        let kept : is_pair f c x ≡ false = ground (arith, here, other) in rw kept (rw here refl)
    | inr later ↦
        let ih = is_in-filter f c cipher xs other (ground (arith, later, h)) in
        elim (Bool-cases (is_pair f c x)) [
          | inl gone ↦ rw gone ih
          | inr kept ↦ rw kept (ground (arith, ih))
        ]
  ]

  is_in-find :
      (q : FolderCipher → Bool) (xs : List FolderCipher) (x : FolderCipher) (cipher : ℕ)
      → find q xs ≡ some x
      → is_pair folder cipher x ≡ true
      → is_in folder xs cipher ≡ true
  is_in-find q [] x cipher e p = absurd (ground (arith, e))
  is_in-find q (y ∷ ys) x cipher e p = elim (Bool-cases (q y)) [
    | inl found ↦ let same : y ≡ x = ground (arith, rw found at e) in rw same (ground (arith, p))
    | inr off ↦ ground (arith, is_in-find q ys x cipher (rw off at e) p)
  ]

  -- what a move of a cipher leaves
  record IsPlaced (cipher : ℕ) (db db' : Db) : Type 0 where
    sound : db'.faults ≡ []
    placed : is_in folder db'.folders_ciphers cipher ≡ true
    kept :
        (c : ℕ)
        → is_in folder db.folders_ciphers c ≡ true
        → is_in folder db'.folders_ciphers c ≡ true

  abbrev IsDone : ℕ → Db → Result (Unit {0}) × Db → Type 0
  IsDone cipher db x = (x.0 ≡ ok tt) × IsPlaced cipher db x.1

  save_cipher-IsDone :
      (cipher : ℕ) (db : Db)
      → db.faults ≡ []
      → IsDone cipher db
          (Folder.save_cipher (record { cipher_uuid = cipher; folder_uuid = folder }) db)
  unfolding Folder.save_cipher execute
  save_cipher-IsDone cipher db sound = rw sound (
    refl,
    record {
      sound = refl;
      placed = ground arith;
      kept = λ c h. elim (Bool-cases (c == cipher)) [
        | inl same ↦ ground (arith, same)
        | inr other ↦
            ground
              (arith, is_in-filter folder cipher c db.folders_ciphers (ground (arith, other)) h)
      ];
    },
  )

  -- behind the query for the row of the previous folder
  replaced :
      (old cipher : ℕ) (db : Db) (found : Option FolderCipher)
      → db.faults ≡ []
      → (old == folder) ≡ false
      → find (is_pair old cipher) db.folders_ciphers ≡ found
      → IsDone cipher db (
          (delete_found found (pure tt)
              >> Folder.save_cipher (record { cipher_uuid = cipher; folder_uuid = folder }))
            db)
  unfolding Folder.delete_cipher execute
  replaced old cipher db none sound other e = save_cipher-IsDone cipher db sound
  replaced old cipher db (some r) sound other e =
      let db1 = (Folder.delete_cipher r db).1 in
      let at = find-eq-some (is_pair old cipher) db.folders_ciphers e in
      let fine : Folder.delete_cipher r db ≡ (ok tt, db1) = rw sound refl in
      let sound1 : db1.faults ≡ [] = rw sound refl in
      let (done, p) = save_cipher-IsDone cipher db1 sound1 in
      rw fine (
        done,
        record {
          sound = p.sound;
          placed = p.placed;
          kept = λ c h. p.kept c (
              rw sound (
                is_in-filter r.folder_uuid r.cipher_uuid c db.folders_ciphers
                  (ground (arith, at, other)) h));
        },
      )

  change_folder-IsDone :
      (cipher : ℕ) (old : Option ℕ) (db : Db)
      → db.faults ≡ []
      → (old ≡ some folder → is_in folder db.folders_ciphers cipher ≡ true)
      → IsDone cipher db (change_folder cipher old (some folder) db)
  unfolding change_folder Folder.find_by_folder_and_cipher
  change_folder-IsDone cipher none db sound h = save_cipher-IsDone cipher db sound
  change_folder-IsDone cipher (some old) db sound h = elim (Bool-cases (old == folder)) [
    | inl same ↦
        let e : some old ≡ some folder = ap some (ground (arith, same)) in
        rw same (refl, record { sound = sound; placed = h e; kept = λ c p. p })
    | inr other ↦
        rw other
          (replaced old cipher db (find (is_pair old cipher) db.folders_ciphers) sound other refl)
  ]

  -- the folder that is found for a cipher has it
  get_folder-is_in :
      (user cipher : ℕ) (db : Db)
      → get_folder_uuid user cipher db ≡ some folder
      → is_in folder db.folders_ciphers cipher ≡ true
  unfolding get_folder_uuid
  get_folder-is_in user cipher db e =
      let q : FolderCipher → Bool =
        λ r. r.cipher_uuid == cipher && is_user_folder user r.folder_uuid db.folders in
      elim (Option-cases (find q db.folders_ciphers)) [
        | inl absent ↦ absurd (ground (arith, rw absent at e))
        | inr (r, found) ↦
            let named : r.folder_uuid ≡ folder = ground (arith, rw found at e) in
            let at = find-eq-some q db.folders_ciphers found in
            is_in-find q db.folders_ciphers r cipher found (ground (arith, at, named))
      ]

  move_to_folder-IsDone :
      (now user cipher : ℕ) (db : Db)
      → db.faults ≡ []
      → IsDone cipher db (move_to_folder now (some folder) user cipher db)
  unfolding move_to_folder
  move_to_folder-IsDone now user cipher db sound =
      let db1 = update_uuid_revision user now db in
      let quiet = revision-IsQuiet user now db sound in
      let (done, p) =
        change_folder-IsDone cipher (get_folder_uuid user cipher db1) db1 quiet.no_fault
          (get_folder-is_in user cipher db1) in
      (
        done,
        record {
          sound = p.sound;
          placed = p.placed;
          kept = λ c h. p.kept c (rw (← quiet.same_ciphers) at h);
        },
      )

  -- all ciphers of the list are in the folder
  abbrev pub IsPlacedIn : List Cipher → Db → Type 0
  IsPlacedIn cs db = All (λ c. is_in folder db.folders_ciphers c.uuid ≡ true) cs

  pub record IsMoved (cs : List Cipher) (db db' : Db) : Type 0 where
    pub sound : db'.faults ≡ []
    pub all_placed : IsPlacedIn cs db'
    kept :
        (c : ℕ)
        → is_in folder db.folders_ciphers c ≡ true
        → is_in folder db'.folders_ciphers c ≡ true

  pub move_each-IsMoved :
      (env : Env) (now user : ℕ) (cs : List Cipher) (db : Db)
      → db.faults ≡ []
      → let x = move_each env now (some folder) cs user db in (x.0 ≡ ok tt) × IsMoved cs db x.1
  unfolding move_each
  move_each-IsMoved env now user [] db sound =
      (refl, record { sound = sound; all_placed = tt; kept = λ c h. h })
  move_each-IsMoved env now user (c ∷ cs) db sound =
      let db1 = (move_to_folder now (some folder) user c.uuid db).1 in
      let (done, p) = move_to_folder-IsDone now user c.uuid db sound in
      let (rest_done, rest) = move_each-IsMoved env now user cs db1 p.sound in
      let first : move_to_folder now (some folder) user c.uuid db ≡ (ok tt, db1) =
        λ i. (done i, db1) in
      rw first (
        rest_done,
        record {
          sound = rest.sound;
          all_placed = (rest.kept c.uuid p.placed, rest.all_placed);
          kept = λ d h. rest.kept d (p.kept d h);
        },
      )
