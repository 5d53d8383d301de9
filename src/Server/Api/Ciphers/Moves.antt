-- ===== src/Server/Api/Ciphers/Moves.antt =====
-- Moving ciphers: what a list of no ids selects.
use mathlib.Core.Path.{subst}
use umewarden.Prelude.{
  ℕ, ◌≡◌, refl, ap, sym, ◌∙◌, Bool, Bool-cases, true, false, ◌&&◌, Option, none, some, inl, inr,
  List, [], ◌∷◌, filter, length, arith, ◌==◌, if◌then◌else◌,
}
use umewarden.Server.Db.{
  Cipher, Folder, Db, Result, ok, err, continue, guard, query, not_all_moved, invalid_folder, ◌>>=◌,
  ◌>>◌,
}
use umewarden.Server.Models.Folder
use umewarden.Server.Models.Cipher
use umewarden.Server.Models.Cipher.{is_owned_by_user, contains_id, is_listed}
use umewarden.Server.Api.Ciphers.{Env, check_folder, is_some}
use umewarden.Server.Api.Ciphers.Placed.{IsPlacedIn, move_each-IsMoved}
use umewarden.Server.Api.Ciphers.Remove.{move_cipher_selected, move_each}

abbrev pub uuids : List Cipher → List ℕ
uuids [] = []
uuids (c ∷ cs) = c.uuid ∷ uuids cs

module _ (user : ℕ) where
  abbrev Covers : List ℕ → List Cipher → Type 0
  Covers ids [] = Unit {0}
  Covers ids (c ∷ cs) =
      (is_owned_by_user user c ≡ true → contains_id ids c.uuid ≡ true) × Covers ids cs

  Covers-weaken : (id : ℕ) (ids : List ℕ) (cs : List Cipher) → Covers ids cs → Covers (id ∷ ids) cs
  Covers-weaken id ids [] h = tt
  Covers-weaken id ids (c ∷ cs) h = (λ o. ground (arith, h.0 o), Covers-weaken id ids cs h.1)

  Covers-uuids : (cs : List Cipher) → Covers (uuids (filter (is_owned_by_user user) cs)) cs
  Covers-uuids [] = tt
  Covers-uuids (c ∷ cs) = elim (Bool-cases (is_owned_by_user user c)) [
    | inl o ↦
        let same : filter (is_owned_by_user user) (c ∷ cs) ≡ c ∷ filter (is_owned_by_user user) cs =
          rw o refl in
        subst (λ ids. Covers ids (c ∷ cs)) (sym (ap uuids same))
          (λ _. ground arith, Covers-weaken c.uuid _ cs (Covers-uuids cs))
    | inr o ↦
        let same : filter (is_owned_by_user user) (c ∷ cs) ≡ filter (is_owned_by_user user) cs =
          rw o refl in
        subst (λ ids. Covers ids (c ∷ cs)) (sym (ap uuids same))
          (λ t. absurd (ground arith), Covers-uuids cs)
  ]

  filter-Covers :
      (ids : List ℕ) (cs : List Cipher)
      → Covers ids cs
      → filter (λ c. is_owned_by_user user c && contains_id ids c.uuid) cs
        ≡ filter (is_owned_by_user user) cs
  filter-Covers ids [] h = refl
  filter-Covers ids (c ∷ cs) h = elim (Bool-cases (is_owned_by_user user c)) [
    | inl o ↦ rw (o, h.0 o) (ap (λ r. c ∷ r) (filter-Covers ids cs h.1))
    | inr o ↦ rw o (filter-Covers ids cs h.1)
  ]

  filter-true :
      (cs : List Cipher)
      → filter (λ c. is_owned_by_user user c && true) cs ≡ filter (is_owned_by_user user) cs
  filter-true [] = refl
  filter-true (c ∷ cs) = ground (arith, filter-true cs)

  listed :
      (ids : List ℕ) (cs : List Cipher)
      → Covers ids cs
      → filter (λ c. is_owned_by_user user c && is_listed ids c.uuid) cs
        ≡ filter (is_owned_by_user user) cs
  listed [] cs h = filter-true cs
  listed (id ∷ ids) cs h = filter-Covers (id ∷ ids) cs h

  -- No ids, and the ids of all ciphers of the user, select the same.
  find_by_user-nil :
      (db : Db)
      → Cipher.find_by_user user [] db
        ≡ Cipher.find_by_user user (uuids (Cipher.find_owned_by_user user db)) db
  unfolding Cipher.find_by_user Cipher.find_owned_by_user
  find_by_user-nil db = filter-true db.ciphers ∙ sym (listed _ db.ciphers (Covers-uuids db.ciphers))

-- what is left when the last statement raises or not
guarded :
    (r : Result (Unit {0}) × Db) (b : Bool) (e : _) → (continue r.0 (λ _. guard b e) r.1).1 ≡ r.1
guarded (ok _, db) true e = refl
guarded (ok _, db) false e = refl
guarded (err _, db) b e = refl

moved :
    (r : Result (Unit {0}) × Db) (env : Env) (now : ℕ) (folder : Option ℕ) (user : ℕ)
    (ids ids' : List ℕ)
    → Cipher.find_by_user user ids r.1 ≡ Cipher.find_by_user user ids' r.1
    → (continue r.0
        (λ _. do
          accessible ← query (Cipher.find_by_user user ids)
          move_each env now folder accessible user
          guard (length ids == length accessible) (not_all_moved (length accessible) (length ids)))
        r.1).1
      ≡ (continue r.0
          (λ _. do
            accessible ← query (Cipher.find_by_user user ids')
            move_each env now folder accessible user
            guard
                (length ids' == length accessible)
                (not_all_moved (length accessible) (length ids')))
          r.1).1
moved (err _, db) env now folder user ids ids' h = refl
moved (ok _, db) env now folder user ids ids' h =
    let one = move_each env now folder (Cipher.find_by_user user ids db) user db in
    let other = move_each env now folder (Cipher.find_by_user user ids' db) user db in
    guarded one (length ids == length (Cipher.find_by_user user ids db))
      (not_all_moved (length (Cipher.find_by_user user ids db)) (length ids))
    ∙ ap (λ list. (move_each env now folder list user db).1) h
    ∙ sym (
        guarded other (length ids' == length (Cipher.find_by_user user ids' db))
          (not_all_moved (length (Cipher.find_by_user user ids' db)) (length ids')))

check_folder-db : (folder : Option ℕ) (user : ℕ) (db : Db) → (check_folder folder user db).1 ≡ db
check_folder-db none user db = refl
check_folder-db (some id) user db =
    guarded (ok tt, db) (is_some (Folder.find_by_uuid_and_user id user db)) invalid_folder

-- Moving a selection of no ciphers leaves the database that moving all ciphers of the user leaves.
pub move_cipher_selected-nil :
    (env : Env) (now : ℕ) (folder : Option ℕ) (user : ℕ) (db : Db)
    → (move_cipher_selected env now folder [] user db).1
      ≡ (move_cipher_selected env now folder (uuids (Cipher.find_owned_by_user user db)) user db).1
unfolding move_cipher_selected
move_cipher_selected-nil env now folder user db =
    moved (check_folder folder user db) env now folder user [] _
      (rw (check_folder-db folder user db) (find_by_user-nil user db))

-- the answer to a move of no ciphers, by the ciphers of the user
abbrev pub nil_answer : List Cipher → Result (Unit {0})
nil_answer owned = if length owned == 0 then ok tt else err (not_all_moved (length owned) 0)

guard_lem :
    (n : ℕ) (db : Db)
    → guard (0 == n) (not_all_moved n 0) db
      ≡ ((if n == 0 then ok tt else err (not_all_moved n 0)), db)
guard_lem n db = elim (Bool-cases (n == 0)) [
  | inl e ↦ let flipped : (0 == n) ≡ true = ground (arith, e) in rw flipped (rw e refl)
  | inr e ↦ let flipped : (0 == n) ≡ false = ground (arith, e) in rw flipped (rw e refl)
]

-- Without faults, a request to move a selection of no ciphers to a folder of the user moves every
-- cipher of the user: each of them has a row that puts it into the folder afterwards. The answer is
-- still the error that not all ciphers are moved, unless the user has none.
pub move_nothing-IsPlacedIn :
    (env : Env) (now folder user : ℕ) (db : Db) (row : Folder)
    → db.faults ≡ []
    → Folder.find_by_uuid_and_user folder user db ≡ some row
    → let owned = Cipher.find_owned_by_user user db in
      let x = move_cipher_selected env now (some folder) [] user db in
      (x.0 ≡ nil_answer owned) × IsPlacedIn folder owned x.1
unfolding move_cipher_selected Cipher.find_by_user Cipher.find_owned_by_user
move_nothing-IsPlacedIn env now folder user db row sound found =
    let owned = filter (is_owned_by_user user) db.ciphers in
    let db1 = (move_each env now (some folder) owned user db).1 in
    let (done, after) = move_each-IsMoved folder env now user owned db sound in
    let each : move_each env now (some folder) owned user db ≡ (ok tt, db1) = λ i. (done i, db1) in
    rw (found, filter-true user db.ciphers)
      (rw each (rw (guard_lem (length owned) db1) (refl, after.all_placed)))
