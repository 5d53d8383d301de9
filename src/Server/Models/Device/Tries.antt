-- ===== src/Server/Models/Device/Tries.antt =====
-- How often a device is tried to be saved.
use umewarden.Prelude.{
  ℕ, zero, suc, ◌≤◌, ◌+◌, ◌-◌, leb, if◌then◌else◌, Bool-cases, inl, inr, ◌≡◌, refl, ap, ◌∙◌, Bool,
  true, false, List, ◌∷◌, ◌++◌, replicate, arith,
}
use umewarden.Server.Db.{Device, Db, database, Result, ok, err, M, execute, continue}
use umewarden.Server.Models.User.{again, retry}
use umewarden.Server.Models.Device.{put, saved, save}

-- a statement on the devices
abbrev on_devices : (List Device → List Device) → M (Unit {0})
on_devices g = execute (λ db. record db { devices = g db.devices })

module _ (g : List Device → List Device) where
  again-ok :
      (k left : ℕ) (later : List Bool) (db : Db)
      → k ≤ left
      → db.faults ≡ replicate k true ++ false ∷ later
      → again left (on_devices g) db ≡ (ok tt, record db { devices = g db.devices; faults = later })
  unfolding again execute
  again-ok zero zero later db few e = rw e refl
  again-ok zero (suc left) later db few e = rw e refl
  again-ok (suc k) zero later db few e = absurd (omega arith)
  again-ok (suc k) (suc left) later db few e = rw e (
      again-ok k left later (record db { faults = replicate k true ++ false ∷ later }) (omega arith)
        refl)

  again-err :
      (left : ℕ) (later : List Bool) (db : Db)
      → db.faults ≡ replicate (suc left) true ++ later
      → again left (on_devices g) db ≡ (err database, record db { faults = later })
  unfolding again execute
  again-err zero later db e = rw e refl
  again-err (suc left) later db e =
      rw e (again-err left later (record db { faults = replicate (suc left) true ++ later }) refl)

replicate_split :
    (m n k : ℕ) (rest : List Bool)
    → k ≡ m + n
    → replicate k true ++ rest ≡ replicate m true ++ (replicate n true ++ rest)
replicate_split zero n k rest e = let same : k ≡ n = omega arith in rw same refl
replicate_split (suc m) n zero rest e = absurd (omega arith)
replicate_split (suc m) n (suc k) rest e =
    ap (λ tape. true ∷ tape) (replicate_split m n k rest (omega arith))

-- what a save makes of the result of its statement
abbrev answered : Device → Result (Unit {0}) × Db → Result Device × Db
answered d (ok _, db) = (ok d, db)
answered d (err e, db) = (err e, db)

save-answered :
    (now : ℕ) (update_time : Bool) (d : Device) (db : Db)
    → save now update_time d db
      ≡ answered (saved now update_time d) (again 9 (on_devices (put (saved now update_time d))) db)
unfolding save retry
save-answered now update_time d db = go (again 9 (on_devices (put (saved now update_time d))) db)
  where
    go :
        (x : Result (Unit {0}) × Db)
        → continue x.0 (λ _ later. (ok (saved now update_time d), later)) x.1
          ≡ answered (saved now update_time d) x
    go (ok u, later) = refl
    go (err e, later) = refl

-- A save of a device ends: when the next statement that succeeds comes behind at most nine that fail,
-- the device is stored and nothing else is changed; when it comes later, ten statements are tried, no
-- row is changed, and the error is returned.
pub save_tries :
    (now : ℕ) (update_time : Bool) (d : Device) (db : Db) (k : ℕ) (later : List Bool)
    → db.faults ≡ replicate k true ++ false ∷ later
    → save now update_time d db ≡ (
        if leb k 9
        then (
          ok (saved now update_time d),
          record db { devices = put (saved now update_time d) db.devices; faults = later },
        )
        else (err database, record db { faults = replicate (k - 10) true ++ false ∷ later }))
save_tries now update_time d db k later e = elim (Bool-cases (leb k 9)) [
  | inl few ↦
      let done = again-ok (put (saved now update_time d)) k 9 later db (ground (arith, few)) e in
      rw few (save-answered now update_time d db ∙ ap (answered (saved now update_time d)) done)
  | inr many ↦
      let split : k ≡ 10 + (k - 10) = ground (arith, many) in
      let tape = e ∙ replicate_split 10 (k - 10) k (false ∷ later) split in
      let failed =
        again-err (put (saved now update_time d)) 9 (replicate (k - 10) true ++ false ∷ later) db
          tape in
      rw many (save-answered now update_time d db ∙ ap (answered (saved now update_time d)) failed)
]
