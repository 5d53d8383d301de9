-- ===== src/Server/Models/TwoFactor/Laws.antt =====
-- What a query returns after a statement on the table twofactor.
use umewarden.Prelude.{ℕ, ◌≡◌, ◌⊎◌, some, List, ◌∷◌, find-eq-some, arith, Bool, false, []}
use umewarden.Server.Db.{TwoFactor, Db, Error, ok, err}
use umewarden.Server.Models.TwoFactor.{save, delete, find_by_user_and_type}

-- The next writing statement does not fail.
abbrev pub NoFault : Db → Type 0
NoFault db = (db.faults ≡ []) ⊎ ((later : List Bool) × (db.faults ≡ false ∷ later))

pub find-save :
    (user atype : ℕ) (r : TwoFactor) (db db' : Db)
    → r.user_uuid ≡ user
    → r.atype ≡ atype
    → save r db ≡ (ok tt, db')
    → find_by_user_and_type user atype db' ≡ some r
unfolding save find_by_user_and_type
find-save user atype r db db' u a h = ground arith

pub save-ok : (r : TwoFactor) (db : Db) → NoFault db → (save r db).0 ≡ ok tt
unfolding save
save-ok r db h = ground arith

pub save-err :
    (r : TwoFactor) (db : Db) (e : Error)
    → (save r db).0 ≡ err e
    → (save r db).1.twofactor ≡ db.twofactor
unfolding save
save-err r db e h = ground arith

pub found_lem :
    (user atype : ℕ) (db : Db) {r : TwoFactor}
    → find_by_user_and_type user atype db ≡ some r
    → (r.user_uuid ≡ user) × (r.atype ≡ atype)
unfolding find_by_user_and_type
found_lem user atype db h = ground (arith, find-eq-some _ db.twofactor h)

-- Without faults a save succeeds, and leaves none.
pub save_sound :
    (r : TwoFactor) (db : Db)
    → db.faults ≡ []
    → ((save r db).0 ≡ ok tt) × ((save r db).1.faults ≡ [])
unfolding save
save_sound r db h = ground arith

pub delete_sound :
    (r : TwoFactor) (db : Db)
    → db.faults ≡ []
    → ((delete r db).0 ≡ ok tt) × ((delete r db).1.faults ≡ [])
unfolding delete
delete_sound r db h = ground arith
