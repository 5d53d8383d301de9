-- ===== src/Server/Ensures.antt =====
-- What holds of the database and of the returned value when a computation returns: rules for the parts
-- of a handler.
use umewarden.Prelude.{
  ℕ, zero, suc, ◌≡◌, refl, List, Bool, true, false, Option, none, some, if◌then◌else◌,
}
use umewarden.Server.Models.User.{again, retry}
use umewarden.Server.Keeps.{Keeps}
use umewarden.Server.Db.{
  Error, Db, Result, ok, err, M, pure, guard, raise, query, require, continue, execute,
  execute-returns, Returned, ◌>>=◌, ◌>>◌,
}

pub record Ensures {A : Type 0} (P : Db → Type 0) (m : M A) (Q : A → Db → Type 0) : Type 0 where
  pub at : (db : Db) → P db → Returned Q (m db).0 (m db).1

module _ {P : Db → Type 0} where
  pub Ensures-bind :
      {A B : Type 0} {m : M A} {f : A → M B} {R : A → Db → Type 0} {Q : B → Db → Type 0}
      → Ensures P m R
      → ((a : A) → Ensures (R a) (f a) Q)
      → Ensures P (m >>= f) Q
  Ensures-bind {A} {B} {m} {f} {R} {Q} em ef = record {
    at = λ db h. go (m db).0 (m db).1 (em.at db h);
  }
    where
      go :
          (r : Result A) (db : Db)
          → Returned R r db
          → Returned Q (continue r f db).0 (continue r f db).1
      go (ok a) db h = (ef a).at db h
      go (err e) db h = tt

  pub Ensures-guard : (b : Bool) (e : Error) → Ensures P (guard b e) (λ _ db. P db × (b ≡ true))
  Ensures-guard true e = record { at = λ db h. (h, refl) }
  Ensures-guard false e = record { at = λ db h. tt }

  pub Ensures-require :
      {A : Type 0} (e : Error) (o : Option A)
      → Ensures P (require e o) (λ a db. P db × (o ≡ some a))
  Ensures-require e none = record { at = λ db h. tt }
  Ensures-require e (some a) = record { at = λ db h. (h, refl) }

  pub Ensures-query : {A : Type 0} (f : Db → A) → Ensures P (query f) (λ a db. P db × (f db ≡ a))
  Ensures-query f = record { at = λ db h. (h, refl) }

  pub Ensures-pure :
      {A : Type 0} (a : A) {Q : A → Db → Type 0}
      → ((db : Db) → P db → Q a db)
      → Ensures P (pure a) Q
  Ensures-pure a k = record { at = k }

  pub Ensures-execute :
      {Q : Db → Type 0} (f : Db → Db)
      → ((db : Db) (later : List Bool) → Q db → Q (record db { faults = later }))
      → ((db : Db) → P db → Q (f db))
      → Ensures P (execute f) (λ _. Q)
  Ensures-execute {Q} f ignores k = record { at = λ db h. execute-returns Q ignores f db (k db h) }

  pub Ensures-Keeps : {A : Type 0} {m : M A} → Keeps P m → Ensures P m (λ _. P)
  Ensures-Keeps {A} {m} k = record { at = λ db h. go (m db).0 (m db).1 (k.at db h) }
    where
      go : (r : Result A) (db : Db) → P db → Returned (λ _. P) r db
      go (ok a) db h = h
      go (err e) db h = tt

  pub Ensures-weaken :
      {A : Type 0} {m : M A} {P' : Db → Type 0} {Q : A → Db → Type 0}
      → ((db : Db) → P' db → P db)
      → Ensures P m Q
      → Ensures P' m Q
  Ensures-weaken k em = record { at = λ db h. em.at db (k db h) }

  -- a statement that is tried again until it returns
  pub Ensures-again :
      (n : ℕ) {m : M (Unit {0})} {Q : Unit {0} → Db → Type 0}
      → Keeps P m
      → Ensures P m Q
      → Ensures P (again n m) Q
  unfolding again
  Ensures-again zero km em = em
  Ensures-again (suc n) {m} {Q} km em =
      let later = Ensures-again n km em in record { at = λ db h. go later db (m db).0 refl h }
    where
      go :
          Ensures P (again n m) Q
          → (db : Db) (r : Result (Unit {0})) → (m db).0 ≡ r
          → P db
          → let x = elim r as (λ _. Result (Unit {0}) × Db) [
            | ok _ ↦ m db
            | err _ ↦ again n m (m db).1
          ] in
            Returned Q x.0 x.1
      go later db (ok _) e h = em.at db h
      go later db (err _) e h = later.at (m db).1 (km.at db h)

  pub Ensures-retry :
      (n : ℕ) {m : M (Unit {0})} {Q : Unit {0} → Db → Type 0}
      → Keeps P m
      → Ensures P m Q
      → Ensures P (retry m n) Q
  unfolding retry
  Ensures-retry n km em = Ensures-again _ km em

  pub Ensures-conclude :
      {A : Type 0} {m : M A} {Q R : A → Db → Type 0}
      → ((a : A) (db : Db) → Q a db → R a db)
      → Ensures P m Q
      → Ensures P m R
  Ensures-conclude {A} {m} {Q} {R} k em = record { at = λ db h. go (m db).0 (m db).1 (em.at db h) }
    where
      go : (r : Result A) (db : Db) → Returned Q r db → Returned R r db
      go (ok a) db h = k a db h
      go (err e) db h = tt

  pub Ensures-raise : {A : Type 0} (e : Error) {Q : A → Db → Type 0} → Ensures P (raise e) Q
  Ensures-raise e = record { at = λ db h. tt }

  pub Ensures-if :
      {A : Type 0} (b : Bool) {m n : M A} {Q : A → Db → Type 0}
      → (b ≡ true → Ensures P m Q)
      → (b ≡ false → Ensures P n Q)
      → Ensures P (if b then m else n) Q
  Ensures-if true em en = em refl
  Ensures-if false em en = en refl

  -- what is returned is what some run returns, from a database with the property
  pub Ensures-ran :
      {A : Type 0} {m : M A} → Ensures P m (λ a _. (before : Db) × P before × ((m before).0 ≡ ok a))
  Ensures-ran {A} {m} = record { at = λ db h. go db h (m db).0 refl }
    where
      go :
          (db : Db)
          → P db
          → (r : Result A) → (m db).0 ≡ r
          → Returned (λ a _. (before : Db) × P before × ((m before).0 ≡ ok a)) r (m db).1
      go db h (ok a) e = (db, h, e)
      go db h (err x) e = tt

  -- what is known beforehand is still known
  pub Ensures-both :
      {A : Type 0} {m : M A} {Q R : A → Db → Type 0}
      → Ensures P m Q
      → Ensures P m R
      → Ensures P m (λ a db. Q a db × R a db)
  Ensures-both {A} {m} {Q} {R} em en = record {
    at = λ db h. go (m db).0 (m db).1 (em.at db h) (en.at db h);
  }
    where
      go :
          (r : Result A) (db : Db)
          → Returned Q r db
          → Returned R r db
          → Returned (λ a later. Q a later × R a later) r db
      go (ok a) db q r = (q, r)
      go (err e) db q r = tt

  -- nothing is asked of a step
  pub Ensures-any : {A : Type 0} {m : M A} → Ensures P m (λ _ _. Unit {0})
  Ensures-any {A} {m} = record { at = λ db h. go (m db).0 (m db).1 }
    where
      go : (r : Result A) (db : Db) → Returned (λ _ _. Unit {0}) r db
      go (ok a) db = tt
      go (err e) db = tt

  pub Ensures-when :
      {B : Type 0} (b : Bool) (e : Error) {n : M B} {Q : B → Db → Type 0}
      → (b ≡ true → Ensures P n Q)
      → Ensures P (guard b e >> n) Q
  Ensures-when true e h = h refl
  Ensures-when false e h = record { at = λ db p. tt }

  -- a fact that does not speak of the database
  pub Ensures-known :
      {F : Type 0} {A : Type 0} {m : M A} {Q : A → Db → Type 0}
      → (F → Ensures P m Q)
      → Ensures (λ db. P db × F) m Q
  Ensures-known k = record { at = λ db (h, f). (k f).at db h }

-- such a fact survives any step
pub Ensures-fact : {F : Type 0} {A : Type 0} {m : M A} → Ensures (λ _. F) m (λ _ _. F)
Ensures-fact {F} {A} {m} = record { at = λ db h. go (m db).0 (m db).1 h }
  where
    go : (r : Result A) (db : Db) → F → Returned (λ _ _. F) r db
    go (ok a) db h = h
    go (err e) db h = tt
