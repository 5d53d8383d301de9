-- ===== src/Server/Keeps.antt =====
-- What a computation over the database keeps, whatever it returns and whatever faults come: rules for
-- the parts of a handler.
use umewarden.Prelude.{ℕ, zero, suc, Bool, true, false, Option, none, some, List, if◌then◌else◌}
use umewarden.Server.Db.{
  Error, Db, Result, ok, err, M, pure, raise, guard, modify, query, continue, require, execute,
  execute-keeps, ◌>>=◌, ◌>>◌,
}
use umewarden.Server.Models.User.{again, retry}

pub record Keeps {A : Type 0} (P : Db → Type 0) (m : M A) : Type 0 where
  pub at : (db : Db) → P db → P (m db).1

module _ {P : Db → Type 0} where
  pub Keeps-pure : {A : Type 0} (a : A) → Keeps P (pure a)
  Keeps-pure a = record { at = λ db h. h }

  pub Keeps-raise : {A : Type 0} (e : Error) → Keeps {A = A} P (raise e)
  Keeps-raise e = record { at = λ db h. h }

  pub Keeps-query : {A : Type 0} (f : Db → A) → Keeps P (query f)
  Keeps-query f = record { at = λ db h. h }

  pub Keeps-require : {A : Type 0} (e : Error) (o : Option A) → Keeps P (require e o)
  Keeps-require e none = record { at = λ db h. h }
  Keeps-require e (some a) = record { at = λ db h. h }

  pub Keeps-guard : (b : Bool) (e : Error) → Keeps P (guard b e)
  Keeps-guard true e = record { at = λ db h. h }
  Keeps-guard false e = record { at = λ db h. h }

  pub Keeps-if :
      {A : Type 0} (b : Bool) {m n : M A} → Keeps P m → Keeps P n → Keeps P (if b then m else n)
  Keeps-if true km kn = km
  Keeps-if false km kn = kn

  pub Keeps-modify : (f : Db → Db) → ((db : Db) → P db → P (f db)) → Keeps P (modify f)
  Keeps-modify f h = record { at = h }

  pub Keeps-bind :
      {A B : Type 0} {m : M A} {f : A → M B}
      → Keeps P m
      → ((a : A) → Keeps P (f a))
      → Keeps P (m >>= f)
  Keeps-bind {A} {B} {m} {f} km kf = record { at = λ db h. go (m db) (km.at db h) }
    where
      go : (x : Result A × Db) → P x.1 → P (continue x.0 f x.1).1
      go (ok a, db) h = (kf a).at db h
      go (err e, db) h = h

  pub Keeps-then :
      {B : Type 0} {m : M (Unit {0})} {n : M B} → Keeps P m → Keeps P n → Keeps P (m >> n)
  Keeps-then km kn = Keeps-bind km (λ _. kn)

  pub Keeps-again : (n : ℕ) {m : M (Unit {0})} → Keeps P m → Keeps P (again n m)
  unfolding again
  Keeps-again zero km = km
  Keeps-again (suc n) {m} km =
      let later = Keeps-again n km in record { at = λ db h. go later db (m db).0 h }
    where
      go :
          Keeps P (again n m)
          → (db : Db) (r : Result (Unit {0})) → P db
          → P
              (elim r as (λ _. Result (Unit {0}) × Db) [
                | ok _ ↦ m db
                | err _ ↦ again n m (m db).1
              ]).1
      go later db (ok _) h = km.at db h
      go later db (err _) h = later.at (m db).1 (km.at db h)

  pub Keeps-retry : (n : ℕ) {m : M (Unit {0})} → Keeps P m → Keeps P (retry m n)
  unfolding retry
  Keeps-retry n km = Keeps-again _ km

  module _ (ignores : (db : Db) (later : List Bool) → P db → P (record db { faults = later })) where
    pub Keeps-execute : (f : Db → Db) → ((db : Db) → P db → P (f db)) → Keeps P (execute f)
    Keeps-execute f h = record { at = λ db p. execute-keeps P ignores f db p (h db p) }
