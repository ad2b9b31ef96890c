-- ===== src/Store/Sql/Keeps.antt =====
-- Invariants of the tables under statements, queries and transactions, whatever the driver fails.
use pumpkin_pie.Prelude.{◌≡◌, refl, sym, subst, ◌∙◌, String, Option, none, some, List, [], ◌∷◌}
use pumpkin_pie.Exec.{Result, ok, err}
use pumpkin_pie.Exec.Keeps.{Keeps}
use pumpkin_pie.Store.Tables.{Tables, Db, Error}
use pumpkin_pie.Store.Sql.{
  Sql, Statement, next_fault, settle, attempt, exec, query, commit, finish, begin, transaction,
}

-- A property of the tables, said of the database.
abbrev pub Holds : (Tables → Type 0) → Db → Type 0
Holds P db = P db.tables

abbrev pub After : {A : Type 0} → (Tables → Type 0) → Result Error (A × Tables) → Type 0
After P (ok (a, t)) = P t
After P (err e) = Unit

-- A statement that takes effect leaves tables with `P`.
pub record Preserves {A : Type 0} (P : Tables → Type 0) (statement : Statement A) : Type 0 where
  pub at : (t : Tables) → P t → After P (statement t)

pub next_fault-tables : (db : Db) → (next_fault db).1.tables ≡ db.tables
unfolding next_fault
next_fault-tables db = at_faults db.faults refl
  where
    at_faults : (fs : List (Option String)) → db.faults ≡ fs → (next_fault db).1.tables ≡ db.tables
    at_faults [] e = rw (e, next_fault)
    at_faults (f ∷ fs) e = rw (e, next_fault)

module _ {A : Type 0} (P : Tables → Type 0) where
  settle-Holds :
      (r : Result Error (A × Tables)) (db : Db) → After P r → P db.tables → P (settle r db).1.tables
  unfolding settle
  settle-Holds (ok (a, t)) db h k = h
  settle-Holds (err e) db h k = k

  attempt-Holds :
      (fault : Option String) (statement : Statement A) (db : Db)
      → Preserves P statement
      → P db.tables
      → P (attempt fault statement db).1.tables
  unfolding attempt
  attempt-Holds (some message) statement db p h = h
  attempt-Holds none statement db p h = settle-Holds (statement db.tables) db (p.at db.tables h) h

  pub exec-Keeps :
      (statement : Statement A) → Preserves P statement → Keeps (Holds P) (exec statement)
  unfolding exec
  exec-Keeps statement p = record {
    at = λ db h.
        let (fault, db') = next_fault db in
        attempt-Holds fault statement db' p (subst P (sym (next_fault-tables db)) h);
  }

  pub query-Keeps : (f : Tables → A) → Keeps (Holds P) (query f)
  unfolding query
  query-Keeps f = exec-Keeps (λ t. ok (f t, t)) (record { at = λ t h. h })

  commit-Holds :
      (fault : Option String) (a : A) (before : Tables) (db : Db)
      → P before
      → P db.tables
      → P (commit fault a before db).1.tables
  unfolding commit
  commit-Holds (some message) a before db h k = h
  commit-Holds none a before db h k = k

  finish-Holds :
      (before : Tables) (r : Result Error A) (db : Db)
      → P before
      → P db.tables
      → P (finish before (r, db)).1.tables
  unfolding finish
  finish-Holds before (ok a) db h k =
      let (fault, db') = next_fault db in
      commit-Holds fault a before db' h (subst P (sym (next_fault-tables db)) k)
  finish-Holds before (err e) db h k = h

  begin-Holds :
      (fault : Option String) (body : Sql A) (db : Db)
      → Keeps (Holds P) body
      → P db.tables
      → P (begin fault body db).1.tables
  unfolding begin
  begin-Holds (some message) body db p h = h
  begin-Holds none body db p h =
      let (r, db') = body db in finish-Holds db.tables r db' h (p.at db h)

  -- A transaction keeps what its body keeps.
  pub transaction-Keeps : (body : Sql A) → Keeps (Holds P) body → Keeps (Holds P) (transaction body)
  unfolding transaction
  transaction-Keeps body p = record {
    at = λ db h.
        let (fault, db') = next_fault db in
        begin-Holds fault body db' p (subst P (sym (next_fault-tables db)) h);
  }

module _ {A : Type 0} where
  attempt-unchanged :
      (fault : Option String) (statement : Statement A) (db : Db) (e : Error)
      → (attempt fault statement db).0 ≡ err e
      → (attempt fault statement db).1.tables ≡ db.tables
  unfolding attempt
  attempt-unchanged (some message) statement db e h = refl
  attempt-unchanged none statement db e h = settled (statement db.tables) h
    where
      settled :
          (r : Result Error (A × Tables))
          → (settle r db).0 ≡ err e
          → (settle r db).1.tables ≡ db.tables
      settled (ok (a, t)) h = cc
      settled (err e') h = refl

  -- A statement that fails has changed nothing.
  pub exec-unchanged :
      (statement : Statement A) (db : Db) (e : Error)
      → (exec statement db).0 ≡ err e
      → (exec statement db).1.tables ≡ db.tables
  unfolding exec
  exec-unchanged statement db e h =
      let (fault, db') = next_fault db in
      attempt-unchanged fault statement db' e h ∙ next_fault-tables db

  finish-unchanged :
      (before : Tables) (r : Result Error A) (db : Db) (e : Error)
      → (finish before (r, db)).0 ≡ err e
      → (finish before (r, db)).1.tables ≡ before
  unfolding finish
  finish-unchanged before (ok a) db e h = let (fault, db') = next_fault db in committed fault db' h
    where
      committed :
          (fault : Option String) (db' : Db)
          → (commit fault a before db').0 ≡ err e
          → (commit fault a before db').1.tables ≡ before
      committed (some message) db' h = refl
      committed none db' h = cc
  finish-unchanged before (err e') db e h = refl

  begin-unchanged :
      (fault : Option String) (body : Sql A) (db : Db) (e : Error)
      → (begin fault body db).0 ≡ err e
      → (begin fault body db).1.tables ≡ db.tables
  unfolding begin
  begin-unchanged (some message) body db e h = refl
  begin-unchanged none body db e h = let (r, db') = body db in finish-unchanged db.tables r db' e h

  -- A transaction that fails, in its body or in BEGIN or COMMIT, has changed nothing.
  pub transaction-unchanged :
      (body : Sql A) (db : Db) (e : Error)
      → (transaction body db).0 ≡ err e
      → (transaction body db).1.tables ≡ db.tables
  unfolding transaction
  transaction-unchanged body db e h =
      let (fault, db') = next_fault db in begin-unchanged fault body db' e h ∙ next_fault-tables db
