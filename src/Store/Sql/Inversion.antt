-- ===== src/Store/Sql/Inversion.antt =====
-- What a successful statement or transaction says, and what they do where the driver fails nothing.
use pumpkin_pie.Prelude.{◌≡◌, refl, sym, ◌∙◌, ap, String, Option, none, some}
use pumpkin_pie.Exec.{Result, ok, err}
use pumpkin_pie.Store.Tables.{Tables, Db, Error}
use pumpkin_pie.Store.Sql.{
  Sql, Statement, next_fault, settle, attempt, exec, query, commit, finish, begin, transaction,
}
use pumpkin_pie.Store.Sql.Keeps.{next_fault-tables}

module _ {A : Type 0} where
  settle-ok :
      (r : Result Error (A × Tables)) (db : Db) (a : A)
      → (settle r db).0 ≡ ok a
      → r ≡ ok (a, (settle r db).1.tables)
  unfolding settle
  settle-ok (ok (b, t)) db a h = cc
  settle-ok (err e) db a h = cc

  attempt-ok :
      (fault : Option String) (statement : Statement A) (db : Db) (a : A)
      → (attempt fault statement db).0 ≡ ok a
      → statement db.tables ≡ ok (a, (attempt fault statement db).1.tables)
  unfolding attempt
  attempt-ok (some message) statement db a h = cc
  attempt-ok none statement db a h = settle-ok (statement db.tables) db a h

  -- A statement that returns has taken effect.
  pub exec-ok :
      (statement : Statement A) (db : Db) (a : A)
      → (exec statement db).0 ≡ ok a
      → statement db.tables ≡ ok (a, (exec statement db).1.tables)
  unfolding exec
  exec-ok statement db a h =
      let (fault, db') = next_fault db in
      ap statement (sym (next_fault-tables db)) ∙ attempt-ok fault statement db' a h

  pub query-ok :
      (f : Tables → A) (db : Db) (a : A)
      → (query f db).0 ≡ ok a
      → (f db.tables ≡ a) × ((query f db).1.tables ≡ db.tables)
  unfolding query
  query-ok f db a h = let e = exec-ok (λ t. ok (f t, t)) db a h in (cc e, cc e)

  commit-ok :
      (fault : Option String) (b a : A) (before : Tables) (db : Db)
      → (commit fault b before db).0 ≡ ok a
      → (b ≡ a) × ((commit fault b before db).1.tables ≡ db.tables)
  unfolding commit
  commit-ok (some message) b a before db h = absurd (cc)
  commit-ok none b a before db h = (cc, refl)

  finish-ok :
      (before : Tables) (r : Result Error A) (db : Db) (a : A)
      → (finish before (r, db)).0 ≡ ok a
      → (r ≡ ok a) × ((finish before (r, db)).1.tables ≡ db.tables)
  unfolding finish
  finish-ok before (ok b) db a h =
      let (fault, db') = next_fault db in
      let (same, kept) = commit-ok fault b a before db' h in
      (ap ok same, kept ∙ next_fault-tables db)
  finish-ok before (err e) db a h = absurd (cc)

  abbrev pub Ran : Sql A → Db → A → Tables → Type 0
  Ran body db a after =
      (start : Db) × (start.tables ≡ db.tables)
      × ((body start).0 ≡ ok a)
      × (after ≡ (body start).1.tables)

  begin-ok :
      (fault : Option String) (body : Sql A) (db : Db) (a : A)
      → (begin fault body db).0 ≡ ok a
      → ((body db).0 ≡ ok a) × ((begin fault body db).1.tables ≡ (body db).1.tables)
  unfolding begin
  begin-ok (some message) body db a h = absurd (cc)
  begin-ok none body db a h = let (r, db') = body db in finish-ok db.tables r db' a h

  -- A transaction that returns has run its body on these tables, and leaves what that left.
  pub transaction-ok :
      (body : Sql A) (db : Db) (a : A)
      → (transaction body db).0 ≡ ok a
      → Ran body db a (transaction body db).1.tables
  unfolding transaction
  transaction-ok body db a h =
      let (fault, db') = next_fault db in
      let (ran, left) = begin-ok fault body db' a h in (db', next_fault-tables db, ran, left)
