-- ===== src/Store/Sql.antt =====
-- What internal/master/store/store.go asks of SQLite: a statement that fails or takes effect, and
-- transactions that roll back.
pub mod Keeps
pub mod Inversion
use text.Mathlib.Text.{find?}
use pumpkin_pie.Prelude.{String, Bool, true, false, ◌||◌, Option, none, some, [], ◌∷◌}
use pumpkin_pie.Exec.{Result, ok, err, Exec}
use pumpkin_pie.Store.Tables.{
  Tables, Db, Error, no_rows, driver, insufficient_gpus, gpu_taken, no_free_port,
}

abbrev pub Sql : Type 0 → Type 0
Sql A = Exec Db Error A

-- The next entry of the oracle, and the database after it.
unfoldable pub next_fault : Db → Option String × Db
next_fault db = elim db.faults [ [] ↦ (none, db) | f ∷ fs ↦ (f, record db { faults = fs }) ]

-- What a statement does to the tables, if the driver does not fail it.
abbrev pub Statement : Type 0 → Type 0
Statement A = Tables → Result Error (A × Tables)

unfoldable pub settle : {A : Type 0} → Result Error (A × Tables) → Db → Result Error A × Db
settle (ok (a, t)) db = (ok a, record db { tables = t })
settle (err e) db = (err e, db)

unfoldable pub attempt : {A : Type 0} → Option String → Statement A → Sql A
unfolding settle
attempt (some message) statement db = (err (driver message), db)
attempt none statement db = settle (statement db.tables) db

-- One statement, outside a transaction or inside one.
unfoldable pub exec : {A : Type 0} → Statement A → Sql A
unfolding next_fault attempt
exec statement db = let (fault, db') = next_fault db in attempt fault statement db'

-- A query: it reads the tables, and changes nothing.
unfoldable pub query : {A : Type 0} → (Tables → A) → Sql A
unfolding exec
query f = exec (λ t. ok (f t, t))

-- COMMIT, over the tables to go back to where it fails.
unfoldable pub commit : {A : Type 0} → Option String → A → Tables → Db → Result Error A × Db
commit (some message) a before db = (err (driver message), record db { tables = before })
commit none a before db = (ok a, db)

-- The end of a transaction: Commit, or the deferred Rollback where the body failed.
unfoldable pub finish : {A : Type 0} → Tables → Result Error A × Db → Result Error A × Db
unfolding commit next_fault
finish before (ok a, db) = let (fault, db') = next_fault db in commit fault a before db'
finish before (err e, db) = (err e, record db { tables = before })

unfoldable pub begin : {A : Type 0} → Option String → Sql A → Sql A
unfolding finish
begin (some message) body db = (err (driver message), db)
begin none body db = finish db.tables (body db)

-- BeginTx, a body, and Commit or Rollback.
unfoldable pub transaction : {A : Type 0} → Sql A → Sql A
unfolding next_fault begin
transaction body db = let (fault, db') = next_fault db in begin fault body db'

is_some {ℓ} : {A : Type ℓ} → Option A → Bool
is_some none = false
is_some (some a) = true

-- isUniqueViolation
unfoldable pub is_unique_violation : Error → Bool
unfolding is_some
is_unique_violation (driver message) =
    is_some (find? message "UNIQUE constraint failed")
    || is_some (find? message "constraint failed: UNIQUE")
is_unique_violation no_rows = false
is_unique_violation (insufficient_gpus requested free total) = false
is_unique_violation (gpu_taken index node) = false
is_unique_violation (no_free_port start end) = false
