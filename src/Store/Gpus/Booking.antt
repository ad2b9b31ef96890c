-- ===== src/Store/Gpus/Booking.antt =====
-- The INSERT loops of AllocGPUs and AllocSpecificGPUs (internal/master/store/store.go): what they
-- leave where they finish, and when they finish.
use pumpkin_pie.Prelude.{
  ℕ, ◌≡◌, refl, sym, ap, subst, ◌∙◌, ◌≢◌, true, false, String, List, [], ◌∷◌, any, nat_eq, arith,
  eq_refl,
}
use pumpkin_pie.Exec.{Result, ok, err, pure}
use pumpkin_pie.Exec.Inversion.{>>=-ok}
use pumpkin_pie.Store.Tables.{GpuRow, Tables, Db, Time, Error}
use pumpkin_pie.Store.Sql.{exec}
use pumpkin_pie.Store.Sql.Inversion.{exec-ok}
use pumpkin_pie.Store.Statements.{has_node, has_container, is_slot, insert_gpu_row}
use pumpkin_pie.Store.Gpus.{gpu_row, map_error, taken_or, reserve_one, reserve}

module _ (now : Time) (node container : String) where
  -- The rows after a reservation of the indices.
  unfoldable pub book : List ℕ → List GpuRow → List GpuRow
  unfolding gpu_row
  book [] rows = rows
  book (i ∷ is) rows = book is (gpu_row now node container i ∷ rows)

  abbrev pub booked : List ℕ → Tables → Tables
  booked is t = record t { gpu_alloc = book is t.gpu_alloc }

  -- The indices are free on the node, and no index comes twice.
  abbrev pub IsBookable : List ℕ → Tables → Type 0
  IsBookable [] t = Unit
  IsBookable (i ∷ is) t =
      (any (is_slot node i) t.gpu_alloc ≡ false) × (any (nat_eq i) is ≡ false) × IsBookable is t

module _ (now : Time) (node container : String) where
  -- A row that is inserted was free, and its container and node are there.
  row-ok :
      (i : ℕ) (t t' : Tables)
      → insert_gpu_row (gpu_row now node container i) t ≡ ok (tt, t')
      → (any (is_slot node i) t.gpu_alloc ≡ false)
        × (has_container container t ≡ true)
        × (has_node node t ≡ true)
        × (t' ≡ record t { gpu_alloc = gpu_row now node container i ∷ t.gpu_alloc })
  unfolding insert_gpu_row gpu_row
  row-ok i t t' h = ground arith

  map_error-ok :
      (f : Error → Error) (r : Result Error Unit) (db : Db)
      → (map_error f (r, db)).0 ≡ ok tt
      → (r ≡ ok tt) × ((map_error f (r, db)).1 ≡ db)
  unfolding map_error
  map_error-ok f (ok tt) db h = (refl, refl)
  map_error-ok f (err e) db h = absurd (cc)

  reserve_one-ok :
      (i : ℕ) (db : Db)
      → (reserve_one now node container i db).0 ≡ ok tt
      → insert_gpu_row (gpu_row now node container i) db.tables
        ≡ ok (tt, (reserve_one now node container i db).1.tables)
  unfolding reserve_one
  reserve_one-ok i db h =
      let statement = insert_gpu_row (gpu_row now node container i) in
      let (returned, same) =
        map_error-ok (taken_or node i) (exec statement db).0 (exec statement db).1 h in
      exec-ok statement db tt returned ∙ ap (λ (d : Db). ok (tt, d.tables)) (sym same)

  -- What a finished loop says: the indices were bookable, the container and the node are there,
  -- and the rows are booked.
  pub record Reserved (is : List ℕ) (t t' : Tables) : Type 0 where
    pub bookable : IsBookable now node container is t
    pub holder : is ≢ [] → (has_container container t ≡ true) × (has_node node t ≡ true)
    pub rows : t' ≡ booked now node container is t

  IsBookable-cons :
      (i : ℕ) (is : List ℕ) (t : Tables)
      → any (is_slot node i) t.gpu_alloc ≡ false
      → IsBookable now node container is
          (record t { gpu_alloc = gpu_row now node container i ∷ t.gpu_alloc })
      → (any (nat_eq i) is ≡ false) × IsBookable now node container is t
  unfolding any is_slot gpu_row
  IsBookable-cons i [] t free b = (refl, tt)
  IsBookable-cons i (j ∷ is) t free b =
      ground (arith, eq_refl node, IsBookable-cons i is t free b.2)

  Reserved-cons :
      (i : ℕ) (is : List ℕ) (t t' t'' : Tables)
      → insert_gpu_row (gpu_row now node container i) t ≡ ok (tt, t')
      → Reserved is t' t''
      → Reserved (i ∷ is) t t''
  unfolding book
  Reserved-cons i is t t' t'' h r =
      let (free, c, n, e) = row-ok i t t' h in
      let (fresh, rest) =
        IsBookable-cons i is t free (subst (IsBookable now node container is) e r.bookable) in
      record {
        bookable = (free, fresh, rest);
        holder = λ _. (c, n);
        rows = r.rows ∙ ap (booked now node container is) e;
      }

  -- A loop that finishes has booked the indices.
  pub reserve-Reserved :
      (is : List ℕ) (db : Db)
      → (reserve now node container is db).0 ≡ ok tt
      → Reserved is db.tables (reserve now node container is db).1.tables
  unfolding reserve book pure
  reserve-Reserved [] db h = record { bookable = tt; holder = λ ne. absurd (ne refl); rows = refl }
  reserve-Reserved (i ∷ is) db h =
      let one = reserve_one now node container i in
      let rest = reserve now node container is in
      let (u, first, e) = >>=-ok one (λ _. rest) db tt h in
      let db' = (one db).1 in
      subst (λ (p : Result Error Unit × Db). Reserved (i ∷ is) db.tables p.1.tables) (sym e)
        (Reserved-cons i is db.tables db'.tables (rest db').1.tables (reserve_one-ok i db first)
          (reserve-Reserved is db' (sym (ap (λ (p : Result Error Unit × Db). p.0) e) ∙ h)))
