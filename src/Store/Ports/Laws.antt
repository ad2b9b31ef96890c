-- ===== src/Store/Ports/Laws.antt =====
-- What AllocPort and FreePort of internal/master/store/store.go promise.
use pumpkin_pie.Prelude.{
  ℕ, zero, suc, ◌+◌, ◌-◌, ◌≤◌, ◌<◌, ◌≡◌, refl, sym, ap, subst, ◌∙◌, Bool, true, false, ◌&&◌, String,
  List, [], ◌∷◌, any, keep, map, leb, nat_eq, arith, inl, inr, Bool-cases, Option-cases, Option,
  none, some,
}
use pumpkin_pie.Exec.{Result, ok, err, pure, raise, ◌>>=◌}
use pumpkin_pie.Exec.Inversion.{>>=-ok}
use pumpkin_pie.Store.Tables.{PortRow, Tables, calm, Db, Error, no_free_port}
use pumpkin_pie.Store.Sql.{query, exec, finish}
use pumpkin_pie.Store.Sql.Keeps.{transaction-unchanged}
use pumpkin_pie.Store.Sql.Inversion.{transaction-ok, query-ok, exec-ok}
use pumpkin_pie.Store.Statements.{insert_port_row}
use pumpkin_pie.Store.Ports.{used_ports, first_free, take_port, alloc_port}

-- Some row of `port_alloc` has the port.
unfoldable pub is_held : ℕ → Tables → Bool
unfolding any
is_held port t = any (λ r. nat_eq r.port port) t.port_alloc

used-held :
    (start end p : ℕ) (rows : List PortRow)
    → start ≤ p
    → p ≤ end
    → any (nat_eq p) (map (λ r. r.port) (keep (λ r. leb start r.port && leb r.port end) rows))
      ≡ any (λ r. nat_eq r.port p) rows
unfolding any keep
used-held start end p [] h k = refl
used-held start end p (r ∷ rows) h k = ground (arith, used-held start end p rows h k)

-- The loop stops at the first unused number, or has found all in use.
first_free-some :
    (used : List ℕ) (p rounds got : ℕ)
    → first_free used p rounds ≡ some got
    → (p ≤ got)
      × (got < p + rounds)
      × (any (nat_eq got) used ≡ false)
      × ((q : ℕ) → p ≤ q → q < got → any (nat_eq q) used ≡ true)
unfolding first_free
first_free-some used p zero got h = absurd (cc)
first_free-some used p (suc rounds) got h = elim (Bool-cases (any (nat_eq p) used)) [
  | inl e ↦
      let (low, high, free, below) =
        first_free-some used (p + 1) rounds got (rw (e, first_free) at h) in
      (omega arith, omega arith, free, λ q l k. ground (arith, below q))
  | inr e ↦
      let here : p ≡ got = ground arith in
      (
        omega arith,
        omega arith,
        subst (λ q. any (nat_eq q) used ≡ false) here e,
        λ q l k. absurd (omega arith),
      )
]

first_free-none :
    (used : List ℕ) (p rounds : ℕ)
    → first_free used p rounds ≡ none
    → (q : ℕ) → p ≤ q
    → q < p + rounds
    → any (nat_eq q) used ≡ true
unfolding first_free
first_free-none used p zero h q l k = absurd (omega arith)
first_free-none used p (suc rounds) h q l k = elim (Bool-cases (any (nat_eq p) used)) [
  | inl e ↦
      let below = first_free-none used (p + 1) rounds (rw (e, first_free) at h) q in
      ground (arith, below)
  | inr e ↦ absurd (ground arith)
]

-- A call of AllocPort that fails, at any point, has changed no table.
pub alloc_port-unchanged :
    (start end : ℕ) (container : String) (db : Db) (e : Error)
    → (alloc_port start end container db).0 ≡ err e
    → (alloc_port start end container db).1.tables ≡ db.tables
unfolding alloc_port
alloc_port-unchanged start end container db e h = transaction-unchanged _ db e h

port_row-ok :
    (p : ℕ) (container : String) (t t' : Tables)
    → insert_port_row (record { port = p; container_id = container }) t ≡ ok (tt, t')
    → (is_held p t ≡ false)
      × (t'
          ≡ record t { port_alloc = record { port = p; container_id = container } ∷ t.port_alloc })
unfolding insert_port_row is_held
port_row-ok p container t t' h = ground arith

take_port-ok :
    (start end p : ℕ) (container : String) (found : Option ℕ) (db : Db)
    → (take_port start end container found db).0 ≡ ok p
    → (found ≡ some p)
      × ((take_port start end container found db).1.tables ≡ record db.tables {
        port_alloc = record { port = p; container_id = container } ∷ db.tables.port_alloc;
      })
unfolding take_port raise pure
take_port-ok start end p container none db h = absurd (cc)
take_port-ok start end p container (some q) db h =
    let insert = exec (insert_port_row (record { port = q; container_id = container })) in
    let (u, inserted, e) = >>=-ok insert (λ _. pure q) db p h in
    let same : q ≡ p = cc h in
    let (free, rows) =
      port_row-ok q container db.tables (insert db).1.tables (exec-ok _ db tt inserted) in
    (
      ap some same,
      ap (λ (r : Result Error ℕ × Db). r.1.tables) e
          ∙ rows
          ∙ ap
              (λ (port : ℕ). record db.tables {
                port_alloc =
                    record { port = port; container_id = container } ∷ db.tables.port_alloc;
              })
              same,
    )

-- AllocPort returns the lowest port of the range that no row has: every lower port of the range is
-- held. The port is then recorded for the container, and nothing else has changed.
pub alloc_port-ok :
    (start end p : ℕ) (container : String) (db : Db)
    → (alloc_port start end container db).0 ≡ ok p
    → (start ≤ p)
      × (p ≤ end)
      × (is_held p db.tables ≡ false)
      × ((q : ℕ) → start ≤ q → q < p → is_held q db.tables ≡ true)
      × ((alloc_port start end container db).1.tables ≡ record db.tables {
        port_alloc = record { port = p; container_id = container } ∷ db.tables.port_alloc;
      })
unfolding alloc_port is_held used_ports
alloc_port-ok start end p container db h =
    let read = query (used_ports start end) in
    let body =
      λ (used : List ℕ). take_port start end container (first_free used start (end + 1 - start)) in
    let (begun, same, ran, left) = transaction-ok (read >>= body) db p h in
    let (used, answered, e) = >>=-ok read body begun p ran in
    let (columns, kept) = query-ok (used_ports start end) begun used answered in
    let ran' : (body used (read begun).1).0 ≡ ok p =
      ap (λ (r : Result Error ℕ × Db). r.0) (sym e) ∙ ran in
    let (found, rows) =
      take_port-ok start end p container (first_free used start (end + 1 - start)) (read begun).1
        ran' in
    let (low, high, free, below) = first_free-some used start (end + 1 - start) p found in
    let column : used_ports start end db.tables ≡ used =
      ap (used_ports start end) (sym same) ∙ columns in
    let in_range : p ≤ end = omega arith in
    (
      low,
      in_range,
      sym (used-held start end p db.tables.port_alloc low in_range) ∙ rw column free,
      λ q l k.
          sym (used-held start end q db.tables.port_alloc l (omega arith))
          ∙ rw column (below q l k),
      left
          ∙ ap (λ (r : Result Error ℕ × Db). r.1.tables) e
          ∙ rows
          ∙ ap
              (λ (t : Tables). record t {
                port_alloc = record { port = p; container_id = container } ∷ t.port_alloc;
              })
              (kept ∙ same),
    )

take_port-free :
    (start end p : ℕ) (container : String) (t : Tables)
    → is_held p t ≡ false
    → (finish t (take_port start end container (some p) (calm t))).0 ≡ ok p
unfolding take_port finish is_held
take_port-free start end p container t free = rw (free, take_port, insert_port_row)

-- Where the driver fails nothing, AllocPort finds a port if any of the range is free.
pub alloc_port-total :
    (start end q : ℕ) (container : String) (t : Tables)
    → start ≤ q
    → q ≤ end
    → is_held q t ≡ false
    → (p : ℕ) × ((alloc_port start end container (calm t)).0 ≡ ok p)
unfolding alloc_port used_ports is_held
alloc_port-total start end q container t l k free =
    let used = used_ports start end t in
    let rounds = end + 1 - start in
    elim (Option-cases (first_free used start rounds)) [
      | inl e ↦
          let unused = used-held start end q t.port_alloc l k in
          let taken = first_free-none used start rounds e q l (omega arith) in
          absurd (ground (arith, unused, taken))
      | inr (p, e) ↦
          let (low, high, unused, below) = first_free-some used start rounds p e in
          let in_range : p ≤ end = omega arith in
          (
            p,
            rw e (
                take_port-free start end p container t
                  (sym (used-held start end p t.port_alloc low in_range) ∙ unused)),
          )
    ]

-- Where the driver fails nothing and every port of the range is held, the call says so and has
-- changed nothing.
pub alloc_port-exhausted :
    (start end : ℕ) (container : String) (t : Tables)
    → ((q : ℕ) → start ≤ q → q ≤ end → is_held q t ≡ true)
    → alloc_port start end container (calm t) ≡ (err (no_free_port start end), calm t)
unfolding alloc_port used_ports is_held take_port raise
alloc_port-exhausted start end container t all =
    let used = used_ports start end t in
    let rounds = end + 1 - start in
    elim (Option-cases (first_free used start rounds)) [
      | inl e ↦ rw e
      | inr (p, e) ↦
          let (low, high, unused, below) = first_free-some used start rounds p e in
          let in_range : p ≤ end = omega arith in
          let held = used-held start end p t.port_alloc low in_range in
          absurd (ground (arith, held, unused, all p))
    ]
