-- ===== src/Store/Ledger/Kept.antt =====
-- Operations of internal/master/store/store.go that leave `gpu_alloc` alone.
use pumpkin_pie.Prelude.{
  ℕ, nat_eq, ◌≡◌, refl, ◌∙◌, inl, inr, Bool-cases, String, Option, none, some, List, any,
}
use pumpkin_pie.Exec.{ok}
use pumpkin_pie.Exec.Keeps.{Keeps, Keeps-bind, Keeps-pure, Keeps-raise}
use pumpkin_pie.Store.Tables.{Node, Container, PortRow, GpuRow, Tables, Db}
use pumpkin_pie.Store.Sql.{exec}
use pumpkin_pie.Store.Sql.Keeps.{Holds, Preserves, exec-Keeps, query-Keeps, transaction-Keeps}
use pumpkin_pie.Store.Statements.{
  has_node, has_container, machine_clash, upsert_row, insert_container_row, insert_port_row,
}
use pumpkin_pie.Store.Ports.{used_ports, take_port, alloc_port}

-- Calls that leave `gpu_alloc` alone.
module _ (rows : List GpuRow) where
  abbrev pub Same : Tables → Type 0
  Same t = t.gpu_alloc ≡ rows

  pub upsert_row-Same : (n : Node) → Preserves Same (upsert_row n)
  unfolding upsert_row
  upsert_row-Same n = record {
    at = λ t same. elim (Bool-cases (machine_clash n t)) [
      | inl clash ↦ rw (clash, upsert_row) tt
      | inr free ↦ elim (Bool-cases (has_node n.id t)) [
        | inl known ↦ rw (free, known, upsert_row) same
        | inr new ↦ rw (free, new, upsert_row) same
      ]
    ];
  }

  pub insert_container_row-Same : (c : Container) → Preserves Same (insert_container_row c)
  unfolding insert_container_row
  insert_container_row-Same c = record {
    at = λ t same. elim (Bool-cases (has_container c.id t)) [
      | inl known ↦ rw (known, insert_container_row) tt
      | inr new ↦ elim (Bool-cases (has_node c.node_id t)) [
        | inl placed ↦ rw (new, placed, insert_container_row) same
        | inr lost ↦ rw (new, lost, insert_container_row) tt
      ]
    ];
  }

  insert_port_row-Same : (r : PortRow) → Preserves Same (insert_port_row r)
  unfolding insert_port_row
  insert_port_row-Same r = record {
    at = λ t same. elim (Bool-cases (any (λ q. nat_eq q.port r.port) t.port_alloc)) [
      | inl used ↦ rw (used, insert_port_row) tt
      | inr free ↦ rw (free, insert_port_row) same
    ];
  }

  take_port-Same :
      (start end : ℕ) (container : String) (found : Option ℕ)
      → Keeps (Holds Same) (take_port start end container found)
  unfolding take_port
  take_port-Same start end container none = Keeps-raise _
  take_port-Same start end container (some p) =
      Keeps-bind _ _ (exec-Keeps Same _ (insert_port_row-Same _)) (λ _. Keeps-pure p)

  pub alloc_port-Same :
      (start end : ℕ) (container : String) → Keeps (Holds Same) (alloc_port start end container)
  unfolding alloc_port
  alloc_port-Same start end container = transaction-Keeps Same _ (
      Keeps-bind _ _ (query-Keeps Same (used_ports start end))
        (λ used. take_port-Same start end container _))

-- A statement that always succeeds, and does not name the table.
pub exec-kept :
    (f : Tables → Tables)
    → ((t : Tables) → (f t).gpu_alloc ≡ t.gpu_alloc)
    → (db : Db) → (exec (λ t. ok (tt {0}, f t)) db).1.tables.gpu_alloc ≡ db.tables.gpu_alloc
exec-kept f same db =
    (exec-Keeps (Same db.tables.gpu_alloc) _ (record { at = λ t h. same t ∙ h })).at db refl
