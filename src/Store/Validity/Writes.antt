-- ===== src/Store/Validity/Writes.antt =====
-- Inserts, deletes and the upsert keep the constraints: what would break one is refused.
use pumpkin_pie.Prelude.{
  ◌≡◌, ◌∙◌, Bool, true, false, not, ◌||◌, String, ◌==◌, ◌∷◌, nat_eq, any, keep, arith, eq_iff, ◌⊎◌,
  inl, inr, Bool-cases,
}
use pumpkin_pie.Prelude.Rows.{Distinct-keep, any-keep, All-mono, All-keep_test}
use pumpkin_pie.Store.Tables.{Container, GpuRow, PortRow, Tables}
use pumpkin_pie.Store.Statements.{
  has_node, has_container, is_slot, insert_container_row, delete_container_row, insert_gpu_row,
  insert_port_row,
}
use pumpkin_pie.Store.Sql.Keeps.{Preserves, After}
use pumpkin_pie.Store.Validity.{IsValid, same_container, same_slot, same_port}

pub insert_port_row-IsValid : (r : PortRow) → Preserves IsValid (insert_port_row r)
unfolding insert_port_row has_node has_container
insert_port_row-IsValid r = record {
  at = λ t v. elim (Bool-cases (any (λ q. nat_eq q.port r.port) t.port_alloc)) [
    | inl e ↦ rw (e, insert_port_row) tt
    | inr e ↦
        rw (e, insert_port_row)
          (record {
            node_ids = v.node_ids;
            machines = v.machines;
            container_ids = v.container_ids;
            slots = v.slots;
            ports = (e, v.ports);
            placed = v.placed;
            held = v.held;
          })
  ];
}

gpu_row-IsValid :
    (r : GpuRow) (t : Tables)
    → IsValid t
    → any (is_slot r.node_id r.gpu_index) t.gpu_alloc ≡ false
    → has_container r.container_id t ≡ true
    → has_node r.node_id t ≡ true
    → IsValid (record t { gpu_alloc = r ∷ t.gpu_alloc })
unfolding has_node has_container
gpu_row-IsValid r t v free c n = record {
  node_ids = v.node_ids;
  machines = v.machines;
  container_ids = v.container_ids;
  slots = (free, v.slots);
  ports = v.ports;
  placed = v.placed;
  held = ((c, n), v.held);
}

pub insert_gpu_row-IsValid : (r : GpuRow) → Preserves IsValid (insert_gpu_row r)
unfolding insert_gpu_row
insert_gpu_row-IsValid r = record {
  at = λ t v. elim (Bool-cases (any (is_slot r.node_id r.gpu_index) t.gpu_alloc)) [
    | inl e ↦ rw (e, insert_gpu_row) tt
    | inr e ↦
        checked t v e (Bool-cases (has_container r.container_id t))
          (Bool-cases (has_node r.node_id t))
  ];
}
  where
    checked :
        (t : Tables)
        → IsValid t
        → any (is_slot r.node_id r.gpu_index) t.gpu_alloc ≡ false
        → (has_container r.container_id t ≡ true) ⊎ (has_container r.container_id t ≡ false)
        → (has_node r.node_id t ≡ true) ⊎ (has_node r.node_id t ≡ false)
        → After IsValid (insert_gpu_row r t)
    checked t v e (inl c) (inl n) = rw (e, insert_gpu_row) (rw (c, n) (gpu_row-IsValid r t v e c n))
    checked t v e (inl c) (inr n) = rw (e, insert_gpu_row) (rw (c, n) tt)
    checked t v e (inr c) n = rw (e, insert_gpu_row) (rw c tt)

container_row-IsValid :
    (c : Container) (t : Tables)
    → IsValid t
    → has_container c.id t ≡ false
    → has_node c.node_id t ≡ true
    → IsValid (record t { containers = c ∷ t.containers })
unfolding has_node has_container any
container_row-IsValid c t v free n = record {
  node_ids = v.node_ids;
  machines = v.machines;
  container_ids = (free, v.container_ids);
  slots = v.slots;
  ports = v.ports;
  placed = (n, v.placed);
  held = All-mono _ _ t.gpu_alloc (λ r h. (or_right (c.id == r.container_id) h.0, h.1)) v.held;
}
  where
    or_right : (b : Bool) {b' : Bool} → b' ≡ true → (b || b') ≡ true
    or_right b h = ground arith

pub insert_container_row-IsValid : (c : Container) → Preserves IsValid (insert_container_row c)
unfolding insert_container_row
insert_container_row-IsValid c = record {
  at = λ t v. checked t v (Bool-cases (has_container c.id t)) (Bool-cases (has_node c.node_id t));
}
  where
    checked :
        (t : Tables)
        → IsValid t
        → (has_container c.id t ≡ true) ⊎ (has_container c.id t ≡ false)
        → (has_node c.node_id t ≡ true) ⊎ (has_node c.node_id t ≡ false)
        → After IsValid (insert_container_row c t)
    checked t v (inl e) n = rw (e, insert_container_row) tt
    checked t v (inr e) (inl n) = rw (e, n, insert_container_row) (container_row-IsValid c t v e n)
    checked t v (inr e) (inr n) = rw (e, n, insert_container_row) tt

-- A foreign key to another container outlives a deletion.
has_container-keep :
    (id other : String) (t : Tables)
    → (other == id) ≡ false
    → any (λ c. c.id == other) (keep (λ c. not (c.id == id)) t.containers)
      ≡ any (λ c. c.id == other) t.containers
has_container-keep id other t ne =
    any-keep _ _ t.containers
      (λ c h. ground (arith, eq_iff c.id other, eq_iff c.id id, eq_iff other id))

pub delete_container_row-IsValid : (id : String) → Preserves IsValid (delete_container_row id)
unfolding delete_container_row has_node has_container
delete_container_row-IsValid id = record {
  at = λ t v. record {
    node_ids = v.node_ids;
    machines = v.machines;
    container_ids = Distinct-keep same_container _ t.containers v.container_ids;
    slots = Distinct-keep same_slot _ t.gpu_alloc v.slots;
    ports = v.ports;
    placed = All-keep_test _ _ _ t.containers (λ c e h. h) v.placed;
    held =
        All-keep_test _ _ _ t.gpu_alloc
          (λ r e h. (has_container-keep id r.container_id t (ground arith) ∙ h.0, h.1)) v.held;
  };
}

pub free_gpu_rows-IsValid :
    (p : GpuRow → Bool) (t : Tables)
    → IsValid t
    → IsValid (record t { gpu_alloc = keep p t.gpu_alloc })
unfolding has_node has_container
free_gpu_rows-IsValid p t v = record {
  node_ids = v.node_ids;
  machines = v.machines;
  container_ids = v.container_ids;
  slots = Distinct-keep same_slot p t.gpu_alloc v.slots;
  ports = v.ports;
  placed = v.placed;
  held = All-keep_test _ _ p t.gpu_alloc (λ r e h. h) v.held;
}

pub free_port_rows-IsValid :
    (p : PortRow → Bool) (t : Tables)
    → IsValid t
    → IsValid (record t { port_alloc = keep p t.port_alloc })
unfolding has_node has_container
free_port_rows-IsValid p t v = record {
  node_ids = v.node_ids;
  machines = v.machines;
  container_ids = v.container_ids;
  slots = v.slots;
  ports = Distinct-keep same_port p t.port_alloc v.ports;
  placed = v.placed;
  held = v.held;
}
