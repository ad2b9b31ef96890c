-- ===== src/Store/Validity/Registered.antt =====
-- Nodes are never deleted: a node that has a row keeps it, whatever the store does.
use pumpkin_pie.Prelude.{
  ◌≡◌, refl, ◌∙◌, true, String, ◌==◌, change, any, arith, eq_iff, inl, inr, Bool-cases, ◌⊎◌, false,
  Bool, ◌&&◌, nat_eq, subst,
}
use pumpkin_pie.Prelude.Rows.{any-change}
use pumpkin_pie.Exec.{ok}
use pumpkin_pie.Store.Tables.{Node, Tables, Db, Time}
use pumpkin_pie.Store.Sql.Keeps.{After}
use pumpkin_pie.Store.Sql.Inversion.{exec-ok}
use pumpkin_pie.Store.Statements.{
  has_node, has_container, is_slot, machine_clash, new_row, refresh_row, upsert_row,
  insert_container_row, insert_gpu_row, insert_port_row, delete_container_row,
}
use pumpkin_pie.Store.Nodes.{registered, upsert_node}
use pumpkin_pie.Store.Lasting.{Lasting}

abbrev pub IsRegistered : String → Tables → Type 0
IsRegistered id t = has_node id t ≡ true

change_nodes-IsRegistered :
    (id : String) (p : Node → Bool) (f : Node → Node)
    → ((n : Node) → (f n).id ≡ n.id)
    → (t : Tables) → IsRegistered id t
    → IsRegistered id (record t { nodes = change p f t.nodes })
unfolding has_node
change_nodes-IsRegistered id p f ids t h =
    any-change (λ n. n.id == id) p f t.nodes (λ n _. rw (ids n)) ∙ h

checked_upsert :
    (id : String) (n : Node) (t : Tables)
    → (machine_clash n t ≡ true) ⊎ (machine_clash n t ≡ false)
    → (has_node n.id t ≡ true) ⊎ (has_node n.id t ≡ false)
    → (n.id ≡ id) ⊎ IsRegistered id t
    → After (IsRegistered id) (upsert_row n t)
unfolding upsert_row has_node new_row refresh_row any
checked_upsert id n t (inl c) e k = rw c tt
checked_upsert id n t (inr c) (inl e) (inl same) =
    rw (c, e)
      (change_nodes-IsRegistered id (λ m. m.id == n.id) (refresh_row n) (λ m. refl) t
        (rw (← same) e))
checked_upsert id n t (inr c) (inl e) (inr k) =
    rw (c, e) (change_nodes-IsRegistered id (λ m. m.id == n.id) (refresh_row n) (λ m. refl) t k)
checked_upsert id n t (inr c) (inr e) (inl same) = rw (c, e) (ground (arith, eq_iff n.id id))
checked_upsert id n t (inr c) (inr e) (inr k) = rw (c, e) (ground arith)

upsert_row-IsRegistered :
    (id : String) (n : Node) (t : Tables)
    → (n.id ≡ id) ⊎ IsRegistered id t
    → After (IsRegistered id) (upsert_row n t)
upsert_row-IsRegistered id n t k =
    checked_upsert id n t (Bool-cases (machine_clash n t)) (Bool-cases (has_node n.id t)) k

pub IsRegistered-Lasting : (id : String) → Lasting (IsRegistered id)
unfolding insert_container_row insert_gpu_row insert_port_row delete_container_row has_node
IsRegistered-Lasting id = record {
  upserts = λ n. record { at = λ t h. upsert_row-IsRegistered id n t (inr h) };
  node_updates = λ p f ids machines t h. change_nodes-IsRegistered id p f ids t h;
  container_inserts = λ c. record {
    at = λ t h. elim (Bool-cases (has_container c.id t)) [
      | inl e ↦ rw (e, insert_container_row) tt
      | inr e ↦ elim (Bool-cases (has_node c.node_id t)) [
        | inl e' ↦ rw (e, e', insert_container_row) h
        | inr e' ↦ rw (e, e', insert_container_row) tt
      ]
    ];
  };
  container_updates = λ p f ids nodes t h. h;
  container_deletes = λ c. record { at = λ t h. h };
  gpu_inserts = λ r. record {
    at = λ t h. elim (Bool-cases (any (is_slot r.node_id r.gpu_index) t.gpu_alloc)) [
      | inl e ↦ rw (e, insert_gpu_row) tt
      | inr e ↦ elim (Bool-cases (has_container r.container_id t && has_node r.node_id t)) [
        | inl e' ↦ rw (e, e', insert_gpu_row) h
        | inr e' ↦ rw (e, e', insert_gpu_row) tt
      ]
    ];
  };
  gpu_deletes = λ p t h. h;
  port_inserts = λ r. record {
    at = λ t h. elim (Bool-cases (any (λ q. nat_eq q.port r.port) t.port_alloc)) [
      | inl e ↦ rw (e, insert_port_row) tt
      | inr e ↦ rw (e, insert_port_row) h
    ];
  };
  port_deletes = λ p t h. h;
}

-- A node that was upserted with success has a row.
pub upsert_node-IsRegistered :
    (now : Time) (n : Node) (db : Db)
    → (upsert_node now n db).0 ≡ ok tt
    → IsRegistered n.id (upsert_node now n db).1.tables
unfolding upsert_node registered
upsert_node-IsRegistered now n db h =
    let ran = exec-ok (upsert_row (registered now n)) db tt h in
    subst (After (IsRegistered n.id)) ran
      (upsert_row-IsRegistered n.id (registered now n) db.tables (inl refl))
