-- ===== src/Store/Lasting.antt =====
-- What each operation of internal/master/store/store.go keeps, returning or failing: every property
-- of the tables that the single statements keep.
use pumpkin_pie.Prelude.{
  sym, subst, ℕ, zero, suc, ◌≡◌, refl, String, Option, none, some, List, [], ◌∷◌, length, ltb, Bool,
  change, keep,
}
use pumpkin_pie.Exec.{Result, ok, err, raise}
use pumpkin_pie.Exec.Keeps.{Keeps, Keeps-bind, Keeps-pure, Keeps-raise, Keeps-if}
use pumpkin_pie.Store.Tables.{
  Node, Container, GpuRow, PortRow, Tables, Db, Time, Error, insufficient_gpus,
}
use pumpkin_pie.Store.Sql.{Sql, exec}
use pumpkin_pie.Store.Sql.Keeps.{Holds, Preserves, exec-Keeps, query-Keeps, transaction-Keeps}
use pumpkin_pie.Store.Statements.{
  upsert_row, insert_container_row, delete_container_row, insert_gpu_row, insert_port_row,
}
use pumpkin_pie.Store.Nodes.{
  registered, upsert_node, update_node_state, write_metrics, update_node_metrics,
}
use pumpkin_pie.Store.Containers.{stamped, insert_container, update_container, delete_container}
use pumpkin_pie.Store.Ports.{used_ports, take_port, alloc_port, free_port}
use pumpkin_pie.Store.Gpus.{
  used_indices, map_error, gpu_row, reserve_one, reserve, reserve_chosen, alloc_gpus,
  alloc_specific_gpus, free_gpus,
}

-- A property of the tables that each statement of the store keeps.
pub record Lasting (P : Tables → Type 0) : Type 0 where
  pub upserts : (n : Node) → Preserves P (upsert_row n)
  pub node_updates :
      (p : Node → Bool) (f : Node → Node)
      → ((n : Node) → (f n).id ≡ n.id)
      → ((n : Node) → (f n).machine_id ≡ n.machine_id)
      → (t : Tables) → P t
      → P (record t { nodes = change p f t.nodes })
  pub container_inserts : (c : Container) → Preserves P (insert_container_row c)
  pub container_updates :
      (p : Container → Bool) (f : Container → Container)
      → ((c : Container) → (f c).id ≡ c.id)
      → ((c : Container) → (f c).node_id ≡ c.node_id)
      → (t : Tables) → P t
      → P (record t { containers = change p f t.containers })
  pub container_deletes : (id : String) → Preserves P (delete_container_row id)
  pub gpu_inserts : (r : GpuRow) → Preserves P (insert_gpu_row r)
  pub gpu_deletes :
      (p : GpuRow → Bool) (t : Tables) → P t → P (record t { gpu_alloc = keep p t.gpu_alloc })
  pub port_inserts : (r : PortRow) → Preserves P (insert_port_row r)
  pub port_deletes :
      (p : PortRow → Bool) (t : Tables) → P t → P (record t { port_alloc = keep p t.port_alloc })

map_error-tables :
    {A : Type 0} (f : Error → Error) (r : Result Error A) (db : Db)
    → (map_error f (r, db)).1.tables ≡ db.tables
unfolding map_error
map_error-tables f (ok a) db = refl
map_error-tables f (err e) db = refl

module _ {P : Tables → Type 0} (w : Lasting P) where
  abbrev pub Safe : {A : Type 0} → Sql A → Type 0
  Safe = Keeps (Holds P)

  pub upsert_node-Safe : (now : Time) (n : Node) → Safe (upsert_node now n)
  unfolding upsert_node
  upsert_node-Safe now n = exec-Keeps P _ (w.upserts (registered now n))

  pub update_node_state-Safe :
      (now : Time) (id state : String) → Safe (update_node_state now id state)
  unfolding update_node_state
  update_node_state-Safe now id state =
      exec-Keeps P _ (record { at = λ t v. w.node_updates _ _ (λ n. refl) (λ n. refl) t v })

  pub update_node_metrics-Safe : (now : Time) (n : Node) → Safe (update_node_metrics now n)
  unfolding update_node_metrics write_metrics
  update_node_metrics-Safe now n =
      exec-Keeps P _ (record { at = λ t v. w.node_updates _ _ (λ n. refl) (λ n. refl) t v })

  pub insert_container-Safe : (now : Time) (c : Container) → Safe (insert_container now c)
  unfolding insert_container
  insert_container-Safe now c = exec-Keeps P _ (w.container_inserts (stamped now c))

  pub update_container-Safe :
      (id : String) (f : Container → Container)
      → ((c : Container) → (f c).id ≡ c.id)
      → ((c : Container) → (f c).node_id ≡ c.node_id)
      → Safe (update_container id f)
  unfolding update_container
  update_container-Safe id f i n =
      exec-Keeps P _ (record { at = λ t v. w.container_updates _ f i n t v })

  pub delete_container-Safe : (id : String) → Safe (delete_container id)
  unfolding delete_container
  delete_container-Safe id = exec-Keeps P _ (w.container_deletes id)

  pub free_port-Safe : (port : ℕ) → Safe (free_port port)
  unfolding free_port
  free_port-Safe port = exec-Keeps P _ (record { at = λ t v. w.port_deletes _ t v })

  pub free_gpus-Safe : (container : String) → Safe (free_gpus container)
  unfolding free_gpus
  free_gpus-Safe container = exec-Keeps P _ (record { at = λ t v. w.gpu_deletes _ t v })

  pub take_port-Safe :
      (start end : ℕ) (container : String) (found : Option ℕ)
      → Safe (take_port start end container found)
  unfolding take_port
  take_port-Safe start end container none = Keeps-raise _
  take_port-Safe start end container (some p) =
      Keeps-bind _ _ (exec-Keeps P _ (w.port_inserts _)) (λ _. Keeps-pure p)

  pub alloc_port-Safe : (start end : ℕ) (container : String) → Safe (alloc_port start end container)
  unfolding alloc_port
  alloc_port-Safe start end container =
      transaction-Keeps P _
        (Keeps-bind _ _ (query-Keeps P (used_ports start end)) (λ used. take_port-Safe _ _ _ _))

  pub reserve_one-Safe :
      (now : Time) (node container : String) (index : ℕ)
      → Safe (reserve_one now node container index)
  unfolding reserve_one
  reserve_one-Safe now node container index = record {
    at = λ db v.
        let statement = insert_gpu_row (gpu_row now node container index) in
        let (r, db') = exec statement db in
        subst P (sym (map_error-tables _ r db'))
          ((exec-Keeps P statement (w.gpu_inserts _)).at db v);
  }

  pub reserve-Safe :
      (now : Time) (node container : String) (indices : List ℕ)
      → Safe (reserve now node container indices)
  unfolding reserve
  reserve-Safe now node container [] = Keeps-pure tt
  reserve-Safe now node container (index ∷ rest) =
      Keeps-bind _ _ (reserve_one-Safe now node container index)
        (λ _. reserve-Safe now node container rest)

  pub reserve_chosen-Safe :
      (now : Time) (node container : String) (count total : ℕ) (chosen : List ℕ)
      → Safe (reserve_chosen now node container count total chosen)
  unfolding reserve_chosen
  reserve_chosen-Safe now node container count total chosen =
      Keeps-if (ltb (length chosen) count) (raise (insufficient_gpus count (length chosen) total)) _
        (λ _. Keeps-raise _)
        (λ _. Keeps-bind _ _ (reserve-Safe now node container chosen) (λ _. Keeps-pure chosen))

  pub alloc_gpus-Safe :
      (now : Time) (node container : String) (count total : ℕ)
      → Safe (alloc_gpus now node container count total)
  unfolding alloc_gpus
  alloc_gpus-Safe now node container zero total = Keeps-pure []
  alloc_gpus-Safe now node container (suc n) total = transaction-Keeps P _ (
      Keeps-bind _ _ (query-Keeps P (used_indices node))
        (λ used. reserve_chosen-Safe now node container (suc n) total _))

  pub alloc_specific_gpus-Safe :
      (now : Time) (node container : String) (indices : List ℕ)
      → Safe (alloc_specific_gpus now node container indices)
  unfolding alloc_specific_gpus
  alloc_specific_gpus-Safe now node container [] = Keeps-pure tt
  alloc_specific_gpus-Safe now node container (index ∷ rest) =
      transaction-Keeps P _ (reserve-Safe now node container (index ∷ rest))
