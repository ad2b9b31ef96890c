-- ===== src/Store/Calls.antt =====
-- Sequences of calls of the store's operations. Each operation is atomic in
-- internal/master/store/store.go (one statement, or a transaction under the store's mutex), so such
-- a sequence is any interleaving of the master's goroutines.
use pumpkin_pie.Prelude.{ℕ, refl, String, List, [], ◌∷◌}
use pumpkin_pie.Store.Tables.{Node, Container, Db, Time}
use pumpkin_pie.Store.Nodes.{upsert_node, update_node_state, update_node_metrics}
use pumpkin_pie.Store.Containers.{
  insert_container, set_state, update_container_state, update_container_external_port,
  delete_container, update_container_gpu_indices,
}
use pumpkin_pie.Store.Ports.{alloc_port, free_port}
use pumpkin_pie.Store.Gpus.{alloc_gpus, alloc_specific_gpus, free_gpus}
use pumpkin_pie.Store.Tables.{Tables}
use pumpkin_pie.Store.Lasting.{
  Lasting, alloc_gpus-Safe, alloc_port-Safe, alloc_specific_gpus-Safe, delete_container-Safe,
  free_gpus-Safe, free_port-Safe, insert_container-Safe, update_container-Safe,
  update_node_metrics-Safe, update_node_state-Safe, upsert_node-Safe,
}

-- A call of an operation that writes; the reads keep every property of the tables.
pub data Call : Type 0 where
  upserts_node : Time → Node → Call
  updates_node_state : Time → String → String → Call
  updates_node_metrics : Time → Node → Call
  inserts_container : Time → Container → Call
  updates_container_state : Time → String → String → String → String → Call
  updates_external_port : Time → String → ℕ → Call
  updates_gpu_indices : Time → String → String → Call
  deletes_container : String → Call
  allocates_port : ℕ → ℕ → String → Call
  frees_port : ℕ → Call
  allocates_gpus : Time → String → String → ℕ → ℕ → Call
  allocates_specific_gpus : Time → String → String → List ℕ → Call
  frees_gpus : String → Call

-- The database after a call, whether the call returned or failed.
unfoldable pub run_call : Call → Db → Db
run_call (upserts_node now n) db = (upsert_node now n db).1
run_call (updates_node_state now id state) db = (update_node_state now id state db).1
run_call (updates_node_metrics now n) db = (update_node_metrics now n db).1
run_call (inserts_container now c) db = (insert_container now c db).1
run_call (updates_container_state now id docker_id state status) db =
    (update_container_state now id docker_id state status db).1
run_call (updates_external_port now id port) db = (update_container_external_port now id port db).1
run_call (updates_gpu_indices now id json) db = (update_container_gpu_indices now id json db).1
run_call (deletes_container id) db = (delete_container id db).1
run_call (allocates_port start end container) db = (alloc_port start end container db).1
run_call (frees_port port) db = (free_port port db).1
run_call (allocates_gpus now node container count total) db =
    (alloc_gpus now node container count total db).1
run_call (allocates_specific_gpus now node container indices) db =
    (alloc_specific_gpus now node container indices db).1
run_call (frees_gpus container) db = (free_gpus container db).1

unfoldable pub run_calls : List Call → Db → Db
unfolding run_call
run_calls [] db = db
run_calls (c ∷ cs) db = run_calls cs (run_call c db)

module _ {P : Tables → Type 0} (w : Lasting P) where
  pub run_call-Lasting : (c : Call) (db : Db) → P db.tables → P (run_call c db).tables
  unfolding run_call update_container_state update_container_external_port
      update_container_gpu_indices set_state
  run_call-Lasting (upserts_node now n) db v = (upsert_node-Safe w now n).at db v
  run_call-Lasting (updates_node_state now id state) db v =
      (update_node_state-Safe w now id state).at db v
  run_call-Lasting (updates_node_metrics now n) db v = (update_node_metrics-Safe w now n).at db v
  run_call-Lasting (inserts_container now c) db v = (insert_container-Safe w now c).at db v
  run_call-Lasting (updates_container_state now id docker_id state status) db v =
      (update_container-Safe w id _ (λ c. refl) (λ c. refl)).at db v
  run_call-Lasting (updates_external_port now id port) db v =
      (update_container-Safe w id _ (λ c. refl) (λ c. refl)).at db v
  run_call-Lasting (updates_gpu_indices now id json) db v =
      (update_container-Safe w id _ (λ c. refl) (λ c. refl)).at db v
  run_call-Lasting (deletes_container id) db v = (delete_container-Safe w id).at db v
  run_call-Lasting (allocates_port start end container) db v =
      (alloc_port-Safe w start end container).at db v
  run_call-Lasting (frees_port port) db v = (free_port-Safe w port).at db v
  run_call-Lasting (allocates_gpus now node container count total) db v =
      (alloc_gpus-Safe w now node container count total).at db v
  run_call-Lasting (allocates_specific_gpus now node container indices) db v =
      (alloc_specific_gpus-Safe w now node container indices).at db v
  run_call-Lasting (frees_gpus container) db v = (free_gpus-Safe w container).at db v

  pub run_calls-Lasting : (cs : List Call) (db : Db) → P db.tables → P (run_calls cs db).tables
  unfolding run_calls
  run_calls-Lasting [] db v = v
  run_calls-Lasting (c ∷ cs) db v = run_calls-Lasting cs (run_call c db) (run_call-Lasting c db v)
