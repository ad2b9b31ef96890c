-- ===== src/Store/Reads.antt =====
-- The queries of internal/master/store/store.go change no table.
use pumpkin_pie.Prelude.{String, Option, none, some, ◌==◌}
use pumpkin_pie.Exec.{raise}
use pumpkin_pie.Exec.Keeps.{Keeps, Keeps-bind, Keeps-raise, Keeps-if}
use pumpkin_pie.Store.Tables.{Tables, no_rows}
use pumpkin_pie.Store.Sql.Keeps.{Holds, query-Keeps}
use pumpkin_pie.Store.Nodes.{
  or_no_rows, node_by_id, node_by_machine, get_node_by_machine_id, get_node, list_nodes,
}
use pumpkin_pie.Store.Containers.{container_by_id, container_exists, get_container, list_containers}
use pumpkin_pie.Store.Gpus.{gpu_usage_by_node}

module _ (P : Tables → Type 0) where
  or_no_rows-Keeps : {A : Type 0} (found : Option A) → Keeps (Holds P) (or_no_rows found)
  unfolding or_no_rows
  or_no_rows-Keeps none = record { at = λ s h. h }
  or_no_rows-Keeps (some a) = record { at = λ s h. h }

  pub get_node_by_machine_id-Keeps : (id : String) → Keeps (Holds P) (get_node_by_machine_id id)
  unfolding get_node_by_machine_id
  get_node_by_machine_id-Keeps id =
      Keeps-if (id == "") (raise no_rows) _ (λ _. Keeps-raise no_rows)
        (λ _. Keeps-bind _ _ (query-Keeps P (node_by_machine id)) or_no_rows-Keeps)

  pub get_node-Keeps : (id : String) → Keeps (Holds P) (get_node id)
  unfolding get_node
  get_node-Keeps id = Keeps-bind _ _ (query-Keeps P (node_by_id id)) or_no_rows-Keeps

  pub get_container-Keeps : (id : String) → Keeps (Holds P) (get_container id)
  unfolding get_container
  get_container-Keeps id = Keeps-bind _ _ (query-Keeps P (container_by_id id)) or_no_rows-Keeps

  pub container_exists-Keeps : (id : String) → Keeps (Holds P) (container_exists id)
  unfolding container_exists
  container_exists-Keeps id = query-Keeps P _

  pub list_containers-Keeps : Keeps (Holds P) list_containers
  unfolding list_containers
  list_containers-Keeps = query-Keeps P _

  pub list_nodes-Keeps : Keeps (Holds P) list_nodes
  unfolding list_nodes
  list_nodes-Keeps = query-Keeps P _

  pub gpu_usage_by_node-Keeps : Keeps (Holds P) gpu_usage_by_node
  unfolding gpu_usage_by_node
  gpu_usage_by_node-Keeps = query-Keeps P _
