-- ===== src/Store/Validity.antt =====
-- The constraints of `schema` in internal/master/store/store.go as one invariant of the tables.
pub mod Updates
pub mod Writes
pub mod Upsert
pub mod Registered
pub mod Histories
use pumpkin_pie.Prelude.{Bool, true, not, ◌&&◌, ◌≡◌, ◌==◌, nat_eq, All}
use pumpkin_pie.Prelude.Rows.{Distinct}
use pumpkin_pie.Store.Tables.{Node, Container, GpuRow, PortRow, Tables}
use pumpkin_pie.Store.Statements.{has_node, has_container, is_slot}

abbrev pub same_node : Node → Node → Bool
same_node a b = b.id == a.id

abbrev pub same_machine : Node → Node → Bool
same_machine a b = not (b.machine_id == "") && b.machine_id == a.machine_id

abbrev pub same_container : Container → Container → Bool
same_container a b = b.id == a.id

abbrev pub same_slot : GpuRow → GpuRow → Bool
same_slot a b = is_slot a.node_id a.gpu_index b

abbrev pub same_port : PortRow → PortRow → Bool
same_port a b = nat_eq b.port a.port

-- The primary keys, the unique index on machine_id, and the foreign keys.
pub record IsValid (t : Tables) : Type 0 where
  pub node_ids : Distinct same_node t.nodes
  pub machines : Distinct same_machine t.nodes
  pub container_ids : Distinct same_container t.containers
  pub slots : Distinct same_slot t.gpu_alloc
  pub ports : Distinct same_port t.port_alloc
  pub placed : All (λ c. has_node c.node_id t ≡ true) t.containers
  pub held :
      All (λ r. (has_container r.container_id t ≡ true) × (has_node r.node_id t ≡ true)) t.gpu_alloc
