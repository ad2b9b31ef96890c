-- ===== src/Store/Statements.antt =====
-- The statements of internal/master/store/store.go that write, with the constraints that `schema`
-- declares; foreign keys are enforced, as the DSN of Open asks. A table lists its newest row first.
use pumpkin_pie.Prelude.{
  ℕ, String, Bool, not, ◌&&◌, ◌∷◌, ◌==◌, any, keep, change, nat_eq, if◌then◌else◌,
}
use pumpkin_pie.Exec.{ok, err}
use pumpkin_pie.Store.Tables.{Node, Container, GpuRow, PortRow, Tables, driver}
use pumpkin_pie.Store.Sql.{Statement}

abbrev pub unique_failed : String
unique_failed = "constraint failed: UNIQUE constraint failed"

abbrev pub foreign_key_failed : String
foreign_key_failed = "constraint failed: FOREIGN KEY constraint failed (787)"

unfoldable pub has_node : String → Tables → Bool
has_node id t = any (λ n. n.id == id) t.nodes

unfoldable pub has_container : String → Tables → Bool
has_container id t = any (λ c. c.id == id) t.containers

-- The primary key of `gpu_alloc`.
unfoldable pub is_slot : String → ℕ → GpuRow → Bool
is_slot node index r = r.node_id == node && nat_eq r.gpu_index index

-- The columns that INSERT INTO nodes names, and the defaults of the rest.
unfoldable pub new_row : Node → Node
new_row n = record {
  id = n.id;
  machine_id = n.machine_id;
  name = n.name;
  hostname = n.hostname;
  os = n.os;
  arch = n.arch;
  agent_version = n.agent_version;
  state = n.state;
  last_heartbeat = n.last_heartbeat;
  registered_at = n.registered_at;
  cpu_percent = 0;
  cpu_cores = 0;
  mem_used_bytes = 0;
  mem_total_bytes = 0;
  disk_json = "";
  gpu_json = "";
  load1 = 0;
  gpu_count = 0;
  gpu_mem_used = 0;
  gpu_mem_total = 0;
  gpu_usage_avg = 0;
  metrics_at = 0;
}

-- ON CONFLICT(id) DO UPDATE SET: the row keeps its registration time and its metrics.
unfoldable pub refresh_row : Node → Node → Node
refresh_row n old = record old {
  machine_id = n.machine_id;
  name = n.name;
  hostname = n.hostname;
  os = n.os;
  arch = n.arch;
  agent_version = n.agent_version;
  state = n.state;
  last_heartbeat = n.last_heartbeat;
}

-- The partial unique index on machine_id: another row has it, and it is not empty.
unfoldable pub machine_clash : Node → Tables → Bool
machine_clash n t =
    not (n.machine_id == "")
    && any (λ m. m.machine_id == n.machine_id && not (m.id == n.id)) t.nodes

unfoldable pub upsert_row : Node → Statement Unit
unfolding has_node machine_clash new_row refresh_row
upsert_row n t =
    if machine_clash n t
    then err (driver unique_failed)
    else if has_node n.id t
    then ok (tt, record t { nodes = change (λ m. m.id == n.id) (refresh_row n) t.nodes })
    else ok (tt, record t { nodes = new_row n ∷ t.nodes })

unfoldable pub insert_container_row : Container → Statement Unit
unfolding has_node has_container
insert_container_row c t =
    if has_container c.id t
    then err (driver unique_failed)
    else if has_node c.node_id t
    then ok (tt, record t { containers = c ∷ t.containers })
    else err (driver foreign_key_failed)

-- DELETE FROM containers, with ON DELETE CASCADE on `gpu_alloc`.
unfoldable pub delete_container_row : String → Statement Unit
delete_container_row id t = ok (
  tt,
  record t {
    containers = keep (λ c. not (c.id == id)) t.containers;
    gpu_alloc = keep (λ r. not (r.container_id == id)) t.gpu_alloc;
  },
)

unfoldable pub insert_gpu_row : GpuRow → Statement Unit
unfolding has_node has_container is_slot
insert_gpu_row r t =
    if any (is_slot r.node_id r.gpu_index) t.gpu_alloc
    then err (driver unique_failed)
    else if has_container r.container_id t && has_node r.node_id t
    then ok (tt, record t { gpu_alloc = r ∷ t.gpu_alloc })
    else err (driver foreign_key_failed)

unfoldable pub insert_port_row : PortRow → Statement Unit
insert_port_row r t =
    if any (λ q. nat_eq q.port r.port) t.port_alloc
    then err (driver unique_failed)
    else ok (tt, record t { port_alloc = r ∷ t.port_alloc })
