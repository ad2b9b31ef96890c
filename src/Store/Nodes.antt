-- ===== src/Store/Nodes.antt =====
-- internal/master/store/store.go, the section "Nodes". `now` is what time.Now returns in the call.
use pumpkin_pie.Prelude.{
  String, ◌==◌, Option, none, some, List, find, change, sort_desc, nat_eq, if◌then◌else◌,
}
use pumpkin_pie.Exec.{ok, err, raise, ◌>>=◌}
use pumpkin_pie.Store.Tables.{Node, Tables, Time, no_rows}
use pumpkin_pie.Store.Sql.{Sql, exec, query}
use pumpkin_pie.Store.Statements.{upsert_row}

-- rows.Next, and sql.ErrNoRows where there is no row
unfoldable pub or_no_rows : {A : Type 0} → Option A → Sql A
or_no_rows none s = (err no_rows, s)
or_no_rows (some a) s = (ok a, s)

-- if n.RegisteredAt.IsZero()
unfoldable pub registered : Time → Node → Node
registered now n = record n {
  registered_at = if nat_eq n.registered_at 0 then now else n.registered_at;
}

unfoldable pub upsert_node : Time → Node → Sql Unit
unfolding exec upsert_row registered
upsert_node now n = exec (upsert_row (registered now n))

-- SELECT … FROM nodes WHERE id=?
unfoldable pub node_by_id : String → Tables → Option Node
node_by_id id t = find (λ n. n.id == id) t.nodes

-- SELECT … FROM nodes WHERE machine_id=?
unfoldable pub node_by_machine : String → Tables → Option Node
node_by_machine machine t = find (λ n. n.machine_id == machine) t.nodes

unfoldable pub get_node_by_machine_id : String → Sql Node
unfolding ◌>>=◌ query node_by_machine or_no_rows
get_node_by_machine_id machine =
    if machine == "" then raise no_rows else (query (node_by_machine machine) >>= or_no_rows)

unfoldable pub update_node_state : Time → String → String → Sql Unit
unfolding exec
update_node_state now id state = exec λ t. ok (
  tt,
  record t {
    nodes =
        change (λ n. n.id == id) (λ n. record n { state = state; last_heartbeat = now }) t.nodes;
  },
)

unfoldable pub write_metrics : Time → Node → Node → Node
write_metrics now n old = record old {
  cpu_percent = n.cpu_percent;
  cpu_cores = n.cpu_cores;
  mem_used_bytes = n.mem_used_bytes;
  mem_total_bytes = n.mem_total_bytes;
  disk_json = n.disk_json;
  gpu_json = n.gpu_json;
  load1 = n.load1;
  gpu_count = n.gpu_count;
  gpu_mem_used = n.gpu_mem_used;
  gpu_mem_total = n.gpu_mem_total;
  gpu_usage_avg = n.gpu_usage_avg;
  metrics_at = now;
  last_heartbeat = now;
}

unfoldable pub update_node_metrics : Time → Node → Sql Unit
unfolding exec write_metrics
update_node_metrics now n =
    exec λ t. ok (tt, record t { nodes = change (λ m. m.id == n.id) (write_metrics now n) t.nodes })

-- ORDER BY registered_at DESC
unfoldable pub list_nodes : Sql (List Node)
unfolding query sort_desc
list_nodes = query (λ t. sort_desc (λ n. n.registered_at) t.nodes)

unfoldable pub get_node : String → Sql Node
unfolding ◌>>=◌ query node_by_id or_no_rows
get_node id = query (node_by_id id) >>= or_no_rows
