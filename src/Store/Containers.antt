-- ===== src/Store/Containers.antt =====
-- internal/master/store/store.go, the section "Containers".
use pumpkin_pie.Prelude.{
  ℕ, String, Bool, ◌==◌, Option, List, find, change, sort_desc, nat_eq, if◌then◌else◌,
}
use pumpkin_pie.Exec.{ok, ◌>>=◌}
use pumpkin_pie.Store.Tables.{Container, Tables, Time}
use pumpkin_pie.Store.Sql.{Sql, exec, query}
use pumpkin_pie.Store.Statements.{has_container, insert_container_row, delete_container_row}
use pumpkin_pie.Store.Nodes.{or_no_rows}

-- UPDATE containers SET … WHERE id=?
unfoldable pub update_container : String → (Container → Container) → Sql Unit
unfolding exec
update_container id f =
    exec (λ t. ok (tt, record t { containers = change (λ c. c.id == id) f t.containers }))

-- The row as InsertContainer stamps it; the source writes these stamps into `c` too.
unfoldable pub stamped : Time → Container → Container
stamped now c = record c {
  created_at = if nat_eq c.created_at 0 then now else c.created_at;
  updated_at = now;
}

unfoldable pub insert_container : Time → Container → Sql Unit
unfolding exec insert_container_row stamped
insert_container now c = exec (insert_container_row (stamped now c))

-- docker_id=COALESCE(NULLIF(?,''), docker_id)
unfoldable pub set_state : Time → String → String → String → Container → Container
set_state now docker_id state status c = record c {
  docker_id = if docker_id == "" then c.docker_id else docker_id;
  state = state;
  status = status;
  updated_at = now;
}

unfoldable pub update_container_state : Time → String → String → String → String → Sql Unit
unfolding update_container set_state
update_container_state now id docker_id state status =
    update_container id (set_state now docker_id state status)

unfoldable pub update_container_external_port : Time → String → ℕ → Sql Unit
unfolding update_container
update_container_external_port now id port =
    update_container id (λ c. record c { external_port = port; updated_at = now })

unfoldable pub delete_container : String → Sql Unit
unfolding exec delete_container_row
delete_container id = exec (delete_container_row id)

unfoldable pub container_exists : String → Sql Bool
unfolding query has_container
container_exists id = query (has_container id)

-- ORDER BY created_at DESC
unfoldable pub list_containers : Sql (List Container)
unfolding query sort_desc
list_containers = query (λ t. sort_desc (λ c. c.created_at) t.containers)

-- SELECT … FROM containers WHERE id=?
unfoldable pub container_by_id : String → Tables → Option Container
container_by_id id t = find (λ c. c.id == id) t.containers

unfoldable pub get_container : String → Sql Container
unfolding ◌>>=◌ query container_by_id or_no_rows
get_container id = query (container_by_id id) >>= or_no_rows

unfoldable pub update_container_gpu_indices : Time → String → String → Sql Unit
unfolding update_container
update_container_gpu_indices now id indices_json =
    update_container id (λ c. record c { gpu_indices_json = indices_json; updated_at = now })
