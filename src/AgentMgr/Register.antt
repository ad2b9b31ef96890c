-- ===== src/AgentMgr/Register.antt =====
-- internal/master/agentmgr/manager.go: OnAgentConnect and what it calls. `now` is what time.Now
-- returns in the call, `random` what randomID returns.
use pumpkin_pie.Prelude.{ℕ, String, ◌==◌, true, Option, none, some, if◌then◌else◌}
use pumpkin_pie.Exec.{Result, ok, err, pure, raise, ◌>>=◌}
use pumpkin_pie.Store.Tables.{
  Node, Error, Time, no_rows, driver, insufficient_gpus, gpu_taken, no_free_port,
}
use pumpkin_pie.Store.Nodes.{upsert_node, get_node_by_machine_id, update_node_state}
use pumpkin_pie.AgentMgr.Messages.{
  RegisterRequest, AgentMessage, register, heartbeat, metrics, container_created, container_stopped,
  container_started, container_state_changed, register_resp,
}
use pumpkin_pie.AgentMgr.State.{
  Session, Managed, of_store, says, on_store, or_fail, publish, supersede, send,
}

-- &store.Node{…}, the fields that are not named at their zero
unfoldable pub new_node : Time → String → RegisterRequest → Node
new_node now id reg = record {
  id = id;
  machine_id = reg.machine_id;
  name = reg.name;
  hostname = reg.hostname;
  os = reg.os;
  arch = reg.arch;
  agent_version = reg.agent_version;
  state = "online";
  last_heartbeat = now;
  registered_at = now;
  cpu_percent = 0;
  cpu_cores = 0;
  mem_used_bytes = 0;
  mem_total_bytes = 0;
  disk_json = "";
  gpu_json = "";
  load1 = 0;
  gpu_count = 0;
  gpu_mem_used = 0;
  gpu_mem_total = 0;
  gpu_usage_avg = 0;
  metrics_at = 0;
}

unfoldable pub refreshed : Time → RegisterRequest → Node → Node
refreshed now reg existing = record existing {
  name = reg.name;
  hostname = reg.hostname;
  os = reg.os;
  arch = reg.arch;
  agent_version = reg.agent_version;
  state = "online";
  last_heartbeat = now;
}

-- UpsertNode, and the id where it succeeds
unfoldable pub save_node : Time → Node → Managed String
unfolding on_store or_fail upsert_node pure
save_node now n = on_store (upsert_node now n) (or_fail (λ _. pure n.id))

-- if id, err := randomID()
unfoldable pub register_new : Time → RegisterRequest → Result String String → Managed String
unfolding save_node new_node raise
register_new now reg (ok id) = save_node now (new_node now id reg)
register_new now reg (err why) = raise (says why)

-- What follows the lookup of the machine id.
unfoldable pub register_found :
    Time → RegisterRequest → Result String String → Result Error Node → Managed String
unfolding save_node refreshed register_new raise
register_found now reg random (ok existing) = save_node now (refreshed now reg existing)
register_found now reg random (err no_rows) = register_new now reg random
register_found now reg random (err (driver message)) = raise (of_store (driver message))
register_found now reg random (err (insufficient_gpus requested free total)) =
    raise (of_store (insufficient_gpus requested free total))
register_found now reg random (err (gpu_taken index node)) = raise (of_store (gpu_taken index node))
register_found now reg random (err (no_free_port start end)) =
    raise (of_store (no_free_port start end))

unfoldable pub resolve_node_id : Time → RegisterRequest → Result String String → Managed String
unfolding on_store register_found raise
resolve_node_id now reg random =
    if reg.machine_id == ""
    then raise (says "register: machine_id required")
    else on_store (get_node_by_machine_id reg.machine_id) (register_found now reg random)

-- remoteHostFromContext: the peer's address, if there is one, and what net.SplitHostPort makes of it
unfoldable pub remote_host : (String → Option String) → Option String → String
remote_host split_host none = ""
remote_host split_host (some address) = elim (split_host address) [
  | none ↦ address
  | some host ↦ host
]

-- first.GetRegister()
unfoldable pub get_register : AgentMessage → Option RegisterRequest
get_register (register reg) = some reg
get_register (heartbeat ts) = none
get_register (metrics r) = none
get_register (container_created c) = none
get_register (container_stopped c) = none
get_register (container_started c) = none
get_register (container_state_changed c) = none

-- A connection: the stream's number, its peer's host, the clock and the random id.
pub record Connection : Type 0 where
  pub stream : ℕ
  pub host : String
  pub now : Time
  pub random : Result String String

unfoldable pub session_for : Connection → String → RegisterRequest → Session
session_for conn id reg = record {
  node_id = id;
  node_name = reg.name;
  remote_host = conn.host;
  stream = conn.stream;
}

unfoldable pub welcome :
    Connection → RegisterRequest → String → Unit {0} → Managed (Session × String)
unfolding publish session_for
welcome conn reg id _ m = (
  ok (session_for conn id reg, id),
  publish (record { node_id = id; kind = "state"; at_time = conn.now; snapshot = none }) m,
)

-- stream.Send of the RegisterResponse, and the update
unfoldable pub answer : Connection → RegisterRequest → String → Managed (Session × String)
unfolding send welcome ◌>>=◌
answer conn reg id = send conn.stream (register_resp id true "" 5) >>= welcome conn reg id

-- The session enters the map, the row goes online, and the answer is sent.
unfoldable pub open_session : Connection → RegisterRequest → String → Managed (Session × String)
unfolding supersede on_store or_fail update_node_state answer session_for
open_session conn reg id m =
    on_store (update_node_state conn.now id "online") (or_fail (λ _. answer conn reg id))
      (supersede (session_for conn id reg) m)

unfoldable pub connect_with : Connection → Option RegisterRequest → Managed (Session × String)
unfolding resolve_node_id open_session ◌>>=◌
connect_with conn none = raise (says "first message must be RegisterRequest")
connect_with conn (some reg) =
    resolve_node_id conn.now reg conn.random >>= λ id. open_session conn reg id

-- OnAgentConnect, from what stream.Recv returned
unfoldable pub on_agent_connect :
    Connection → Result String AgentMessage → Managed (Session × String)
unfolding connect_with get_register raise
on_agent_connect conn (err why) = raise (says why)
on_agent_connect conn (ok first) = connect_with conn (get_register first)
