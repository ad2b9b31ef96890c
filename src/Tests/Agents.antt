-- ===== src/Tests/Agents.antt =====
-- The agent manager at the data of `Data`.
use pumpkin_pie.Prelude.{
  ◌≡◌, refl, false, ◌==◌, none, some, [], ◌∷◌, All, arith, change, keep, any, find,
}
use pumpkin_pie.Exec.{ok, err}
use pumpkin_pie.Store.Tables.{Tables, calm}
use pumpkin_pie.Store.Statements.{has_container, refresh_row}
use pumpkin_pie.Store.Nodes.{node_by_machine}
use pumpkin_pie.AgentMgr.Messages.{RegisterRequest, Ack, ContainerStateChanged, register}
use pumpkin_pie.AgentMgr.State.{Session, Manager, get}
use pumpkin_pie.AgentMgr.Register.{Connection, refreshed, resolve_node_id, on_agent_connect}
use pumpkin_pie.AgentMgr.Reports.{Json}
use pumpkin_pie.AgentMgr.Handlers.{is_terminal_gpu_action, handle_container_state_changed}
use pumpkin_pie.AgentMgr.Disconnect.{is_transient, handle_disconnect}
use pumpkin_pie.AgentMgr.Soundness.{IsSound}
use pumpkin_pie.AgentMgr.Steps.{connects, disconnects, stays, after, Reaches-IsSound}
use pumpkin_pie.AgentMgr.Identity.{resolve_node_id-known}
use pumpkin_pie.AgentMgr.Confined.{IsConfined, handle_container_state_changed-IsConfined}
use pumpkin_pie.AgentMgr.Lifecycle.{stated, released, changed_tables}
use pumpkin_pie.AgentMgr.Reverting.{listed, handle_disconnect-settled}
use pumpkin_pie.AgentMgr.Sessions.{get-handle_disconnect}
use pumpkin_pie.AgentMgr.Connecting.{Connects, on_agent_connect-Connects}
use pumpkin_pie.Tests.Data.{worker, trainer, idler, held_row, cluster}
use pumpkin_pie.Tests.Stores.{cluster-IsValid}

abbrev pub hub : Manager
hub = record {
  db = calm cluster;
  sessions = [];
  closed = [];
  updates = [];
  sink_queue = [];
  sent = [];
  send_faults = [];
}

abbrev pub json : Json
json = record {
  marshal_devices = λ _. some "[]";
  marshal_disks = λ _. none;
  unmarshal_disks = λ _. none;
}

pub hub-IsSound : IsSound hub
hub-IsSound = record {
  tables = cluster-IsValid;
  registered = tt;
  single = tt;
  updates_bound = omega arith;
  sink_bound = omega arith;
}

abbrev request : RegisterRequest
request = record {
  name = "renamed";
  hostname = "host-9";
  os = "linux";
  arch = "x86_64";
  agent_version = "1.3.0";
  docker_volumes = [];
  machine_id = "m1";
}

abbrev conn : Connection
conn = record { stream = 7; host = "10.0.0.5"; now = 20; random = ok "0123456789abcdef" }

abbrev connected : Manager
connected = (on_agent_connect conn (ok (register request)) hub).1

abbrev gone : Manager
gone = handle_disconnect 21 "n1" "EOF" connected

Reaches-IsSound_example : IsSound gone
Reaches-IsSound_example =
    Reaches-IsSound json hub gone
      (after hub connected gone
        (after hub hub connected (stays hub) (connects conn (ok (register request)) hub))
        (disconnects 21 "n1" "EOF" connected))
      hub-IsSound

m1_worker : node_by_machine "m1" cluster ≡ some worker
unfolding node_by_machine find
m1_worker = refl

resolve_node_id-known_example : resolve_node_id 20 request (err "no entropy") hub ≡ (
  ok "n1",
  record hub {
    db = calm (record cluster {
      nodes = change (λ k. k.id == "n1") (refresh_row (refreshed 20 request worker)) cluster.nodes;
    });
  },
)
resolve_node_id-known_example =
    resolve_node_id-known 20 request (err "no entropy") hub cluster worker cluster-IsValid refl
      m1_worker

abbrev pub session : Session
session = record { node_id = "n1"; node_name = "worker-1"; remote_host = "10.0.0.5"; stream = 7 }

abbrev died : ContainerStateChanged
died = record {
  container_id = "c-1";
  docker_id = "d1";
  action = "die";
  state = "exited";
  status = "Exited (137)";
  ts_unix_ms = 0;
}

handle_container_state_changed-IsConfined_example :
    IsConfined 22 died cluster (handle_container_state_changed 22 session died hub).db.tables
handle_container_state_changed-IsConfined_example =
    handle_container_state_changed-IsConfined 22 session died hub

-- Dying frees the GPU, and an exit that the poll reports does not.
died_frees : (changed_tables 22 died cluster).gpu_alloc ≡ []
unfolding changed_tables stated released any has_container keep is_terminal_gpu_action
died_frees = refl

polled_keeps :
    (changed_tables 22 (record died { action = "poll" }) cluster).gpu_alloc ≡ held_row ∷ []
unfolding changed_tables stated released any has_container keep is_terminal_gpu_action
polled_keeps = refl

abbrev refused : Ack
refused = record { container_id = "c-1"; docker_id = ""; error = "no such image" }

abbrev starting : Tables
starting = record cluster { containers = idler ∷ record trainer { state = "starting" } ∷ [] }

handle_disconnect-settled_example :
    All
      (λ c. is_transient "n1" c ≡ false)
      (handle_disconnect 23 "n1" "EOF" (record hub { db = calm starting })).db.tables.containers
    × All
        (λ r. listed "n1" r.container_id starting.containers ≡ false)
        (handle_disconnect 23 "n1" "EOF" (record hub { db = calm starting })).db.tables.gpu_alloc
handle_disconnect-settled_example = handle_disconnect-settled 23 "n1" "EOF" hub starting

-- The stream 7 was superseded by the stream 8, whose session is the one in the map.
get-handle_disconnect_example :
    get "n1" (
      handle_disconnect 24 "n1" "EOF"
        (record hub { sessions = record session { stream = 8 } ∷ []; closed = 7 ∷ [] }))
    ≡ none
get-handle_disconnect_example =
    get-handle_disconnect 24 "n1" "EOF" "n1"
      (record hub { sessions = record session { stream = 8 } ∷ []; closed = 7 ∷ [] })

-- The hub whose next stream refuses what is sent on it
abbrev broken : Manager
broken = record hub { send_faults = some "EOF" ∷ [] }

on_agent_connect-Connects_example :
    Connects conn broken (on_agent_connect conn (ok (register request)) broken)
on_agent_connect-Connects_example = on_agent_connect-Connects conn (ok (register request)) broken
