-- ===== src/Tests/Handlers.antt =====
-- The HTTP handlers and the proxy at the data of `Data`.
use pumpkin_pie.Prelude.{◌≡◌, refl, false, none, some, [], ◌∷◌, any, find, keep}
use pumpkin_pie.Exec.{ok, err}
use pumpkin_pie.Store.Tables.{calm}
use pumpkin_pie.Store.Nodes.{get_node}
use pumpkin_pie.AgentMgr.Messages.{PortMapping}
use pumpkin_pie.AgentMgr.State.{says}
use pumpkin_pie.Proxy.{Proxy}
use pumpkin_pie.Api.State.{Master, Codec, refusal, of_send, says as says_api}
use pumpkin_pie.Api.Checks.{CreateContainerReq, check_request}
use pumpkin_pie.Api.Granted.{IsGranted, handle_create-IsGranted}
use pumpkin_pie.Api.Create.{Created, Call, hand_off, handle_create}
use pumpkin_pie.Api.Failures.{without, hand_off-failed}
use pumpkin_pie.Api.Lifecycle.{stop_found}
use pumpkin_pie.Api.Rollback.{stop_found-failed}
use pumpkin_pie.AgentMgr.Lifecycle.{stated}
use pumpkin_pie.Float.{FloatOps}
use pumpkin_pie.Tests.Data.{trainer, cluster}
use pumpkin_pie.Tests.Agents.{hub, session}

abbrev web : PortMapping
web = record { container_port = 80; protocol = ""; host_port = 0 }

abbrev request : CreateContainerReq
request = record {
  image = "torch";
  name = "";
  env = [];
  cmd = [];
  volume_binds = [];
  port_mappings = web ∷ [];
  cpu_cores = 0;
  memory_bytes = 0;
  gpu_count = 0;
  gpu_indices = 2 ∷ 3 ∷ [];
  node_id = "n1";
  pull = false;
  external_port = 0;
}

abbrev pub proxy : Proxy
proxy = record { listeners = []; routes = []; listen_faults = [] }

abbrev cut_off : Master
cut_off = record {
  manager = record hub { sessions = session ∷ []; send_faults = some "stream closed" ∷ [] };
  proxy = proxy;
}

abbrev codec : Codec
codec = record {
  texts = λ _. "[]";
  ports = λ _. "[]";
  indices = λ _. "[]";
  indices_in = λ _. [];
  ports_in = λ _. none;
}

abbrev floats : FloatOps
floats = record {
  lt = λ _ _. false;
  add = λ a _. a;
  mul = λ a _. a;
  div = λ a _. a;
  of_uint = λ n. n;
  tenths = λ n. n;
  infinity = 0;
}

abbrev call : Call
call = record { now = 30; id = "c-9"; name = "pp-torch-0a1b2c" }

checked_request : check_request request ≡ ok (record request { gpu_count = 2 })
unfolding check_request any
checked_request = refl

send_fails :
    (hand_off
      (record request { gpu_count = 2 })
      session
      "n1"
      "c-1"
      "trainer"
      30000
      (web ∷ [])
      (1 ∷ [])
      cut_off).0
    ≡ err (refusal 500 (of_send (says "stream closed")))
unfolding hand_off
send_fails = refl

hand_off-failed_example :
    (hand_off
      (record request { gpu_count = 2 })
      session
      "n1"
      "c-1"
      "trainer"
      30000
      (web ∷ [])
      (1 ∷ [])
      cut_off).1.manager.db
    ≡ calm (without "c-1" 30000 cluster)
hand_off-failed_example =
    hand_off-failed (record request { gpu_count = 2 }) session "n1" "c-1" "trainer" 30000 (web ∷ [])
      (1 ∷ []) cut_off cluster (refusal 500 (of_send (says "stream closed"))) refl send_fails

-- A pinned index that is held: the reply is 409, and the row and the port of the container that was
-- not created stay.
taken_leaks :
    (handle_create floats codec call
      (ok (record request { gpu_indices = 1 ∷ [] }))
      cut_off).1.manager.db.tables.port_alloc
    ≡ record { port = 30001; container_id = "c-9" } ∷ cluster.port_alloc
unfolding handle_create any get_node find keep
taken_leaks = refl

abbrev nobody : Master
nobody = record { manager = hub; proxy = proxy }

stop_refused : (stop_found 31 trainer nobody).0 ≡ err (refusal 500 (says_api "node offline"))
unfolding stop_found find
stop_refused = refl

stop_found-failed_example :
    (stop_found 31 trainer nobody).1.manager.db
    ≡ calm (stated 31 "c-1" "d1" "running" "running" cluster)
stop_found-failed_example =
    stop_found-failed 31 trainer nobody cluster (refusal 500 (says_api "node offline")) refl
      stop_refused

-- The master whose agent takes every command.
abbrev reachable : Master
reachable = record { manager = record hub { sessions = session ∷ [] }; proxy = proxy }

abbrev accepted : Created
accepted = record {
  container_id = "c-9";
  node_id = "n1";
  external_port = 30001;
  gpu_indices = 2 ∷ 3 ∷ [];
}

is_accepted : (handle_create floats codec call (ok request) reachable).0 ≡ ok accepted
unfolding handle_create any get_node find keep
is_accepted = refl

handle_create-IsGranted_example :
    IsGranted accepted (handle_create floats codec call (ok request) reachable).1
handle_create-IsGranted_example =
    handle_create-IsGranted floats codec call (ok request) reachable accepted is_accepted
