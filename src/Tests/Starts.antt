-- ===== src/Tests/Starts.antt =====
-- The start of the two roles.
use pumpkin_pie.Prelude.{find, ◌≡◌, refl, String, ◌==◌, none, some, [], if◌then◌else◌, true}
use pumpkin_pie.Exec.{ok, err}
use pumpkin_pie.Store.Tables.{calm}
use pumpkin_pie.Store.Nodes.{node_by_machine}
use pumpkin_pie.Config.{missing}
use pumpkin_pie.AgentMgr.Messages.{RegisterRequest}
use pumpkin_pie.AgentMgr.Register.{resolve_node_id}
use pumpkin_pie.Identity.Again.{steady}
use pumpkin_pie.Command.Master
use pumpkin_pie.Command.Master.{Ends, run-Ends}
use pumpkin_pie.Command.Node
use pumpkin_pie.Command.Node.{Launch, launches}
use pumpkin_pie.Command.Rejoin.{run-Rejoins}
use pumpkin_pie.Tests.Data.{cluster, worker}
use pumpkin_pie.Tests.Stores.{cluster-IsValid}
use pumpkin_pie.Tests.Agents.{hub}
use pumpkin_pie.Tests.Handlers.{proxy}

-- The gRPC port is taken.
abbrev busy_host : Master.Host
busy_host = record {
  decode = λ text c. ok c;
  disk = λ path. missing;
  open_store = λ path. ok (calm cluster);
  listen_grpc = λ address. some "address already in use";
  ports_in = λ text. none;
}

run-Ends_example : Ends busy_host proxy (Master.run busy_host "" proxy)
run-Ends_example = run-Ends busy_host proxy ""

abbrev node : Node.Host
node = record {
  env = record {
    docker_sock = "";
    docker_host = "";
    xdg_state_home = "";
    home = none;
    is_linux = true;
  };
  pp_config = "";
  hostname = ok "host-1";
  decode = λ text c. ok c;
  disk = λ path. missing;
  trim = λ s. if s == "m1\n" then "m1" else s;
  random = ok "m1";
  parse = λ s. err "no duration";
}

abbrev launch : String → Launch
launch name = record {
  master = "pp-master.internal:7000";
  name = name;
  machine_id = "m1";
  docker_sock = "/var/run/docker.sock";
  container_poll_interval = 10000000000;
  docker_events_enabled = true;
}

first_run : Node.run node [] (steady none 0) ≡ (launches (launch "host-1"), steady (some "m1\n") 0)
unfolding Node.run
first_run = refl

second_run :
    Node.run (record node { random = ok "zz"; hostname = ok "host-2" }) [] (steady (some "m1\n") 0)
    ≡ (launches (launch "host-2"), steady (some "m1\n") 0)
unfolding Node.run
second_run = refl

has_m1 : node_by_machine "m1" cluster ≡ some worker
unfolding node_by_machine find
has_m1 = refl

abbrev again : RegisterRequest
again = record {
  name = "host-2";
  hostname = "host-2";
  os = "linux";
  arch = "x86_64";
  agent_version = "1.2.4";
  docker_volumes = [];
  machine_id = "m1";
}

run-Rejoins_example :
    (resolve_node_id 9 again (ok "n7") (record hub { db = calm cluster })).0 ≡ ok "n1"
run-Rejoins_example =
    run-Rejoins node "m1" "zz" (ok "host-2") [] none 0 (launch "host-1") (launch "host-2")
      (steady (some "m1\n") 0) (steady (some "m1\n") 0) refl refl refl first_run second_run 9 again
      (ok "n7") hub cluster worker cluster-IsValid has_m1 refl
