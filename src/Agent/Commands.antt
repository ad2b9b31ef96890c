-- ===== src/Agent/Commands.antt =====
-- internal/agent/agent.go: the commands of the master, which the agent hands to its Docker client.
pub mod Acks
use pumpkin_pie.Prelude.{String, Bool, Option, none, some, List, [], ◌∷◌}
use pumpkin_pie.Exec.{Result, ok, err, Exec}
use pumpkin_pie.AgentMgr.Messages.{
  Ack, AgentMessage, container_created, container_stopped, container_started, MasterMessage,
  register_resp, create_container, stop_container, start_container, CreateContainerCommand,
  StopContainerCommand, StartContainerCommand,
}
use pumpkin_pie.Agent.{Agent, send}

-- What the agent asks of the Docker client, whose daemon has the state `D`.
pub record Docker (D : Type 0) : Type 0 where
  pub create : CreateContainerCommand → Exec D String String
  pub stop : String → Bool → Exec D String Unit
  pub start : String → Exec D String Unit

unfoldable pub acked : String → String → Result String Unit → Ack
acked container_id docker_id (ok done) = record {
  container_id = container_id;
  docker_id = docker_id;
  error = "";
}
acked container_id docker_id (err why) = record {
  container_id = container_id;
  docker_id = docker_id;
  error = why;
}

-- The client returns no id beside an error.
unfoldable pub acked_create : String → Result String String → Ack
acked_create container_id (ok docker_id) = record {
  container_id = container_id;
  docker_id = docker_id;
  error = "";
}
acked_create container_id (err why) = record {
  container_id = container_id;
  docker_id = "";
  error = why;
}

module _ {D : Type 0} (docker : Docker D) where
  unfoldable pub handle_create : CreateContainerCommand → D × Agent → D × Agent
  unfolding acked_create send
  handle_create c (d, a) =
      let (r, d') = docker.create c d in
      (d', (send (container_created (acked_create c.container_id r)) a).1)

  unfoldable pub handle_stop : StopContainerCommand → D × Agent → D × Agent
  unfolding acked send
  handle_stop c (d, a) =
      let (r, d') = docker.stop c.docker_id c.remove d in
      (d', (send (container_stopped (acked c.container_id c.docker_id r)) a).1)

  unfoldable pub handle_start : StartContainerCommand → D × Agent → D × Agent
  unfolding acked send
  handle_start c (d, a) =
      let (r, d') = docker.start c.docker_id d in
      (d', (send (container_started (acked c.container_id c.docker_id r)) a).1)

  -- handleMasterMessage, with the goroutine that it starts
  unfoldable pub handle_master_message : MasterMessage → D × Agent → D × Agent
  unfolding handle_create handle_stop handle_start
  handle_master_message (register_resp id is_ok why interval) s = s
  handle_master_message (create_container c) s = handle_create c s
  handle_master_message (stop_container c) s = handle_stop c s
  handle_master_message (start_container c) s = handle_start c s
