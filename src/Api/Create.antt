-- ===== src/Api/Create.antt =====
-- internal/master/api/api.go: createContainer.
use pumpkin_pie.Prelude.{ℕ, String, not, ◌&&◌, List, [], ◌∷◌, nat_eq, if◌then◌else◌}
use pumpkin_pie.Exec.{Result, ok, err, pure, raise, ◌>>=◌, ◌>>◌}
use pumpkin_pie.Float.{FloatOps}
use pumpkin_pie.Store.Tables.{
  Node, Container, Error, Time, no_rows, driver, insufficient_gpus, gpu_taken, no_free_port,
}
use pumpkin_pie.Store.Containers.{insert_container, delete_container, update_container_gpu_indices}
use pumpkin_pie.Store.Ports.{alloc_port, free_port}
use pumpkin_pie.Store.Gpus.{alloc_gpus, alloc_specific_gpus, free_gpus}
use pumpkin_pie.AgentMgr.Messages.{PortMapping, CreateContainerCommand, create_container}
use pumpkin_pie.AgentMgr.State.{Session}
use pumpkin_pie.Api.State.{
  Master, Refusal, refusal, Api, Codec, says, of_store, while_doing, on_store, best_effort, doing,
  send_to, session_for, publish_port,
}
use pumpkin_pie.Api.Checks.{CreateContainerReq, is_empty, port_mappings_to_proto, check_request}
use pumpkin_pie.Api.Placement.{settled, pick_node}

-- The external port: the one asked for, or an allocated one if there are ports.
unfoldable pub external_port : CreateContainerReq → String → Api ℕ
unfolding on_store alloc_port is_empty pure
external_port req id =
    if nat_eq req.external_port 0 && not (is_empty req.port_mappings)
    then on_store (λ e. refusal 500 (while_doing "alloc port: " e)) (alloc_port 30000 32767 id)
    else pure req.external_port

unfoldable pub free_external : ℕ → Master → Master
unfolding best_effort free_port
free_external port s = if nat_eq port 0 then s else best_effort (free_port port) s

unfoldable pub finally :
    {A : Type 0} → (Master → Master) → Result Refusal A × Master → Result Refusal A × Master
finally undo (ok a, s) = (ok a, s)
finally undo (err e, s) = (err e, undo s)

-- An action with what is to be undone if it fails.
unfoldable pub undoing : {A : Type 0} → (Master → Master) → Api A → Api A
unfolding finally
undoing undo action s = finally undo (action s)

unfoldable pub insert_row : Time → Container → Api Unit
unfolding undoing free_external on_store insert_container
insert_row now c =
    undoing (free_external c.external_port)
      (on_store (λ e. refusal 500 (of_store e)) (insert_container now c))

-- The status of a failed reservation.
unfoldable pub gpu_refusal : Error → Refusal
gpu_refusal (insufficient_gpus requested free total) =
    refusal 409 (of_store (insufficient_gpus requested free total))
gpu_refusal (gpu_taken index node) = refusal 409 (of_store (gpu_taken index node))
gpu_refusal no_rows = refusal 500 (of_store no_rows)
gpu_refusal (driver message) = refusal 500 (of_store (driver message))
gpu_refusal (no_free_port start end) = refusal 500 (of_store (no_free_port start end))

unfoldable pub persist_indices : Codec → Time → String → List ℕ → Api (List ℕ)
unfolding on_store update_container_gpu_indices ◌>>=◌ pure
persist_indices codec now id [] = pure []
persist_indices codec now id (i ∷ is) =
    on_store (λ e. refusal 500 (while_doing "persist gpu indices: " e))
      (update_container_gpu_indices now id (codec.indices (i ∷ is)))
    >> pure (i ∷ is)

-- Reserve GPUs
unfoldable pub reserve_gpus : Codec → Time → CreateContainerReq → Node → String → Api (List ℕ)
unfolding persist_indices on_store alloc_gpus alloc_specific_gpus gpu_refusal is_empty ◌>>=◌ pure
reserve_gpus codec now req n id =
    if nat_eq req.gpu_count 0
    then pure []
    else ((if is_empty req.gpu_indices
          then on_store gpu_refusal (alloc_gpus now n.id id req.gpu_count n.gpu_count)
          else (on_store gpu_refusal (alloc_specific_gpus now n.id id req.gpu_indices)
              >> pure req.gpu_indices))
        >>= persist_indices codec now id)

-- The deferred cleanup.
unfoldable pub clean_up : CreateContainerReq → String → ℕ → Master → Master
unfolding free_external best_effort free_gpus delete_container
clean_up req id port s =
    let freed = if nat_eq req.gpu_count 0 then s else best_effort (free_gpus id) s in
    free_external port (best_effort (delete_container id) freed)

unfoldable pub expose : ℕ → String → String → List PortMapping → Master → Master
unfolding publish_port
expose port id node [] s = s
expose port id node (p ∷ ps) s =
    if nat_eq port 0 then s else publish_port port id node p.host_port s

-- The row that is inserted.
unfoldable pub new_container :
    Codec → CreateContainerReq → List PortMapping → String → String → String → ℕ → Container
new_container codec req ports node id name port = record {
  id = id;
  node_id = node;
  docker_id = "";
  name = name;
  image = req.image;
  state = "starting";
  status = "starting";
  env_json = codec.texts req.env;
  cmd_json = codec.texts req.cmd;
  ports_json = codec.ports ports;
  volume_binds = codec.texts req.volume_binds;
  cpu_cores = req.cpu_cores;
  memory_bytes = req.memory_bytes;
  gpu_count = req.gpu_count;
  gpu_indices_json = "";
  external_port = port;
  created_at = 0;
  updated_at = 0;
}

unfoldable pub create_command :
    CreateContainerReq → List PortMapping → String → String → List ℕ → CreateContainerCommand
create_command req ports id name indices = record {
  container_id = id;
  image = req.image;
  env = req.env;
  cmd = req.cmd;
  volume_binds = req.volume_binds;
  ports = ports;
  resources = record {
    cpu_cores = req.cpu_cores;
    memory_bytes = req.memory_bytes;
    gpu_count = req.gpu_count;
    gpu_device_ids = indices;
  };
  name = name;
  pull = req.pull;
}

-- The reply: the id, the node, the external port and the indices.
pub record Created : Type 0 where
  pub container_id : String
  pub node_id : String
  pub external_port : ℕ
  pub gpu_indices : List ℕ

-- The route, the listener and the command, under the deferred cleanup.
unfoldable pub hand_off :
    CreateContainerReq
    → Session
    → String
    → String
    → String
    → ℕ
    → List PortMapping
    → List ℕ
    → Api Created
unfolding undoing clean_up doing expose send_to create_command ◌>>=◌ pure
hand_off req session node id name port ports indices = undoing (clean_up req id port) (
    doing (expose port id node ports)
    >> (send_to session (create_container (create_command req ports id name indices))
        >> pure (record {
          container_id = id;
          node_id = node;
          external_port = port;
          gpu_indices = indices;
        })))

-- What a call brings with it: the clock, newContainerID's id, and the name that autoName and
-- sanitizeContainerName make of the request's.
pub record Call : Type 0 where
  pub now : Time
  pub id : String
  pub name : String

-- From the checked request on.
unfoldable pub create_checked : FloatOps → Codec → Call → CreateContainerReq → Api Created
unfolding pick_node session_for port_mappings_to_proto external_port insert_row new_container
    reserve_gpus hand_off ◌>>=◌
create_checked ops codec call req = do
  node ← pick_node ops req
  session ← session_for "target node not online" node.id
  port ← external_port req call.id
  _ ← insert_row call.now (
      new_container codec req (port_mappings_to_proto req.port_mappings) node.id call.id call.name
        port)
  indices ← reserve_gpus codec call.now req node call.id
  hand_off req session node.id call.id call.name port (port_mappings_to_proto req.port_mappings)
      indices

-- createContainer, from what BindJSON made of the body
unfoldable pub handle_create :
    FloatOps → Codec → Call → Result String CreateContainerReq → Api Created
unfolding check_request settled create_checked ◌>>=◌ raise
handle_create ops codec call (err why) = raise (refusal 400 (says why))
handle_create ops codec call (ok req) =
    settled (check_request req) >>= create_checked ops codec call
