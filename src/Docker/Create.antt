-- ===== src/Docker/Create.antt =====
-- internal/agent/docker/client.go: Create, from the command to the container that runs.
use pumpkin_pie.Prelude.{
  ℕ, String, ◌<>◌, Bool, true, false, ◌==◌, Option, none, some, List, [], ◌∷◌, map, nat_eq,
  if◌then◌else◌,
}
use pumpkin_pie.Prelude.Texts.{decimal}
use pumpkin_pie.Prelude.Dicts.{Dict, insert}
use pumpkin_pie.Exec.{Result, ok, err, Exec}
use pumpkin_pie.AgentMgr.Messages.{CreateContainerCommand, PortMapping, ResourceSpec}
use pumpkin_pie.Docker.{
  DeviceRequest, of_ids, of_count, CreateBody, Engine, no_body, create_body, do_request,
  image_exists, pull,
}

unfoldable pub pull_failure : String → String → String
pull_failure label why = "pull " <> label <> ": " <> why

-- proto and hostPort of the loop over cmd.Ports
unfoldable pub port_key : PortMapping → String
port_key p = decimal p.container_port <> "/" <> (if p.protocol == "" then "tcp" else p.protocol)

unfoldable pub bound_port : PortMapping → ℕ
bound_port p = if nat_eq p.host_port 0 then p.container_port else p.host_port

unfoldable pub port_bindings_of : List PortMapping → Dict String → Dict String
unfolding port_key bound_port insert
port_bindings_of [] m = m
port_bindings_of (p ∷ ps) m = port_bindings_of ps (insert (port_key p) (decimal (bound_port p)) m)

unfoldable pub keys_of : Dict String → List String
keys_of m = map (λ e. e.0) m

unfoldable pub device_request : ResourceSpec → Option DeviceRequest
device_request r = if nat_eq r.gpu_count 0 then none else elim r.gpu_device_ids [
  | [] ↦ some (of_count r.gpu_count)
  | i ∷ is ↦ some (of_ids (decimal i ∷ map decimal is))
]

unfoldable pub on_started : {D : Type 0} → String → Result String String → Exec D String String
on_started id (ok body) d = (ok id, d)
on_started id (err why) d = (err why, d)

module _ {D : Type 0} (engine : Engine D) where
  -- CpuQuota, with a CpuPeriod of 100000
  unfoldable pub cpu_quota_of : ResourceSpec → Option ℕ
  cpu_quota_of r =
      let cores = r.cpu_cores in
      if engine.floats.lt 0 cores
      then some (engine.to_int64 (engine.floats.mul cores (engine.floats.of_uint 100000)))
      else none

  unfoldable pub body_of : CreateContainerCommand → CreateBody
  unfolding port_bindings_of keys_of cpu_quota_of device_request
  body_of c =
      let bindings = port_bindings_of c.ports [] in
      record {
        image = c.image;
        env = c.env;
        cmd = c.cmd;
        exposed_ports = keys_of bindings;
        port_bindings = bindings;
        binds = c.volume_binds;
        container_id = c.container_id;
        name = if c.name == "" then none else some c.name;
        cpu_quota = cpu_quota_of c.resources;
        memory = if nat_eq c.resources.memory_bytes 0 then none else some c.resources.memory_bytes;
        device_requests = device_request c.resources;
      }

  -- The start that ends Create.
  unfoldable pub start_created : String → Exec D String String
  unfolding on_started do_request
  start_created id d =
      let (r, d') = do_request engine "POST" ("/containers/" <> id <> "/start") no_body d in
      on_started id r d'

  -- What follows the decoding of the answer to the create.
  unfoldable pub on_id : String → Result String String → Exec D String String
  unfolding start_created
  on_id body (err why) d = (err why, d)
  on_id body (ok id) d =
      if id == "" then (err ("empty container id; response: " <> body), d) else start_created id d

  unfoldable pub on_created : Result String String → Exec D String String
  unfolding on_id
  on_created (err why) d = (err why, d)
  on_created (ok body) d = on_id body (engine.id_of body) d

  unfoldable pub create_and_start : CreateContainerCommand → Exec D String String
  unfolding on_created body_of do_request
  create_and_start c d =
      let (r, d') = do_request engine "POST" "/containers/create" (create_body (body_of c)) d in
      on_created r d'

  unfoldable pub on_pull :
      String → CreateContainerCommand → Result String Unit → Exec D String String
  unfolding pull_failure create_and_start
  on_pull label c (err why) d = (err (pull_failure label why), d)
  on_pull label c (ok done) d = create_and_start c d

  -- The pull policy where the command does not ask for a pull.
  unfoldable pub if_not_present : CreateContainerCommand → Result String Bool → Exec D String String
  unfolding pull on_pull create_and_start
  if_not_present c (err why) d = create_and_start c d
  if_not_present c (ok true) d = create_and_start c d
  if_not_present c (ok false) d =
      let (r, d') = pull engine c.image d in on_pull (c.image <> " (IfNotPresent)") c r d'

  unfoldable pub create : CreateContainerCommand → Exec D String String
  unfolding pull image_exists on_pull if_not_present
  create c d =
      let (pulled, d₁) = pull engine c.image d in
      let (exists, d₂) = image_exists engine c.image d in
      if c.pull then on_pull c.image c pulled d₁ else if_not_present c exists d₂
