-- ===== src/Api/Checks.antt =====
-- internal/master/api/api.go: the request of createContainer and its checks, and
-- portMappingsToProto of util.go.
use pumpkin_pie.Prelude.{
  ℕ, ◌%◌, ◌^◌, String, Bool, true, false, not, ◌&&◌, ◌==◌, Option, none, some, List, [], ◌∷◌, map,
  any, length, nat_eq, if◌then◌else◌,
}
use pumpkin_pie.Exec.{Result, ok, err}
use pumpkin_pie.Store.Tables.{Float64}
use pumpkin_pie.AgentMgr.Messages.{PortMapping}
use pumpkin_pie.Api.State.{Refusal, refusal, says, duplicate_index, count_disagrees}

-- createContainerReq; its port mappings have the fields of PortMapping
pub record CreateContainerReq : Type 0 where
  pub image : String
  pub name : String
  pub env : List String
  pub cmd : List String
  pub volume_binds : List String
  pub port_mappings : List PortMapping
  pub cpu_cores : Float64
  pub memory_bytes : ℕ
  pub gpu_count : ℕ
  pub gpu_indices : List ℕ
  pub node_id : String
  pub pull : Bool
  pub external_port : ℕ

unfoldable pub is_empty : {A : Type 0} → List A → Bool
is_empty [] = true
is_empty (x ∷ xs) = false

-- protocol defaults to "tcp", the host port to the container's
unfoldable pub protocol_or_tcp : String → String
protocol_or_tcp protocol = if protocol == "" then "tcp" else protocol

unfoldable pub host_port_or : ℕ → ℕ → ℕ
host_port_or container_port host_port = if nat_eq host_port 0 then container_port else host_port

-- portMappingsToProto
unfoldable pub to_proto : PortMapping → PortMapping
to_proto p = record {
  container_port = p.container_port;
  protocol = protocol_or_tcp p.protocol;
  host_port = host_port_or p.container_port p.host_port;
}

unfoldable pub port_mappings_to_proto : List PortMapping → List PortMapping
unfolding to_proto
port_mappings_to_proto = map to_proto

-- for _, idx := range req.GPUIndices, with `seen` the map of those before
unfoldable pub first_duplicate : List ℕ → List ℕ → Option ℕ
first_duplicate seen [] = none
first_duplicate seen (i ∷ is) =
    let rest = first_duplicate (i ∷ seen) is in if any (nat_eq i) seen then some i else rest

unfoldable pub count_pins : CreateContainerReq → Option ℕ → Result Refusal CreateContainerReq
count_pins req (some i) = err (refusal 400 (duplicate_index i))
count_pins req none =
    let pinned = length req.gpu_indices % 2 ^ 32 in
    if not (nat_eq req.gpu_count 0) && not (nat_eq req.gpu_count pinned)
    then err (refusal 400 (count_disagrees req.gpu_count (length req.gpu_indices)))
    else ok (record req { gpu_count = pinned })

-- The checks on the image and on the pinned indices, which set the count.
unfoldable pub check_request : CreateContainerReq → Result Refusal CreateContainerReq
unfolding is_empty first_duplicate count_pins
check_request req =
    if req.image == ""
    then err (refusal 400 (says "image is required"))
    else if is_empty req.gpu_indices
    then ok req
    else if req.node_id == ""
    then err
        (refusal 400 (says "gpu_indices requires node_id (pin a node when picking specific GPUs)"))
    else count_pins req (first_duplicate [] req.gpu_indices)
