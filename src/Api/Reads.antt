-- ===== src/Api/Reads.antt =====
-- internal/master/api/api.go: the handlers that read. `J` are the values of encoding/json.
use pumpkin_pie.Prelude.{
  ◌≡◌, refl, ℕ, ◌+◌, String, Bool, true, false, ◌==◌, Option, none, some, List, [], ◌∷◌, map, any,
  find, keep, nat_eq, upto, if◌then◌else◌,
}
use pumpkin_pie.Exec.{Result, ok, err, Exec, pure, ◌>>=◌}
use pumpkin_pie.Store.Tables.{Node, Container, Error, Float64}
use pumpkin_pie.Store.Sql.{Sql}
use pumpkin_pie.Store.Nodes.{list_nodes, get_node}
use pumpkin_pie.Store.Containers.{list_containers, get_container}
use pumpkin_pie.Store.Gpus.{gpu_usage_by_node, GpuAlloc, list_gpu_allocs_for_node}
use pumpkin_pie.Scheduler.{free_gpus_on}
use pumpkin_pie.AgentMgr.State.{Manager, online, Session}
use pumpkin_pie.AgentMgr.Messages.{PortMapping}
use pumpkin_pie.Api.State.{Master, Refusal, refusal, Api, Codec, of_store, answered, on_store}
pub mod Slots

-- The value of a call whose error is dropped (the zero value on one), and what follows.
unfoldable pub or_zero : {A B : Type 0} → A → (A → Api B) → Result Error A → Api B
or_zero zero next (ok a) s = next a s
or_zero zero next (err e) s = next zero s

unfoldable pub reading : {A B : Type 0} → A → Sql A → (A → Api B) → Api B
unfolding or_zero
reading zero call next s =
    let (r, db) = call s.manager.db in
    or_zero zero next r (record s { manager = record s.manager { db = db } })

-- A row of listNodes; `disks` and `gpus` are there where the node has reported some.
pub record NodeRow (J : Type 0) : Type 0 where
  pub node : Node
  pub gpu_used : ℕ
  pub gpu_free : ℕ
  pub disks : Option J
  pub gpus : Option J

-- A row of listContainers.
pub record ContainerRow : Type 0 where
  pub container : Container
  pub node_name : String
  pub env : Option (List String)
  pub cmd : Option (List String)
  pub ports : Option (List PortMapping)
  pub gpu_indices : Option (List ℕ)
  pub external_url : Option String

unfoldable pub decoded_if : {J : Type 0} → (String → J) → String → Option J
decoded_if decode text = if text == "" then none else some (decode text)

module _ {J : Type 0} (decode : String → J) where
  unfoldable pub live : List String → Node → Node
  unfolding any
  live ids n = if any (λ id. id == n.id) ids then record n { state = "online" } else n

  unfoldable pub node_row : List String → (String → ℕ) → Node → NodeRow J
  unfolding live free_gpus_on decoded_if
  node_row ids used n = record {
    node = live ids n;
    gpu_used = used n.id;
    gpu_free = free_gpus_on n used;
    disks = decoded_if decode n.disk_json;
    gpus = decoded_if decode n.gpu_json;
  }

  -- listNodes
  unfoldable pub handle_list_nodes : Api (List (NodeRow J))
  unfolding on_store list_nodes reading gpu_usage_by_node online node_row ◌>>=◌
  handle_list_nodes = on_store (λ e. refusal 500 (of_store e)) list_nodes >>= λ nodes.
      reading (λ id. 0) gpu_usage_by_node
        (λ used s. (ok (map (node_row (online s.manager) used) nodes), s))

-- getNode
unfoldable pub handle_get_node : String → Api Node
unfolding on_store get_node
handle_get_node id = on_store (λ e. refusal 404 (of_store e)) (get_node id)

-- listNodeContainers
unfoldable pub handle_list_node_containers : String → Api (List Container)
unfolding on_store list_containers keep ◌>>=◌
handle_list_node_containers id = on_store (λ e. refusal 500 (of_store e)) list_containers >>= λ cs.
    pure (keep (λ c. c.node_id == id) cs)

-- reportedGPU
pub record ReportedGpu : Type 0 where
  pub index : ℕ
  pub name : String
  pub uuid : String
  pub mem_total_bytes : ℕ

-- A row of listNodeGPUs.
pub record GpuSlot : Type 0 where
  pub index : ℕ
  pub reported : Option ReportedGpu
  pub held_by : Option GpuAlloc

unfoldable pub or_alloc : Option GpuAlloc → Bool → GpuAlloc → Option GpuAlloc
or_alloc (some b) here a = some b
or_alloc none here a = if here then some a else none

-- byIndex, in which a later reservation of an index replaces an earlier one
unfoldable pub by_index : List GpuAlloc → ℕ → Option GpuAlloc
unfolding or_alloc
by_index [] i = none
by_index (a ∷ later) i = or_alloc (by_index later i) (nat_eq a.index i) a

unfoldable pub slot : List ReportedGpu → List GpuAlloc → ℕ → GpuSlot
unfolding by_index find
slot reported allocs i = record {
  index = i;
  reported = find (λ r. nat_eq r.index i) reported;
  held_by = by_index allocs i;
}

-- `reported_in` is what json.Unmarshal leaves in the slice.
unfoldable pub reported_of : (String → List ReportedGpu) → Node → List ReportedGpu
reported_of reported_in n = if n.gpu_json == "" then [] else reported_in n.gpu_json

unfoldable pub slots : (String → List ReportedGpu) → Node → List GpuAlloc → List GpuSlot
unfolding reported_of slot upto
slots reported_in n allocs = map (slot (reported_of reported_in n) allocs) (upto 0 n.gpu_count)

-- listNodeGPUs
unfoldable pub handle_list_node_gpus : (String → List ReportedGpu) → String → Api (List GpuSlot)
unfolding on_store get_node list_gpu_allocs_for_node slots ◌>>=◌
handle_list_node_gpus reported_in id =
    on_store (λ e. refusal 404 (of_store e)) (get_node id) >>= λ n.
    on_store (λ e. refusal 500 (of_store e)) (list_gpu_allocs_for_node id) >>= λ allocs.
    pure (slots reported_in n allocs)

-- What json.Unmarshal leaves of the columns of a container (the indices none on an error), and
-- externalURL of the request.
pub record ColumnCodec : Type 0 where
  pub texts_in : String → List String
  pub ports_in : String → List PortMapping
  pub indices_in : String → Option (List ℕ)
  pub external_url : ℕ → String

-- nodeNames[id]: the ids are distinct, and a missing one is ""
unfoldable pub name_in : List Node → String → String
unfolding find
name_in nodes id = elim (find (λ n. n.id == id) nodes) [ none ↦ "" | some n ↦ n.name ]

unfoldable pub container_row : ColumnCodec → List Node → Container → ContainerRow
unfolding name_in decoded_if
container_row codec nodes c = record {
  container = c;
  node_name = name_in nodes c.node_id;
  env = decoded_if codec.texts_in c.env_json;
  cmd = decoded_if codec.texts_in c.cmd_json;
  ports = decoded_if codec.ports_in c.ports_json;
  gpu_indices = if c.gpu_indices_json == "" then none else codec.indices_in c.gpu_indices_json;
  external_url =
      if nat_eq c.external_port 0 then none else some (codec.external_url c.external_port);
}

-- listContainers
unfoldable pub handle_list_containers : ColumnCodec → Api (List ContainerRow)
unfolding on_store list_containers reading list_nodes container_row ◌>>=◌
handle_list_containers codec = on_store (λ e. refusal 500 (of_store e)) list_containers >>= λ cs.
    reading [] list_nodes (λ nodes s. (ok (map (container_row codec nodes) cs), s))

-- A reply of getContainer, whose other columns are the container's.
pub record ContainerView : Type 0 where
  pub container : Container
  pub gpu_indices : Option (List ℕ)
  pub external_url : Option String

unfoldable pub view_of : ColumnCodec → Container → ContainerView
view_of codec c = record {
  container = c;
  gpu_indices = if c.gpu_indices_json == "" then none else codec.indices_in c.gpu_indices_json;
  external_url =
      if nat_eq c.external_port 0 then none else some (codec.external_url c.external_port);
}

-- getContainer
unfoldable pub handle_get_container : ColumnCodec → String → Api ContainerView
unfolding on_store get_container view_of ◌>>=◌
handle_get_container codec id =
    on_store (λ e. refusal 404 (of_store e)) (get_container id) >>= λ c. pure (view_of codec c)
