-- ===== src/AgentMgr/Messages.antt =====
-- proto/agent.proto: the messages between an agent and the master. An optional message field is an
-- Option, as a pointer is in Go; int64 is carried as its 64-bit pattern.
use pumpkin_pie.Prelude.{ℕ, String, Bool, Option, List}
use pumpkin_pie.Store.Tables.{Float64}

pub record RegisterRequest : Type 0 where
  pub name : String
  pub hostname : String
  pub os : String
  pub arch : String
  pub agent_version : String
  pub docker_volumes : List String
  pub machine_id : String

pub record CpuStats : Type 0 where
  pub usage_percent : Float64
  pub cores : ℕ
  pub per_core_percent : List Float64

pub record MemoryStats : Type 0 where
  pub total_bytes : ℕ
  pub used_bytes : ℕ
  pub usage_percent : Float64

pub record DiskStats : Type 0 where
  pub path : String
  pub total_bytes : ℕ
  pub used_bytes : ℕ
  pub usage_percent : Float64

pub record GpuDevice : Type 0 where
  pub index : ℕ
  pub name : String
  pub uuid : String
  pub usage_percent : Float64
  pub mem_used_bytes : ℕ
  pub mem_total_bytes : ℕ

pub record GpuStats : Type 0 where
  pub count : ℕ
  pub devices : List GpuDevice
  pub usage_percent : Float64
  pub mem_used_bytes : ℕ
  pub mem_total_bytes : ℕ

pub record LoadAvg : Type 0 where
  pub load1 : Float64
  pub load5 : Float64
  pub load15 : Float64

pub record MetricReport : Type 0 where
  pub ts_unix_ms : ℕ
  pub cpu : Option CpuStats
  pub memory : Option MemoryStats
  pub disks : List DiskStats
  pub gpu : Option GpuStats
  pub load : Option LoadAvg

-- ContainerCreated, ContainerStarted and ContainerStopped have the same fields.
pub record Ack : Type 0 where
  pub container_id : String
  pub docker_id : String
  pub error : String

pub record ContainerStateChanged : Type 0 where
  pub container_id : String
  pub docker_id : String
  pub action : String
  pub state : String
  pub status : String
  pub ts_unix_ms : ℕ

pub data AgentMessage : Type 0 where
  register : RegisterRequest → AgentMessage
  heartbeat : ℕ → AgentMessage
  metrics : MetricReport → AgentMessage
  container_created : Ack → AgentMessage
  container_stopped : Ack → AgentMessage
  container_started : Ack → AgentMessage
  container_state_changed : ContainerStateChanged → AgentMessage

pub record PortMapping : Type 0 where
  pub container_port : ℕ
  pub protocol : String
  pub host_port : ℕ

-- The fields that an agent fills in.
pub record ContainerInfo : Type 0 where
  pub container_id : String
  pub docker_id : String
  pub name : String
  pub image : String
  pub state : String
  pub status : String
  pub ports : List PortMapping

pub record ResourceSpec : Type 0 where
  pub cpu_cores : Float64
  pub memory_bytes : ℕ
  pub gpu_count : ℕ
  pub gpu_device_ids : List ℕ

pub record CreateContainerCommand : Type 0 where
  pub container_id : String
  pub image : String
  pub env : List String
  pub cmd : List String
  pub volume_binds : List String
  pub ports : List PortMapping
  pub resources : ResourceSpec
  pub name : String
  pub pull : Bool

pub record StopContainerCommand : Type 0 where
  pub container_id : String
  pub docker_id : String
  pub remove : Bool

pub record StartContainerCommand : Type 0 where
  pub container_id : String
  pub docker_id : String

-- The payloads that the master sends.
pub data MasterMessage : Type 0 where
  register_resp : String → Bool → String → ℕ → MasterMessage
  create_container : CreateContainerCommand → MasterMessage
  stop_container : StopContainerCommand → MasterMessage
  start_container : StartContainerCommand → MasterMessage
