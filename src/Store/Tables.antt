-- ===== src/Store/Tables.antt =====
-- internal/master/store/store.go: the rows of the four tables of `schema`, and the database.
-- A text column is a text, a time is a number with 0 for Go's zero time (and for NULL), and a
-- float64 is carried as its 64-bit pattern.
use pumpkin_pie.Prelude.{ℕ, String, Option, List, []}

abbrev pub Time : Type 0
Time = ℕ

abbrev pub Float64 : Type 0
Float64 = ℕ

pub record Node : Type 0 where
  pub id : String
  pub machine_id : String
  pub name : String
  pub hostname : String
  pub os : String
  pub arch : String
  pub agent_version : String
  pub state : String
  pub last_heartbeat : Time
  pub registered_at : Time
  pub cpu_percent : Float64
  pub cpu_cores : ℕ
  pub mem_used_bytes : ℕ
  pub mem_total_bytes : ℕ
  pub disk_json : String
  pub gpu_json : String
  pub load1 : Float64
  pub gpu_count : ℕ
  pub gpu_mem_used : ℕ
  pub gpu_mem_total : ℕ
  pub gpu_usage_avg : Float64
  pub metrics_at : Time

pub record Container : Type 0 where
  pub id : String
  pub node_id : String
  pub docker_id : String
  pub name : String
  pub image : String
  pub state : String
  pub status : String
  pub env_json : String
  pub cmd_json : String
  pub ports_json : String
  pub volume_binds : String
  pub cpu_cores : Float64
  pub memory_bytes : ℕ
  pub gpu_count : ℕ
  pub gpu_indices_json : String
  pub external_port : ℕ
  pub created_at : Time
  pub updated_at : Time

-- A row of `gpu_alloc`.
pub record GpuRow : Type 0 where
  pub node_id : String
  pub gpu_index : ℕ
  pub container_id : String
  pub allocated_at : Time

-- A row of `port_alloc`.
pub record PortRow : Type 0 where
  pub port : ℕ
  pub container_id : String

pub record Tables : Type 0 where
  pub nodes : List Node
  pub containers : List Container
  pub gpu_alloc : List GpuRow
  pub port_alloc : List PortRow

-- The database with an oracle of its failures: each statement, BEGIN and COMMIT takes the next
-- entry, and fails with that driver message if the entry has one. After the last entry all goes
-- well.
pub record Db : Type 0 where
  pub tables : Tables
  pub faults : List (Option String)

-- The database where the driver fails nothing more.
abbrev pub calm : Tables → Db
calm t = record { tables = t; faults = [] }

pub data Error : Type 0 where
  -- sql.ErrNoRows
  no_rows : Error
  -- a message of the SQL driver
  driver : String → Error
  -- ErrInsufficientGPUs, with the count requested, the count free and the total
  insufficient_gpus : ℕ → ℕ → ℕ → Error
  -- ErrGPUTaken, with the index and the node
  gpu_taken : ℕ → String → Error
  -- "no free port in [start,end]"
  no_free_port : ℕ → ℕ → Error
