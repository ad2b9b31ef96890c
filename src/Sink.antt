-- ===== src/Sink.antt =====
-- internal/master/metrics/greptime.go: what the metrics sink writes. The client's tables are a
-- parameter; an integer is carried as its 64-bit pattern.
pub mod Worker
use pumpkin_pie.Prelude.{
  ◌≡◌, refl, ℕ, ◌-◌, ◌^◌, ◌%◌, String, ◌==◌, Option, none, some, List, [], ◌∷◌, map, nat_eq,
  if◌then◌else◌,
}
use pumpkin_pie.Exec.{Result, ok, err, Exec}
use pumpkin_pie.Store.Tables.{Float64}
use pumpkin_pie.AgentMgr.Messages.{GpuDevice, DiskStats}
use pumpkin_pie.AgentMgr.State.{Metric}
use pumpkin_pie.Prelude.Texts.{trim_prefix}

-- The column types of the client.
pub data ColumnType : Type 0 where
  text : ColumnType
  float64 : ColumnType
  int32 : ColumnType
  int64 : ColumnType
  json : ColumnType
  timestamp_millisecond : ColumnType

pub data Column : Type 0 where
  tag : String → ColumnType → Column
  field : String → ColumnType → Column
  timestamp : String → Column

pub data Value : Type 0 where
  of_text : String → Value
  of_float : Float64 → Value
  of_int32 : ℕ → Value
  of_int64 : ℕ → Value
  of_disks : Option (List DiskStats) → Value
  of_gpus : Option (List GpuDevice) → Value
  of_time : ℕ → Value

-- greptimedb's table package and client, with the tables `T` and the database's state `D`.
pub record Client (T D : Type 0) : Type 0 where
  pub create : String → Result String T
  pub add_column : Column → T → Result String T
  pub add_row : List Value → T → Result String T
  pub write : T → Exec D String Unit

abbrev pub columns : List Column
columns =
    tag "node_id" text
    ∷ tag "node_name" text
    ∷ field "cpu_percent" float64
    ∷ field "cpu_cores" int32
    ∷ field "mem_used_bytes" int64
    ∷ field "mem_total_bytes" int64
    ∷ field "load1" float64
    ∷ field "gpu_count" int32
    ∷ field "gpu_usage_percent" float64
    ∷ field "gpu_mem_used_bytes" int64
    ∷ field "gpu_mem_total_bytes" int64
    ∷ field "disks" json
    ∷ field "gpus" json
    ∷ timestamp "ts"
    ∷ []

unfoldable pub disks_value : List DiskStats → Value
disks_value [] = of_disks none
disks_value (d ∷ ds) = of_disks (some (d ∷ ds))

unfoldable pub gpus_value : List GpuDevice → Value
gpus_value [] = of_gpus none
gpus_value (d ∷ ds) = of_gpus (some (d ∷ ds))

-- UnixMilli of the zero time
abbrev pub zero_time : ℕ
zero_time = 2 ^ 64 - 62135596800000

unfoldable pub row_of : ℕ → Metric → List Value
unfolding disks_value gpus_value
row_of now m =
    of_text m.node_id
    ∷ of_text m.node_name
    ∷ of_float m.cpu_percent
    ∷ of_int32 (m.cpu_cores % 2 ^ 32)
    ∷ of_int64 m.mem_used_bytes
    ∷ of_int64 m.mem_total_bytes
    ∷ of_float m.load1
    ∷ of_int32 (m.gpu_count % 2 ^ 32)
    ∷ of_float m.gpu_usage_avg
    ∷ of_int64 m.gpu_mem_used
    ∷ of_int64 m.gpu_mem_total
    ∷ disks_value m.disks
    ∷ gpus_value m.gpu_devices
    ∷ of_time (if nat_eq m.ts zero_time then now else m.ts)
    ∷ []

module _ {T D : Type 0} (client : Client T D) where
  unfoldable pub add_columns : List Column → T → Result String T
  add_columns [] t = ok t
  add_columns (c ∷ cs) t = elim (client.add_column c t) [
    | err why ↦ err why
    | ok t' ↦ add_columns cs t'
  ]

  -- buildTable
  unfoldable pub build_table : String → Result String T
  unfolding add_columns
  build_table name = elim (client.create name) [ err why ↦ err why | ok t ↦ add_columns columns t ]

  unfoldable pub written : Result String T → Exec D String Unit
  written (err why) d = (err why, d)
  written (ok t) d = client.write t d

  unfoldable pub add_row_to : List Value → Result String T → Result String T
  add_row_to row (err why) = err why
  add_row_to row (ok t) = client.add_row row t

  -- (*greptimeSink).Write
  unfoldable pub write : String → ℕ → Metric → Exec D String Unit
  unfolding build_table row_of add_row_to written
  write table now m d =
      if m.node_id == ""
      then (ok tt, d)
      else written (add_row_to (row_of now m) (build_table table)) d

-- metrics.Config of internal/master/metrics/metrics.go
pub record SinkConfig : Type 0 where
  pub url : String
  pub database : String
  pub username : String
  pub password : String
  pub table : String

-- The sinks: NoopSink, degradedSink and greptimeSink with its table.
pub data Sink (T D : Type 0) : Type 0 where
  noop : Sink T D
  degraded : String → Sink T D
  greptime : Client T D → String → Sink T D

unfoldable pub or_named : String → String → String
or_named default s = if s == "" then default else s

unfoldable pub of_client : {T D : Type 0} → String → Result String (Client T D) → Sink T D
of_client table (err why) = degraded why
of_client table (ok client) = greptime client table

-- newGreptimeSink and NewSink; `connect` is greptime.NewClient at an endpoint, a database, a user and
-- a password
unfoldable pub new_sink :
    {T D : Type 0}
    → (String → String → String → String → Result String (Client T D))
    → SinkConfig
    → Sink T D
unfolding or_named of_client trim_prefix
new_sink connect c =
    let endpoint = trim_prefix (trim_prefix c.url "http://") "https://" in
    let database = or_named "public" c.database in
    let made =
      of_client (or_named "node_metrics" c.table)
        (connect endpoint database c.username c.password) in
    if c.url == "" then noop else made

-- Write of each sink
unfoldable pub write_to : {T D : Type 0} → Sink T D → ℕ → Metric → Exec D String Unit
unfolding write
write_to noop now m d = (ok tt, d)
write_to (degraded why) now m d = (err why, d)
write_to (greptime client table) now m d = write client table now m d

abbrev pub column_type : Column → ColumnType
column_type (tag name t) = t
column_type (field name t) = t
column_type (timestamp name) = timestamp_millisecond

abbrev pub type_of : Value → ColumnType
type_of (of_text s) = text
type_of (of_float x) = float64
type_of (of_int32 n) = int32
type_of (of_int64 n) = int64
type_of (of_disks ds) = json
type_of (of_gpus ds) = json
type_of (of_time t) = timestamp_millisecond

disks_value-type : (ds : List DiskStats) → type_of (disks_value ds) ≡ json
unfolding disks_value
disks_value-type [] = refl
disks_value-type (d ∷ ds) = refl

gpus_value-type : (ds : List GpuDevice) → type_of (gpus_value ds) ≡ json
unfolding gpus_value
gpus_value-type [] = refl
gpus_value-type (d ∷ ds) = refl

-- The row that is written of a metric has a value for every column of the table, and each has the
-- type of its column, devices and disks included whether there are any or none.
pub row_of-columns : (now : ℕ) (m : Metric) → map type_of (row_of now m) ≡ map column_type columns
unfolding row_of
row_of-columns now m = rw (disks_value-type m.disks, gpus_value-type m.gpu_devices) refl
