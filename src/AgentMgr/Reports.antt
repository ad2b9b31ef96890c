-- ===== src/AgentMgr/Reports.antt =====
-- internal/master/agentmgr/manager.go, handleMetrics: what a metric report leaves in the row and in
-- the sink's queue. encoding/json is a parameter.
use pumpkin_pie.Prelude.{
  ℕ, ◌-◌, ◌^◌, String, ◌==◌, Option, none, some, List, [], ◌∷◌, nat_eq, if◌then◌else◌,
}
use pumpkin_pie.Exec.{Result, ok, err}
use pumpkin_pie.Store.Tables.{Node, Error, Time}
use pumpkin_pie.Store.Nodes.{update_node_metrics}
use pumpkin_pie.AgentMgr.Messages.{
  GpuDevice, DiskStats, GpuStats, CpuStats, MemoryStats, LoadAvg, MetricReport,
}
use pumpkin_pie.AgentMgr.State.{Metric, Session, Manager, publish, enqueue_metric}

-- json.Marshal of the device and the disk maps, and json.Unmarshal of the disks; `none` is an error.
pub record Json : Type 0 where
  pub marshal_devices : List GpuDevice → Option String
  pub marshal_disks : List DiskStats → Option String
  pub unmarshal_disks : String → Option (List DiskStats)

-- encodeJSON: "" beside an error
unfoldable pub encoded : Option String → String
encoded none = ""
encoded (some text) = text

-- DecodeDisks
unfoldable pub decode_disks : Json → String → List DiskStats
decode_disks json text =
    if text == "" then [] else elim (json.unmarshal_disks text) [ none ↦ [] | some raw ↦ raw ]

-- &store.Node{ID: s.NodeID}
abbrev pub blank_node : String → Node
blank_node id = record {
  id = id;
  machine_id = "";
  name = "";
  hostname = "";
  os = "";
  arch = "";
  agent_version = "";
  state = "";
  last_heartbeat = 0;
  registered_at = 0;
  cpu_percent = 0;
  cpu_cores = 0;
  mem_used_bytes = 0;
  mem_total_bytes = 0;
  disk_json = "";
  gpu_json = "";
  load1 = 0;
  gpu_count = 0;
  gpu_mem_used = 0;
  gpu_mem_total = 0;
  gpu_usage_avg = 0;
  metrics_at = 0;
}

unfoldable pub with_cpu : Option CpuStats → Node → Node
with_cpu none n = n
with_cpu (some cpu) n = record n { cpu_percent = cpu.usage_percent; cpu_cores = cpu.cores }

unfoldable pub with_memory : Option MemoryStats → Node → Node
with_memory none n = n
with_memory (some mem) n = record n {
  mem_used_bytes = mem.used_bytes;
  mem_total_bytes = mem.total_bytes;
}

unfoldable pub with_load : Option LoadAvg → Node → Node
with_load none n = n
with_load (some load) n = record n { load1 = load.load1 }

unfoldable pub with_gpu : Json → Option GpuStats → Node → Node
unfolding encoded
with_gpu json none n = n
with_gpu json (some gpu) n = record n {
  gpu_count = gpu.count;
  gpu_mem_used = gpu.mem_used_bytes;
  gpu_mem_total = gpu.mem_total_bytes;
  gpu_usage_avg = gpu.usage_percent;
  gpu_json = encoded (json.marshal_devices gpu.devices);
}

unfoldable pub with_disks : Json → List DiskStats → Node → Node
unfolding encoded
with_disks json [] n = n
with_disks json (d ∷ ds) n = record n { disk_json = encoded (json.marshal_disks (d ∷ ds)) }

unfoldable pub reported_node : Json → String → MetricReport → Node
unfolding with_cpu with_memory with_load with_gpu with_disks
reported_node json id r =
    with_disks json r.disks (
      with_gpu json r.gpu
        (with_load r.load (with_memory r.memory (with_cpu r.cpu (blank_node id)))))

-- The milliseconds of Go's zero time, 62135596800000 before 1970, as a 64-bit pattern.
abbrev pub zero_time_ms : ℕ
zero_time_ms = 2 ^ 64 - 62135596800000

unfoldable pub devices_of : Option GpuStats → List GpuDevice
devices_of none = []
devices_of (some gpu) = gpu.devices

-- metricFromReport, at the report of a call of handleMetrics
unfoldable pub metric_from_report : Json → ℕ → String → String → Node → MetricReport → Metric
unfolding decode_disks devices_of
metric_from_report json now_ms id name n r = record {
  node_id = id;
  node_name = name;
  cpu_percent = n.cpu_percent;
  cpu_cores = n.cpu_cores;
  mem_used_bytes = n.mem_used_bytes;
  mem_total_bytes = n.mem_total_bytes;
  load1 = n.load1;
  gpu_count = n.gpu_count;
  gpu_usage_avg = n.gpu_usage_avg;
  gpu_mem_used = n.gpu_mem_used;
  gpu_mem_total = n.gpu_mem_total;
  gpu_devices = devices_of r.gpu;
  disks = decode_disks json n.disk_json;
  ts = if nat_eq r.ts_unix_ms zero_time_ms then now_ms else r.ts_unix_ms;
}

-- if err := UpdateNodeMetrics(…); err == nil
unfoldable pub publish_metrics : Time → Node → Result Error Unit → Manager → Manager
unfolding publish
publish_metrics now n (ok _) m =
    publish (record { node_id = n.id; kind = "metrics"; at_time = now; snapshot = some n }) m
publish_metrics now n (err e) m = m

unfoldable pub store_metrics : Time → Node → Manager → Manager
unfolding publish_metrics update_node_metrics
store_metrics now n m =
    let (r, db) = update_node_metrics now n m.db in publish_metrics now n r (record m { db = db })

unfoldable pub handle_metrics : Json → Time → ℕ → Session → MetricReport → Manager → Manager
unfolding reported_node store_metrics enqueue_metric metric_from_report
handle_metrics json now now_ms s r m =
    let n = reported_node json s.node_id r in
    enqueue_metric (metric_from_report json now_ms s.node_id s.node_name n r)
      (store_metrics now n m)
