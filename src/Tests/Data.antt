-- ===== src/Tests/Data.antt =====
-- A node with four GPUs of which one is reserved, and the container that holds it.
use pumpkin_pie.Prelude.{[], ◌∷◌}
use pumpkin_pie.Store.Tables.{Node, Container, GpuRow, Tables}

abbrev pub worker : Node
worker = record {
  id = "n1";
  machine_id = "m1";
  name = "worker-1";
  hostname = "host-1";
  os = "linux";
  arch = "x86_64";
  agent_version = "1.2.3";
  state = "online";
  last_heartbeat = 5;
  registered_at = 5;
  cpu_percent = 0;
  cpu_cores = 8;
  mem_used_bytes = 10;
  mem_total_bytes = 100;
  disk_json = "";
  gpu_json = "";
  load1 = 0;
  gpu_count = 4;
  gpu_mem_used = 0;
  gpu_mem_total = 0;
  gpu_usage_avg = 0;
  metrics_at = 6;
}

abbrev pub trainer : Container
trainer = record {
  id = "c-1";
  node_id = "n1";
  docker_id = "d1";
  name = "trainer";
  image = "torch";
  state = "running";
  status = "running";
  env_json = "";
  cmd_json = "";
  ports_json = "";
  volume_binds = "";
  cpu_cores = 0;
  memory_bytes = 0;
  gpu_count = 1;
  gpu_indices_json = "[1]";
  external_port = 30000;
  created_at = 7;
  updated_at = 7;
}

abbrev pub idler : Container
idler = record trainer {
  id = "c-2";
  docker_id = "d2";
  gpu_count = 0;
  gpu_indices_json = "";
  external_port = 0;
}

abbrev pub held_row : GpuRow
held_row = record { node_id = "n1"; gpu_index = 1; container_id = "c-1"; allocated_at = 7 }

abbrev pub cluster : Tables
cluster = record {
  nodes = worker ∷ [];
  containers = idler ∷ trainer ∷ [];
  gpu_alloc = held_row ∷ [];
  port_alloc = record { port = 30000; container_id = "c-1" } ∷ [];
}
