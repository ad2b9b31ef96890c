-- ===== src/Tests/Hosts.antt =====
-- The collector and the machine's id.
use pumpkin_pie.Prelude.{
  ◌⊎◌, ◌≡◌, refl, String, ◌==◌, none, some, List, [], ◌∷◌, All, if◌then◌else◌, false, ◌+◌, ◌≤◌,
}
use pumpkin_pie.Prelude.Rows.{Distinct}
use pumpkin_pie.Exec.{ok}
use pumpkin_pie.Collector.Mounts.{PartitionStat, filter_partitions}
use pumpkin_pie.Collector.Partitions.{same_device, IsKept, filter_partitions-Distinct}
use pumpkin_pie.Store.Tables.{Container}
use pumpkin_pie.Api.Names.{is_kept, is_lower, is_digit, is_dash, sanitize_container_name, auto_name}
use pumpkin_pie.Api.Names.Legal.{is_legal, IsLegal, IsName, sanitize_container_name-IsName}
use pumpkin_pie.Prelude.Texts.{every}
use pumpkin_pie.AgentMgr.State.{Metric, NodeUpdate}
use pumpkin_pie.Api.Websocket.{Feed, relay_all, Relays, relay_all-Relays}
use pumpkin_pie.Proxy.{upstream}
use pumpkin_pie.Proxy.Startup.{PortsIn, rebind_all, restored, rebind_all-upstream}
use pumpkin_pie.Tests.Data.{trainer, idler}
use pumpkin_pie.Tests.Agents.{session, hub}
use pumpkin_pie.Tests.Handlers.{proxy}
use pumpkin_pie.Identity.{Dir, load}
use pumpkin_pie.Identity.Again.{steady, id_in, load-again}
use pumpkin_pie.Identity.Failing.{failures, load-failed}

abbrev parts : List PartitionStat
parts =
    record { device = "/dev/sda1"; mountpoint = "/mnt/bind"; fstype = "ext4" }
    ∷ record { device = "/dev/sda1"; mountpoint = "/"; fstype = "ext4" }
    ∷ record { device = "/dev/loop0"; mountpoint = "/snap/core"; fstype = "squashfs" }
    ∷ []

abbrev same_case : String → String
same_case s = s

filter_partitions-Distinct_example :
    (Distinct same_device (filter_partitions same_case parts))
    × (All (IsKept same_case) (filter_partitions same_case parts))
filter_partitions-Distinct_example = filter_partitions-Distinct same_case parts

abbrev trim : String → String
trim s = if s == "00ff\n" then "00ff" else s

load-again_example :
    ((load trim (ok "00ff") "/var/lib/pp" (steady none 0)).0 ≡ ok (id_in trim "00ff" none))
    × ((load trim
          (ok "beef")
          "/var/lib/pp"
          (load trim (ok "00ff") "/var/lib/pp" (steady none 0)).1).0
        ≡ ok (id_in trim "00ff" none))
load-again_example = load-again trim "00ff" "beef" "/var/lib/pp" none 0 refl refl refl

-- The rename fails.
abbrev full : Dir
full = record {
  content = none;
  temps = 0;
  faults = none ∷ none ∷ none ∷ none ∷ none ∷ none ∷ some "EIO" ∷ [];
}

load-failed_example :
    let after = (load trim (ok "00ff") "/p" full).1 in
    (after.content ≡ full.content)
    × ((after.temps ≡ full.temps)
        ⊎ ((after.temps ≡ full.temps + 1) × (failures after.faults + 2 ≤ failures full.faults)))
unfolding load
load-failed_example = load-failed trim (ok "00ff") "/p" "rename to /p/machine-id: EIO" full refl

abbrev ports_in : PortsIn
ports_in text = some (record { container_port = 80; protocol = "tcp"; host_port = 8080 } ∷ [])

abbrev persisted : Container
persisted = record trainer { ports_json = "[…]" }

rebind_all-upstream_example :
    upstream 30000 (session ∷ []) (rebind_all ports_in (persisted ∷ idler ∷ []) proxy)
    ≡ restored ports_in 30000
        (session ∷ [])
        (persisted ∷ idler ∷ [])
        (upstream 30000 (session ∷ []) proxy)
rebind_all-upstream_example =
    rebind_all-upstream ports_in 30000 (session ∷ []) (persisted ∷ idler ∷ []) proxy

x7t2c0-IsLegal : IsLegal "x7t2c0"
unfolding every is_legal is_kept is_lower is_digit is_dash
x7t2c0-IsLegal = refl

sanitize_container_name-IsName_example :
    IsName "x7t2c0" x7t2c0-IsLegal refl 65 (sanitize_container_name same_case "x7t2c0" "_My Model!")
sanitize_container_name-IsName_example =
    sanitize_container_name-IsName "x7t2c0" x7t2c0-IsLegal refl same_case "_My Model!"

-- The registry is dropped, though the comment of autoName shows it kept.
auto_name_registry : auto_name same_case "aaaaaa" "x7t2c0" "myregistry.io/app:1" ≡ "pp-app-1-x7t2c0"
unfolding auto_name
auto_name_registry = refl

abbrev metric : Metric
metric = record {
  node_id = "n1";
  node_name = "worker-1";
  cpu_percent = 0;
  cpu_cores = 8;
  mem_used_bytes = 10;
  mem_total_bytes = 100;
  load1 = 0;
  gpu_count = 0;
  gpu_usage_avg = 0;
  gpu_mem_used = 0;
  gpu_mem_total = 0;
  gpu_devices = [];
  disks = [];
  ts = 5;
}

abbrev gone_update : NodeUpdate
gone_update = record { node_id = "n1"; kind = "state"; at_time = 30; snapshot = none }

abbrev feed : Feed
feed = record { manager = record hub { updates = gone_update ∷ [] }; written = [] }

relay_all-Relays_example :
    Relays ((1, false) ∷ (2, false) ∷ []) feed (relay_all ((1, false) ∷ (2, false) ∷ []) feed)
relay_all-Relays_example = relay_all-Relays ((1, false) ∷ (2, false) ∷ []) feed
