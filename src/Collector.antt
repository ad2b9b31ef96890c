-- ===== src/Collector.antt =====
-- internal/agent/collector/collector.go: the metrics of a node. What gopsutil and nvidia-smi say is a
-- parameter, and so are the parsing of numbers (strconv) and the operations of float64.
use Prim.Native.Char.{Char, code, nul}
use Prim.Native.String.{len, compare}
use pumpkin_pie.Prelude.{
  ℕ, ◌+◌, ◌-◌, ◌*◌, ◌%◌, ◌^◌, String, ◌<>◌, Bool, true, false, not, ◌||◌, ◌&&◌, ◌==◌, Option, none,
  some, List, [], ◌∷◌, map, any, keep, length, ltb, leb, nat_eq, if◌then◌else◌,
}
use text.Mathlib.Text.{starts_with, is_lt}
use pumpkin_pie.Prelude.Dicts.{Dict, lookup, insert}
use pumpkin_pie.Prelude.Texts.{replace}
use pumpkin_pie.Exec.{Result, ok, err}
use pumpkin_pie.Store.Tables.{Float64}
use pumpkin_pie.Float.{FloatOps}
use pumpkin_pie.AgentMgr.Messages.{
  CpuStats, MemoryStats, DiskStats, GpuDevice, GpuStats, LoadAvg, MetricReport,
}
use pumpkin_pie.Collector.Mounts.{PartitionStat, filter_partitions}
pub mod Mounts
pub mod Partitions

-- disk.UsageStat
pub record Usage : Type 0 where
  pub total : ℕ
  pub used : ℕ
  pub used_percent : Float64

unfoldable pub disk_of : PartitionStat → Option Usage → List DiskStats → List DiskStats
disk_of p none rest = rest
disk_of p (some u) rest =
    let row : DiskStats = record {
      path = p.mountpoint;
      total_bytes = u.total;
      used_bytes = u.used;
      usage_percent = u.used_percent;
    } in
    row ∷ rest

-- `usage` is disk.Usage, none where it fails or returns nil
unfoldable pub disks_of : (String → Option Usage) → List PartitionStat → List DiskStats
unfolding disk_of
disks_of usage [] = []
disks_of usage (p ∷ ps) = disk_of p (usage p.mountpoint) (disks_of usage ps)

unfoldable pub disk_stats :
    (String → String) → (String → Option Usage) → Option (List PartitionStat) → List DiskStats
unfolding disks_of filter_partitions
disk_stats lower usage none = []
disk_stats lower usage (some parts) = disks_of usage (filter_partitions lower parts)

-- What the calls of gopsutil and nvidia-smi return, none where they fail; the lines of nvidia-smi are
-- its output after TrimSpace and Split.
pub record Probes : Type 0 where
  pub percents : Option (List Float64)
  pub per_core : Option (List Float64)
  pub counts : Option ℕ
  pub memory : Option Usage
  pub average : Option LoadAvg
  pub partitions : Option (List PartitionStat)
  pub usage : String → Option Usage
  pub smi_lines : Option (List (List String))

-- The parsers, which return zero where they fail, and the conversions of float64.
pub record Parsers : Type 0 where
  pub lower : String → String
  pub trim_space : String → String
  pub parse_uint : ℕ → String → ℕ
  pub parse_float : String → Float64
  pub to_int : Float64 → ℕ
  pub of_int : ℕ → Float64
  pub floats : FloatOps

unfoldable pub first_or_zero : Option (List Float64) → Float64
first_or_zero none = 0
first_or_zero (some []) = 0
first_or_zero (some (x ∷ xs)) = x

unfoldable pub list_or_none : Option (List Float64) → List Float64
list_or_none none = []
list_or_none (some xs) = xs

unfoldable pub count_or_zero : Option ℕ → ℕ
count_or_zero none = 0
count_or_zero (some n) = n % 2 ^ 32

unfoldable pub cpu_stats : Probes → CpuStats
unfolding first_or_zero list_or_none count_or_zero
cpu_stats probes = record {
  usage_percent = first_or_zero probes.percents;
  cores = count_or_zero probes.counts;
  per_core_percent = list_or_none probes.per_core;
}

unfoldable pub mem_stats : Option Usage → MemoryStats
mem_stats none = record { total_bytes = 0; used_bytes = 0; usage_percent = 0 }
mem_stats (some v) = record {
  total_bytes = v.total;
  used_bytes = v.used;
  usage_percent = v.used_percent;
}

unfoldable pub load_stats : Option LoadAvg → LoadAvg
load_stats none = record { load1 = 0; load5 = 0; load15 = 0 }
load_stats (some avg) = avg

abbrev pub mebibyte : ℕ
mebibyte = 1048576

-- An output line with its six fields.
unfoldable pub device_of : Parsers → String → String → String → String → String → String → GpuDevice
device_of ps index name uuid util used total =
    let field : String → String = λ s. ps.trim_space s in
    record {
      index = ps.parse_uint 32 (field index);
      name = field name;
      uuid = field uuid;
      usage_percent = ps.parse_float (field util);
      mem_used_bytes = (ps.parse_uint 64 (field used) * mebibyte) % 2 ^ 64;
      mem_total_bytes = (ps.parse_uint 64 (field total) * mebibyte) % 2 ^ 64;
    }

-- A line split at ", "; one with fewer than six fields is passed over.
unfoldable pub line_devices : Parsers → List String → List GpuDevice → List GpuDevice
unfolding device_of
line_devices ps (index ∷ name ∷ uuid ∷ util ∷ used ∷ total ∷ more) rest =
    device_of ps index name uuid util used total ∷ rest
line_devices ps fields rest = rest

unfoldable pub devices_of : Parsers → List (List String) → List GpuDevice
unfolding line_devices
devices_of ps [] = []
devices_of ps (fields ∷ lines) = line_devices ps fields (devices_of ps lines)

unfoldable pub sum_of : (GpuDevice → ℕ) → List GpuDevice → ℕ
sum_of f [] = 0
sum_of f (d ∷ ds) = f d + sum_of f ds

-- The sums of the loop, which wrap.
unfoldable pub gpus_of : Parsers → List GpuDevice → GpuStats
unfolding sum_of
gpus_of ps ds =
    let n = length ds in
    record {
      count = n % 2 ^ 32;
      devices = ds;
      usage_percent =
          if nat_eq n 0
          then 0
          else ps.floats.div (ps.of_int (sum_of (λ d. ps.to_int d.usage_percent) ds % 2 ^ 64))
              (ps.of_int n);
      mem_used_bytes = sum_of (λ d. d.mem_used_bytes) ds % 2 ^ 64;
      mem_total_bytes = sum_of (λ d. d.mem_total_bytes) ds % 2 ^ 64;
    }

unfoldable pub gpu_stats : Parsers → Option (List (List String)) → GpuStats
unfolding gpus_of devices_of
gpu_stats ps none = gpus_of ps []
gpu_stats ps (some lines) = gpus_of ps (devices_of ps lines)

unfoldable pub collect : Parsers → ℕ → Probes → MetricReport
unfolding cpu_stats mem_stats disk_stats gpu_stats load_stats
collect ps now_ms probes = record {
  ts_unix_ms = now_ms;
  cpu = some (cpu_stats probes);
  memory = some (mem_stats probes.memory);
  disks = disk_stats ps.lower probes.usage probes.partitions;
  gpu = some (gpu_stats ps probes.smi_lines);
  load = some (load_stats probes.average);
}
