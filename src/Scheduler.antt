-- ===== src/Scheduler.antt =====
-- internal/master/scheduler/scheduler.go: the choice of a node for a new container.
pub mod Rounds
pub mod Best
pub mod Select
use pumpkin_pie.Prelude.{
  ℕ, zero, suc, ◌+◌, ◌-◌, Bool, true, false, not, ◌&&◌, String, ◌==◌, Option, none, some, List, [],
  ◌∷◌, ◌++◌, ltb, leb, if◌then◌else◌,
}
use pumpkin_pie.Exec.{Result, ok, err, Exec, with_error, ◌>>=◌}
use pumpkin_pie.Store.Tables.{Node, Db, Float64, Error}
use pumpkin_pie.Store.Nodes.{list_nodes}
use pumpkin_pie.Store.Gpus.{gpu_usage_by_node}
use pumpkin_pie.Float.{FloatOps}

pub record ResourceRequest : Type 0 where
  pub cpu_cores : Float64
  pub memory_bytes : ℕ
  pub gpu_count : ℕ

pub record SelectStats : Type 0 where
  pub online : ℕ
  pub gpu_ok : ℕ
  pub cpu_ok : ℕ
  pub mem_ok : ℕ

-- A clause of the message of rejectionError, with the numbers that it prints.
pub data Part : Type 0 where
  online : ℕ → Part
  with_free_gpus : ℕ → ℕ → Part
  with_cpu_cores : ℕ → Float64 → Part
  with_memory : ℕ → ℕ → Part

pub data SelectError : Type 0 where
  store_error : Error → SelectError
  -- ErrNoNode
  no_node : List Part → SelectError

-- freeGPUsOn, and freeGPUsForRow of internal/master/api/util.go at the node's count
unfoldable pub free_of : ℕ → ℕ → ℕ
free_of total used = if leb total used then 0 else total - used

unfoldable pub free_gpus_on : Node → (String → ℕ) → ℕ
unfolding free_of
free_gpus_on n gpu_used = free_of n.gpu_count (gpu_used n.id)

-- math's zero value is the pattern 0.
abbrev pub float_zero : Float64
float_zero = 0

module _ (ops : FloatOps) where
  open ops use {lt, add, mul, div, of_uint, tenths, infinity}

  -- used / total, or 0.0 where the total is 0
  share : ℕ → ℕ → Float64
  share used total = if ltb 0 total then div (of_uint used) (of_uint total) else float_zero

  unfoldable pub score : Node → Float64
  unfolding share
  score n =
      add
        (add
          (add (mul (tenths 4) (div n.cpu_percent (of_uint 100)))
            (mul (tenths 3) (share n.mem_used_bytes n.mem_total_bytes)))
          (mul (tenths 2) (div n.gpu_usage_avg (of_uint 100))))
        (mul (tenths 1) (share n.gpu_mem_used n.gpu_mem_total))

  -- req.GPUCount > 0 && freeGPU < req.GPUCount
  unfoldable pub lacks_gpus : ResourceRequest → (String → ℕ) → Node → Bool
  unfolding free_gpus_on
  lacks_gpus req gpu_used n = ltb 0 req.gpu_count && ltb (free_gpus_on n gpu_used) req.gpu_count

  unfoldable pub lacks_cpu : ResourceRequest → Node → Bool
  lacks_cpu req n =
      lt float_zero req.cpu_cores
      && lt float_zero (of_uint n.cpu_cores)
      && lt (of_uint n.cpu_cores) req.cpu_cores

  unfoldable pub lacks_memory : ResourceRequest → Node → Bool
  lacks_memory req n =
      ltb 0 req.memory_bytes && ltb 0 n.mem_total_bytes && ltb n.mem_total_bytes req.memory_bytes

  -- The variables of the loop of Select.
  pub record Search : Type 0 where
    pub best : Option Node
    pub best_score : Float64
    pub stats : SelectStats

  unfoldable pub start : Search
  start = record {
    best = none;
    best_score = infinity;
    stats = record { online = 0; gpu_ok = 0; cpu_ok = 0; mem_ok = 0 };
  }

  -- if s < bestScore
  unfoldable pub offer : Node → Search → Search
  unfolding score
  offer n s =
      if lt (score n) s.best_score then record s { best = some n; best_score = score n } else s

  -- The body of the loop, with its `continue`s.
  unfoldable pub visit : ResourceRequest → (String → ℕ) → Node → Search → Search
  unfolding lacks_gpus lacks_cpu lacks_memory offer
  visit req gpu_used n s =
      let s1 = record s { stats = record s.stats { online = s.stats.online + 1 } } in
      let s2 = record s1 { stats = record s1.stats { gpu_ok = s1.stats.gpu_ok + 1 } } in
      let s3 = record s2 { stats = record s2.stats { cpu_ok = s2.stats.cpu_ok + 1 } } in
      let s4 = record s3 { stats = record s3.stats { mem_ok = s3.stats.mem_ok + 1 } } in
      if not (n.state == "online")
      then s
      else if lacks_gpus req gpu_used n
      then s1
      else if lacks_cpu req n
      then s2
      else if lacks_memory req n
      then s3
      else offer n s4

  unfoldable pub visit_all : ResourceRequest → (String → ℕ) → List Node → Search → Search
  unfolding visit
  visit_all req gpu_used [] s = s
  visit_all req gpu_used (n ∷ ns) s = visit_all req gpu_used ns (visit req gpu_used n s)

  -- rejectionError: the parts that joinComma joins
  unfoldable pub rejection_error : ResourceRequest → SelectStats → SelectError
  rejection_error req s = no_node (
      online s.online ∷ []
      ++ ((if ltb 0 req.gpu_count then with_free_gpus s.gpu_ok req.gpu_count ∷ [] else [])
          ++ ((if lt float_zero req.cpu_cores
                then with_cpu_cores s.cpu_ok req.cpu_cores ∷ []
                else [])
              ++ (if ltb 0 req.memory_bytes
                  then with_memory s.mem_ok req.memory_bytes ∷ []
                  else []))))

  unfoldable pub settle_search : ResourceRequest → Search → Result SelectError Node
  unfolding rejection_error
  settle_search req s = elim s.best [ none ↦ err (rejection_error req s.stats) | some n ↦ ok n ]

  unfoldable pub choose_node : ResourceRequest → (String → ℕ) → List Node → Result SelectError Node
  unfolding visit_all start settle_search
  choose_node req gpu_used nodes = settle_search req (visit_all req gpu_used nodes start)

  -- Select: the two reads, and the loop.
  unfoldable pub select : ResourceRequest → Exec Db SelectError Node
  unfolding ◌>>=◌ with_error list_nodes gpu_usage_by_node choose_node
  select req = do
    nodes ← with_error store_error list_nodes
    gpu_used ← with_error store_error gpu_usage_by_node
    λ db. (choose_node req gpu_used nodes, db)
