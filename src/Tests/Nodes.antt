-- ===== src/Tests/Nodes.antt =====
-- The scheduler at concrete nodes, over whole numbers in place of floats.
use mathlib.Core.List.{Memᴰ}
use pumpkin_pie.Prelude.{
  ℕ, ◌+◌, ◌*◌, ◌/◌, ◌≡◌, refl, inr, true, false, [], ◌∷◌, All, ltb, sort_desc, arith, length, take,
  keep, any,
}
use pumpkin_pie.Exec.{ok}
use pumpkin_pie.Store.Tables.{Node, Tables, calm}
use pumpkin_pie.Store.Statements.{has_node, has_container}
use pumpkin_pie.Store.Gpus.{gpu_usage, alloc_gpus}
use pumpkin_pie.Store.Gpus.Choice.{free_indices}
use pumpkin_pie.Store.Gpus.Booking.{booked}
use pumpkin_pie.Float.{FloatOps, IsStrict}
use pumpkin_pie.Scheduler.{ResourceRequest, select, score}
use pumpkin_pie.Scheduler.Rounds.{Fits}
use pumpkin_pie.Scheduler.Select.{select-best, alloc_gpus-Fits}
use pumpkin_pie.Tests.Data.{worker, cluster}

abbrev pub whole : FloatOps
whole = record {
  lt = ltb;
  add = λ a b. a + b;
  mul = λ a b. a * b;
  div = λ a b. a / b;
  of_uint = λ n. n;
  tenths = λ n. n;
  infinity = 1000000;
}

ltb_irrefl : (a : ℕ) → ltb a a ≡ false
ltb_irrefl a = ground arith

ltb_trans : (a b c : ℕ) → ltb a b ≡ true → ltb b c ≡ true → ltb a c ≡ true
ltb_trans a b c h k = ground arith

whole-IsStrict : IsStrict whole
whole-IsStrict = record { irrefl = ltb_irrefl; trans = ltb_trans }

abbrev wish : ResourceRequest
wish = record { cpu_cores = 2; memory_bytes = 50; gpu_count = 2 }

-- A second node, offline.
abbrev away : Node
away = record worker { id = "n2"; machine_id = "m2"; state = "offline" }

abbrev pair : Tables
pair = record cluster { nodes = away ∷ worker ∷ [] }

picked : (select whole wish (calm pair)).0 ≡ ok worker
unfolding select keep
picked = refl

select-best_example :
    let listed = sort_desc (λ (m : Node). m.registered_at) pair.nodes in
    Memᴰ worker listed
    × Fits whole wish (gpu_usage pair) worker
    × All
        (λ m. Fits whole wish (gpu_usage pair) m → ltb (score whole m) (score whole worker) ≡ false)
        listed
    × ((select whole wish (calm pair)).1.tables ≡ pair)
select-best_example = select-best whole whole-IsStrict wish (calm pair) worker picked

worker-Fits : Fits whole wish (gpu_usage cluster) worker
unfolding gpu_usage keep
worker-Fits = record {
  online = refl;
  gpus = inr (omega arith);
  cores = λ _ _. refl;
  memory = inr (omega arith);
}

has_c2 : has_container "c-2" cluster ≡ true
unfolding has_container any
has_c2 = refl

has_n1 : has_node "n1" cluster ≡ true
unfolding has_node any
has_n1 = refl

alloc_gpus-Fits_example :
    let lowest = take 2 (free_indices "n1" 4 cluster) in
    (length lowest ≡ 2)
    × (alloc_gpus 9 "n1" "c-2" 2 4 (calm cluster)
        ≡ (ok lowest, calm (booked 9 "n1" "c-2" lowest cluster)))
alloc_gpus-Fits_example =
    alloc_gpus-Fits whole wish 9 "c-2" 1 worker cluster refl worker-Fits has_c2 has_n1
