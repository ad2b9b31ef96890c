-- ===== src/Tests/Stores.antt =====
-- The store at the data of `Data`.
use pumpkin_pie.Prelude.{
  ℕ, ◌<◌, ◌==◌, subst, ◌≡◌, refl, true, false, none, some, List, [], ◌∷◌, ◌≤◌, any, arith, length,
  take, upto,
}
use pumpkin_pie.Exec.{ok, err}
use pumpkin_pie.Store.Tables.{Db, calm, driver}
use pumpkin_pie.Store.Statements.{has_node, has_container, is_slot}
use pumpkin_pie.Store.Nodes.{upsert_node}
use pumpkin_pie.Store.Ports.{alloc_port}
use pumpkin_pie.Store.Ports.Laws.{is_held, alloc_port-ok}
use pumpkin_pie.Store.Gpus.{alloc_gpus, alloc_specific_gpus, free_gpus}
use pumpkin_pie.Store.Gpus.Choice.{free_indices}
use pumpkin_pie.Store.Gpus.Booking.{book, booked, IsBookable}
use pumpkin_pie.Store.Gpus.Laws.{alloc_gpus-ok}
use pumpkin_pie.Store.Gpus.Totality.{alloc_gpus-calm}
use pumpkin_pie.Store.Validity.{IsValid}
use pumpkin_pie.Store.Calls.{allocates_gpus, deletes_container, run_calls}
use pumpkin_pie.Store.Validity.Histories.{run_calls-IsValid}
use pumpkin_pie.Tests.Data.{cluster}

store : Unit {0}
unfolding run_calls alloc_port upsert_node alloc_gpus alloc_specific_gpus free_gpus free_indices
    is_held book any has_node has_container take upto
store = tt

-- Two of the three free GPUs, the lowest ones.
two_gpus : (alloc_gpus 9 "n1" "c-2" 2 4 (calm cluster)).0 ≡ ok (0 ∷ 2 ∷ [])
unfolding store
two_gpus = refl

pub cluster-IsValid : IsValid cluster
unfolding store
cluster-IsValid = record {
  node_ids = (refl, tt);
  machines = (refl, tt);
  container_ids = (refl, (refl, tt));
  slots = (refl, tt);
  ports = (refl, tt);
  placed = (refl, (refl, tt));
  held = ((refl, refl), tt);
}

-- The second statement of the run fails.
abbrev faulty : Db
faulty = record { tables = cluster; faults = none ∷ some "disk I/O error" ∷ [] }

run_calls-IsValid_example :
    IsValid
      (run_calls (allocates_gpus 9 "n1" "c-2" 2 4 ∷ deletes_container "c-1" ∷ []) faulty).tables
run_calls-IsValid_example =
    run_calls-IsValid (allocates_gpus 9 "n1" "c-2" 2 4 ∷ deletes_container "c-1" ∷ []) faulty
      cluster-IsValid

alloc_gpus-ok_example :
    (◌≡◌ {A = List ℕ} (0 ∷ 2 ∷ []) (take 2 (free_indices "n1" 4 cluster)))
    × (length {A = ℕ} (0 ∷ 2 ∷ []) ≡ 2)
    × ((alloc_gpus 9 "n1" "c-2" 2 4 (calm cluster)).1.tables
        ≡ booked 9 "n1" "c-2" (0 ∷ 2 ∷ []) cluster)
alloc_gpus-ok_example = alloc_gpus-ok 9 "n1" "c-2" 1 4 (0 ∷ 2 ∷ []) (calm cluster) two_gpus

has_c2 : has_container "c-2" cluster ≡ true
unfolding store
has_c2 = refl

has_n1 : has_node "n1" cluster ≡ true
unfolding store
has_n1 = refl

three_free : length (free_indices "n1" 4 cluster) ≡ 3
unfolding store
three_free = refl

alloc_gpus-calm_example : alloc_gpus 9 "n1" "c-2" 3 4 (calm cluster) ≡ (
  ok (take 3 (free_indices "n1" 4 cluster)),
  calm (booked 9 "n1" "c-2" (take 3 (free_indices "n1" 4 cluster)) cluster),
)
alloc_gpus-calm_example =
    alloc_gpus-calm 9 "n1" "c-2" 2 4 cluster has_c2 has_n1 (omega (arith, three_free))

insert_fails :
    (alloc_gpus 9 "n1" "c-2" 2 4
      (record { tables = cluster; faults = none ∷ none ∷ none ∷ some "disk I/O error" ∷ [] })).0
    ≡ err (driver "disk I/O error")
unfolding store
insert_fails = refl

specific : (alloc_specific_gpus 9 "n1" "c-2" (3 ∷ 0 ∷ []) (calm cluster)).0 ≡ ok tt
unfolding store
specific = refl

IsBookable-3 : IsBookable 9 "n1" "c-2" (3 ∷ []) cluster
unfolding store
IsBookable-3 = (refl, refl, tt)

taken_1 : any (is_slot "n1" 1) (book 9 "n1" "c-2" (3 ∷ []) cluster.gpu_alloc) ≡ true
unfolding store
taken_1 = refl

none_held : any (λ r. r.container_id == "c-2") cluster.gpu_alloc ≡ false
unfolding store
none_held = refl

second_port : (alloc_port 30000 32767 "c-2" (calm cluster)).0 ≡ ok 30001
unfolding store
second_port = refl

alloc_port-ok_example :
    (30000 ≤ 30001)
    × (30001 ≤ 32767)
    × (is_held 30001 cluster ≡ false)
    × ((q : ℕ) → 30000 ≤ q → q < 30001 → is_held q cluster ≡ true)
    × ((alloc_port 30000 32767 "c-2" (calm cluster)).1.tables ≡ record cluster {
      port_alloc = record { port = 30001; container_id = "c-2" } ∷ cluster.port_alloc;
    })
alloc_port-ok_example = alloc_port-ok 30000 32767 30001 "c-2" (calm cluster) second_port

free_30002 : is_held 30002 cluster ≡ false
unfolding store
free_30002 = refl

held_30000 : is_held 30000 cluster ≡ true
unfolding store
held_30000 = refl

only_30000 : (q : ℕ) → 30000 ≤ q → q ≤ 30000 → is_held q cluster ≡ true
only_30000 q l k =
    let same : 30000 ≡ q = omega arith in subst (λ p. is_held p cluster ≡ true) same held_30000
