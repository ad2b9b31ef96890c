-- ===== src/Tests/Ledgers.antt =====
-- The ledger of GPUs at the data of `Data`.
use pumpkin_pie.Prelude.{◌≡◌, refl, true, none, some, List, [], ◌∷◌, All}
use pumpkin_pie.Store.Tables.{Db}
use pumpkin_pie.Store.Calls.{
  Call, allocates_gpus, allocates_specific_gpus, deletes_container, run_calls,
}
use pumpkin_pie.Store.Ledger.{ledger, owner, Follows, spares}
use pumpkin_pie.Store.Ledger.Refined.{run_calls-Follows}
use pumpkin_pie.Store.Ledger.Held.{held-run_calls}
use pumpkin_pie.Tests.Data.{cluster}
use pumpkin_pie.Tests.Stores.{cluster-IsValid}

-- Two GPUs for c-2, an attempt on the one that c-1 holds, and a deletion of c-2 that fails.
abbrev busy : List Call
busy =
    allocates_gpus 9 "n1" "c-2" 2 4
    ∷ allocates_specific_gpus 9 "n1" "c-2" (1 ∷ [])
    ∷ deletes_container "c-2"
    ∷ []

abbrev failing : Db
failing = record {
  tables = cluster;
  faults = none ∷ none ∷ none ∷ none ∷ none ∷ none ∷ none ∷ some "disk I/O error" ∷ [];
}

run_calls-Follows_example :
    Follows busy failing (ledger cluster) (ledger (run_calls busy failing).tables)
run_calls-Follows_example = run_calls-Follows busy failing cluster-IsValid

busy-spares : All (λ c. spares "c-1" c ≡ true) busy
unfolding spares
busy-spares = (refl, (refl, (refl, tt)))

c1_holds : ledger cluster "n1" 1 ≡ some "c-1"
unfolding owner
c1_holds = refl

held-run_calls_example : ledger (run_calls busy failing).tables "n1" 1 ≡ some "c-1"
held-run_calls_example =
    held-run_calls "c-1" "n1" 1 busy failing cluster-IsValid busy-spares c1_holds
