-- ===== src/Store/Ledger/Refined.antt =====
-- The store of internal/master/store/store.go meets the contracts of the ledger.
use pumpkin_pie.Prelude.{ℕ, zero, suc, ◌≡◌, refl, sym, ap, subst, ◌∙◌, String, List, [], ◌∷◌}
use pumpkin_pie.Exec.{Result, ok, err, pure}
use pumpkin_pie.Store.Tables.{Tables, Db, Time, Error}
use pumpkin_pie.Store.Sql.{Statement, exec}
use pumpkin_pie.Store.Sql.Keeps.{exec-Keeps, exec-unchanged}
use pumpkin_pie.Store.Sql.Inversion.{exec-ok}
use pumpkin_pie.Store.Statements.{delete_container_row}
use pumpkin_pie.Store.Nodes.{registered, upsert_node, update_node_state, update_node_metrics}
use pumpkin_pie.Store.Containers.{
  stamped, insert_container, update_container, update_container_state,
  update_container_external_port, update_container_gpu_indices, delete_container,
}
use pumpkin_pie.Store.Ports.{free_port}
use pumpkin_pie.Store.Gpus.{alloc_gpus, alloc_specific_gpus, free_gpus}
use pumpkin_pie.Store.Gpus.Booking.{booked}
use pumpkin_pie.Store.Gpus.Laws.{
  alloc_gpus-ok, alloc_gpus-unchanged, alloc_specific_gpus-ok, alloc_specific_gpus-unchanged,
}
use pumpkin_pie.Store.Calls.{
  Call, upserts_node, updates_node_state, updates_node_metrics, inserts_container,
  updates_container_state, updates_external_port, updates_gpu_indices, deletes_container,
  allocates_port, frees_port, allocates_gpus, allocates_specific_gpus, frees_gpus, run_call,
  run_calls,
}
use pumpkin_pie.Store.Validity.{IsValid}
use pumpkin_pie.Store.Validity.Histories.{IsValid-Lasting}
use pumpkin_pie.Store.Calls.{run_call-Lasting}
use pumpkin_pie.Store.Ledger.{
  Ledger, ledger, owner, grant, release, AreFree, Outcome, returned, failed, Effect, Follows,
}
use pumpkin_pie.Store.Ledger.Kept.{
  Same, exec-kept, upsert_row-Same, insert_container_row-Same, alloc_port-Same,
}
use pumpkin_pie.Store.Ledger.Owners.{
  grant-nil, owner-book, IsBookable-AreFree, AreFree-free_indices, owner-keep,
}

-- A case for each result of a call.
outcome :
    {A : Type 0} {Done : A → Type 0} {Undone : Type 0} (r : Result Error A)
    → ((a : A) → r ≡ ok a → Done a)
    → ((e : Error) → r ≡ err e → Undone)
    → Outcome r Done Undone
outcome (ok a) done undone = returned a refl (done a refl)
outcome (err e) done undone = failed e refl (undone e refl)

-- A statement without a constraint to break: it fails only where the driver fails it.
exec-Outcome :
    (statement : Statement Unit) (db : Db) (after : Tables) (l' : Ledger)
    → statement db.tables ≡ ok (tt, after)
    → ledger after ≡ l'
    → Outcome
        (exec statement db).0
        (λ _. ledger (exec statement db).1.tables ≡ l')
        (ledger (exec statement db).1.tables ≡ ledger db.tables)
exec-Outcome statement db after l' result reads =
    outcome (exec statement db).0
      (λ a e.
        ap ledger (after-eq (exec statement db).1.tables (sym (exec-ok statement db a e) ∙ result))
        ∙ reads)
      (λ e f. ap ledger (exec-unchanged statement db e f))
  where
    after-eq :
        (t : Tables)
        → ◌≡◌ {A = Result Error (Unit {0} × Tables)} (ok (tt, t)) (ok (tt, after))
        → t ≡ after
    after-eq t e = cc

module _ (container : String) (db : Db) (v : IsValid db.tables) where
  free_gpus-Outcome :
      Outcome
        (free_gpus container db).0
        (λ _. ledger (free_gpus container db).1.tables ≡ release container (ledger db.tables))
        (ledger (free_gpus container db).1.tables ≡ ledger db.tables)
  unfolding free_gpus
  free_gpus-Outcome = exec-Outcome _ db _ _ refl (owner-keep container db.tables.gpu_alloc v.slots)

  delete_container-Outcome :
      Outcome
        (delete_container container db).0
        (λ _.
          ledger (delete_container container db).1.tables ≡ release container (ledger db.tables))
        (ledger (delete_container container db).1.tables ≡ ledger db.tables)
  unfolding delete_container delete_container_row
  delete_container-Outcome =
      exec-Outcome (delete_container_row container) db _ _ refl
        (owner-keep container db.tables.gpu_alloc v.slots)

module _ (now : Time) (node container : String) where
  ledger-booked :
      (is : List ℕ) (t : Tables)
      → ledger (booked now node container is t) ≡ grant node container is (ledger t)
  ledger-booked is t = owner-book now node container is t.gpu_alloc

  alloc_gpus-Effect :
      (count total : ℕ) (db : Db)
      → Effect
          (allocates_gpus now node container count total)
          db
          (ledger db.tables)
          (ledger (alloc_gpus now node container count total db).1.tables)
  unfolding alloc_gpus pure
  alloc_gpus-Effect zero total db =
      returned [] refl (refl, tt, sym (grant-nil node container (ledger db.tables)))
  alloc_gpus-Effect (suc n) total db =
      outcome (alloc_gpus now node container (suc n) total db).0
        (λ got e.
          let (lowest, count, tables) = alloc_gpus-ok now node container n total got db e in
          (
            count,
            subst (λ (is : List ℕ). AreFree node is (ledger db.tables)) (sym lowest)
                (AreFree-free_indices node total (suc n) db.tables),
            ap ledger tables ∙ ledger-booked got db.tables,
          ))
        (λ e f. ap ledger (alloc_gpus-unchanged now node container (suc n) total db e f))

  alloc_specific_gpus-Effect :
      (is : List ℕ) (db : Db)
      → Effect
          (allocates_specific_gpus now node container is)
          db
          (ledger db.tables)
          (ledger (alloc_specific_gpus now node container is db).1.tables)
  alloc_specific_gpus-Effect is db =
      outcome (alloc_specific_gpus now node container is db).0
        (λ a e.
          let (free, tables) = alloc_specific_gpus-ok now node container is db e in
          (
            IsBookable-AreFree now node container is db.tables free,
            ap ledger tables ∙ ledger-booked is db.tables,
          ))
        (λ e f. ap ledger (alloc_specific_gpus-unchanged now node container is db e f))

-- Every call meets its contract on valid tables, whatever the driver fails in it.
pub run_call-Effect :
    (c : Call) (db : Db)
    → IsValid db.tables
    → Effect c db (ledger db.tables) (ledger (run_call c db).tables)
unfolding run_call upsert_node update_node_state update_node_metrics insert_container
    update_container_state update_container_external_port update_container_gpu_indices
    update_container free_port
run_call-Effect (upserts_node now n) db v =
    ap owner ((exec-Keeps (Same _) _ (upsert_row-Same _ (registered now n))).at db refl)
run_call-Effect (updates_node_state now id state) db v = ap owner (exec-kept _ (λ t. refl) db)
run_call-Effect (updates_node_metrics now n) db v = ap owner (exec-kept _ (λ t. refl) db)
run_call-Effect (inserts_container now c) db v =
    ap owner ((exec-Keeps (Same _) _ (insert_container_row-Same _ (stamped now c))).at db refl)
run_call-Effect (updates_container_state now id docker_id state status) db v =
    ap owner (exec-kept _ (λ t. refl) db)
run_call-Effect (updates_external_port now id port) db v = ap owner (exec-kept _ (λ t. refl) db)
run_call-Effect (updates_gpu_indices now id json) db v = ap owner (exec-kept _ (λ t. refl) db)
run_call-Effect (deletes_container container) db v = delete_container-Outcome container db v
run_call-Effect (allocates_port start end container) db v =
    ap owner ((alloc_port-Same _ start end container).at db refl)
run_call-Effect (frees_port port) db v = ap owner (exec-kept _ (λ t. refl) db)
run_call-Effect (allocates_gpus now node container count total) db v =
    alloc_gpus-Effect now node container count total db
run_call-Effect (allocates_specific_gpus now node container is) db v =
    alloc_specific_gpus-Effect now node container is db
run_call-Effect (frees_gpus container) db v = free_gpus-Outcome container db v

-- From valid tables, any sequence of calls, whichever of their statements, BEGINs and COMMITs the
-- driver fails, moves the ledger as the contracts say: AllocGPUs and AllocSpecificGPUs grant, where
-- they return, GPUs that nobody held, FreeGPUs and DeleteContainer release, where they return, all
-- that the one container held, a call that fails changes nothing, and no other call changes the
-- ledger.
pub run_calls-Follows :
    (cs : List Call) (db : Db)
    → IsValid db.tables
    → Follows cs db (ledger db.tables) (ledger (run_calls cs db).tables)
unfolding run_calls
run_calls-Follows [] db v = refl
run_calls-Follows (c ∷ cs) db v = (
  ledger (run_call c db).tables,
  run_call-Effect c db v,
  run_calls-Follows cs (run_call c db) (run_call-Lasting IsValid-Lasting c db v),
)
