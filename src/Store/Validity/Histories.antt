-- ===== src/Store/Validity/Histories.antt =====
-- Every sequence of the store's operations keeps the constraints.
use pumpkin_pie.Prelude.{List}
use pumpkin_pie.Store.Tables.{Db}
use pumpkin_pie.Store.Lasting.{Lasting}
use pumpkin_pie.Store.Calls.{Call, run_calls, run_calls-Lasting}
use pumpkin_pie.Store.Validity.{IsValid}
use pumpkin_pie.Store.Validity.Updates.{change_nodes-IsValid, change_containers-IsValid}
use pumpkin_pie.Store.Validity.Upsert.{upsert_row-IsValid}
use pumpkin_pie.Store.Validity.Writes.{
  insert_container_row-IsValid, delete_container_row-IsValid, insert_gpu_row-IsValid,
  insert_port_row-IsValid, free_gpu_rows-IsValid, free_port_rows-IsValid,
}

pub IsValid-Lasting : Lasting IsValid
IsValid-Lasting = record {
  upserts = upsert_row-IsValid;
  node_updates = change_nodes-IsValid;
  container_inserts = insert_container_row-IsValid;
  container_updates = change_containers-IsValid;
  container_deletes = delete_container_row-IsValid;
  gpu_inserts = insert_gpu_row-IsValid;
  gpu_deletes = free_gpu_rows-IsValid;
  port_inserts = insert_port_row-IsValid;
  port_deletes = free_port_rows-IsValid;
}

-- Whatever calls are made in whatever order, and whichever of their statements, BEGINs and COMMITs
-- the driver fails, tables that meet the constraints (no two rows with one node id, one non-empty
-- machine id, one container id, one GPU of a node or one port, and no reservation or container of
-- something that is not there) still meet them.
pub run_calls-IsValid :
    (cs : List Call) (db : Db) → IsValid db.tables → IsValid (run_calls cs db).tables
run_calls-IsValid cs db v = run_calls-Lasting IsValid-Lasting cs db v
