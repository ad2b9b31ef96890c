-- ===== src/AgentMgr/Connected.antt =====
-- OnAgentConnect keeps the manager's invariant, whatever fails in it.
use pumpkin_pie.Prelude.{
  ◌≡◌, refl, ℕ, String, true, Option, none, some, List, [], ◌∷◌, ◌==◌, false, Bool, if◌then◌else◌,
}
use pumpkin_pie.Exec.{Result, ok, err, raise, ◌>>=◌}
use pumpkin_pie.Store.Tables.{
  Node, Error, Time, no_rows, driver, insufficient_gpus, gpu_taken, no_free_port,
}
use pumpkin_pie.Store.Nodes.{upsert_node, get_node_by_machine_id, update_node_state}
use pumpkin_pie.Store.Reads.{get_node_by_machine_id-Keeps}
use pumpkin_pie.Store.Lasting.{upsert_node-Safe, update_node_state-Safe}
use pumpkin_pie.Store.Validity.Registered.{IsRegistered, upsert_node-IsRegistered}
use pumpkin_pie.AgentMgr.Messages.{RegisterRequest, AgentMessage, MasterMessage, register_resp}
use pumpkin_pie.AgentMgr.State.{Manager, Failure, or_fail, says, on_store, send, deliver, supersede}
use pumpkin_pie.AgentMgr.Register.{
  Connection, save_node, register_new, register_found, resolve_node_id, open_session, answer,
  welcome, connect_with, on_agent_connect, session_for, new_node, refreshed, get_register,
}
use pumpkin_pie.AgentMgr.Soundness.{IsSound, with_db-IsSound, publish-IsSound, supersede-IsSound}

-- A sound manager is left, in which the node of an id returned has a row.
abbrev Resolved : Result Failure String × Manager → Type 0
Resolved (ok id, m) = IsSound m × IsRegistered id m.db.tables
Resolved (err e, m) = IsSound m

saved-Resolved :
    (id : String) (r : Result Error Unit) (m : Manager)
    → IsSound m
    → (r ≡ ok tt → IsRegistered id m.db.tables)
    → Resolved (or_fail (λ _ m'. (ok id, m')) r m)
unfolding or_fail
saved-Resolved id (ok _) m sound row = (sound, row refl)
saved-Resolved id (err e) m sound row = sound

save_node-Resolved :
    (now : Time) (n : Node) (m : Manager) → IsSound m → Resolved (save_node now n m)
unfolding save_node on_store
save_node-Resolved now n m sound =
    let db = (upsert_node now n m.db).1 in
    saved-Resolved n.id (upsert_node now n m.db).0 (record m { db = db })
      (with_db-IsSound m db (λ P w. (upsert_node-Safe w now n).at m.db) sound)
      (upsert_node-IsRegistered now n m.db)

register_new-Resolved :
    (now : Time) (reg : RegisterRequest) (random : Result String String) (m : Manager)
    → IsSound m
    → Resolved (register_new now reg random m)
unfolding register_new raise
register_new-Resolved now reg (ok id) m sound = save_node-Resolved now (new_node now id reg) m sound
register_new-Resolved now reg (err why) m sound = sound

register_found-Resolved :
    (now : Time) (reg : RegisterRequest) (random : Result String String) (r : Result Error Node)
    (m : Manager)
    → IsSound m
    → Resolved (register_found now reg random r m)
unfolding register_found raise
register_found-Resolved now reg random (ok existing) m sound =
    save_node-Resolved now (refreshed now reg existing) m sound
register_found-Resolved now reg random (err no_rows) m sound =
    register_new-Resolved now reg random m sound
register_found-Resolved now reg random (err (driver message)) m sound = sound
register_found-Resolved now reg random (err (insufficient_gpus requested free total)) m sound =
    sound
register_found-Resolved now reg random (err (gpu_taken index node)) m sound = sound
register_found-Resolved now reg random (err (no_free_port start end)) m sound = sound

-- The test of the machine id, and the lookup.
looked_up-Resolved :
    (now : Time) (reg : RegisterRequest) (random : Result String String) (b : Bool) (m : Manager)
    → IsSound m
    → Resolved (
        (if b
            then raise (says "register: machine_id required")
            else on_store (get_node_by_machine_id reg.machine_id) (register_found now reg random))
          m)
unfolding on_store raise
looked_up-Resolved now reg random true m sound = sound
looked_up-Resolved now reg random false m sound =
    let db = (get_node_by_machine_id reg.machine_id m.db).1 in
    register_found-Resolved now reg random (get_node_by_machine_id reg.machine_id m.db).0
      (record m { db = db })
      (with_db-IsSound m db (λ P w. (get_node_by_machine_id-Keeps P reg.machine_id).at m.db) sound)

resolve_node_id-Resolved :
    (now : Time) (reg : RegisterRequest) (random : Result String String) (m : Manager)
    → IsSound m
    → Resolved (resolve_node_id now reg random m)
unfolding resolve_node_id
resolve_node_id-Resolved now reg random m sound =
    looked_up-Resolved now reg random (reg.machine_id == "") m sound

with_faults-IsSound :
    (sent : List (ℕ × MasterMessage)) (faults : List (Option String)) (m : Manager)
    → IsSound m
    → IsSound (record m { sent = sent; send_faults = faults })
with_faults-IsSound sent faults m sound = record {
  tables = sound.tables;
  registered = sound.registered;
  single = sound.single;
  updates_bound = sound.updates_bound;
  sink_bound = sound.sink_bound;
}

-- Sending touches nothing of what the invariant is about.
pub send-IsSound :
    (stream : ℕ) (message : MasterMessage) (m : Manager)
    → IsSound m
    → IsSound (send stream message m).1
unfolding send deliver
send-IsSound stream message m sound = by_faults m.send_faults refl
  where
    by_faults : (fs : List (Option String)) → m.send_faults ≡ fs → IsSound (send stream message m).1
    by_faults [] e = rw e (with_faults-IsSound _ _ m sound)
    by_faults (none ∷ fs) e = rw e (with_faults-IsSound _ _ m sound)
    by_faults (some why ∷ fs) e = rw e (with_faults-IsSound _ _ m sound)

welcome-IsSound :
    (conn : Connection) (reg : RegisterRequest) (id : String) (r : Result Failure Unit)
    (m : Manager)
    → IsSound m
    → IsSound (◌>>=◌ (λ n. (r, m)) (welcome conn reg id) m).1
unfolding welcome ◌>>=◌
welcome-IsSound conn reg id (ok _) m sound = publish-IsSound _ m sound
welcome-IsSound conn reg id (err e) m sound = sound

answer-IsSound :
    (conn : Connection) (reg : RegisterRequest) (id : String) (r : Result Error Unit) (m : Manager)
    → IsSound m
    → IsSound (or_fail (λ _. answer conn reg id) r m).1
unfolding or_fail answer ◌>>=◌
answer-IsSound conn reg id (err e) m sound = sound
answer-IsSound conn reg id (ok _) m sound =
    let (r, m') = send conn.stream (register_resp id true "" 5) m in
    welcome-IsSound conn reg id r m' (send-IsSound conn.stream (register_resp id true "" 5) m sound)

open_session-IsSound :
    (conn : Connection) (reg : RegisterRequest) (id : String) (m : Manager)
    → IsRegistered id m.db.tables
    → IsSound m
    → IsSound (open_session conn reg id m).1
unfolding open_session on_store session_for
open_session-IsSound conn reg id m row sound =
    let s = session_for conn id reg in
    let m' = supersede s m in
    let db = (update_node_state conn.now id "online" m'.db).1 in
    answer-IsSound conn reg id (update_node_state conn.now id "online" m'.db).0
      (record m' { db = db })
      (with_db-IsSound m' db (λ P w. (update_node_state-Safe w conn.now id "online").at m'.db)
        (supersede-IsSound s m row sound))

opened-IsSound :
    (conn : Connection) (reg : RegisterRequest) (r : Result Failure String × Manager)
    → Resolved r
    → IsSound (◌>>=◌ (λ m. r) (open_session conn reg) r.1).1
unfolding ◌>>=◌
opened-IsSound conn reg (ok id, m) (sound, row) = open_session-IsSound conn reg id m row sound
opened-IsSound conn reg (err e, m) sound = sound

connect_with-IsSound :
    (conn : Connection) (reg : Option RegisterRequest) (m : Manager)
    → IsSound m
    → IsSound (connect_with conn reg m).1
unfolding connect_with raise ◌>>=◌
connect_with-IsSound conn none m sound = sound
connect_with-IsSound conn (some reg) m sound =
    opened-IsSound conn reg (resolve_node_id conn.now reg conn.random m)
      (resolve_node_id-Resolved conn.now reg conn.random m sound)

pub on_agent_connect-IsSound :
    (conn : Connection) (first : Result String AgentMessage) (m : Manager)
    → IsSound m
    → IsSound (on_agent_connect conn first m).1
unfolding on_agent_connect raise
on_agent_connect-IsSound conn (err why) m sound = sound
on_agent_connect-IsSound conn (ok first) m sound =
    connect_with-IsSound conn (get_register first) m sound
