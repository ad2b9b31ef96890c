-- ===== src/Api/Actions.antt =====
-- The parts that the HTTP handlers are made of keep the manager's invariant.
use pumpkin_pie.Prelude.{String, Option, none, some}
use pumpkin_pie.Exec.{Result, ok, err, with_error, map_err}
use pumpkin_pie.Exec.Keeps.{Keeps, Keeps-bind}
use pumpkin_pie.Float.{FloatOps}
use pumpkin_pie.Store.Tables.{Node, Tables, Db, Error}
use pumpkin_pie.Store.Sql.{Sql}
use pumpkin_pie.Store.Sql.Keeps.{Holds}
use pumpkin_pie.Store.Lasting.{Lasting}
use pumpkin_pie.Store.Nodes.{list_nodes}
use pumpkin_pie.Store.Gpus.{gpu_usage_by_node}
use pumpkin_pie.Store.Reads.{list_nodes-Keeps, gpu_usage_by_node-Keeps}
use pumpkin_pie.Scheduler.{ResourceRequest, SelectError, select, store_error}
use pumpkin_pie.AgentMgr.Messages.{MasterMessage}
use pumpkin_pie.AgentMgr.State.{Session, Failure, get, send}
use pumpkin_pie.AgentMgr.Soundness.{IsSound, with_db-IsSound}
use pumpkin_pie.AgentMgr.Connected.{send-IsSound}
use pumpkin_pie.Api.State.{
  Master, Refusal, Api, answered, on_store, best_effort, doing, sent, send_to, or_offline,
  session_for,
}
use pumpkin_pie.Api.Checks.{CreateContainerReq}
use pumpkin_pie.Api.Placement.{selected, select_node, settled}
use pumpkin_pie.Api.Create.{finally, undoing}

abbrev pub Sound : Master → Type 0
Sound s = IsSound s.manager

-- What every statement of the store keeps, the call keeps.
abbrev pub Enduring : {A : Type 0} → Sql A → Type 1
Enduring call = (P : Tables → Type 0) → Lasting P → Keeps (Holds P) call

module _ {A : Type 0} where
  answered-Sound :
      (refuse : Error → Refusal) (r : Result Error A) (s : Master)
      → Sound s
      → Sound (answered refuse r s).1
  unfolding answered
  answered-Sound refuse (ok a) s sound = sound
  answered-Sound refuse (err e) s sound = sound

  pub on_store-Sound :
      (refuse : Error → Refusal) (call : Sql A) → Enduring call → Keeps Sound (on_store refuse call)
  unfolding on_store
  on_store-Sound refuse call kept = record {
    at = λ s sound.
        let (r, db) = call s.manager.db in
        answered-Sound refuse r (record s { manager = record s.manager { db = db } })
          (with_db-IsSound s.manager db (λ P w. (kept P w).at s.manager.db) sound);
  }

  pub best_effort-Sound :
      (call : Sql A) → Enduring call → (s : Master) → Sound s → Sound (best_effort call s)
  unfolding best_effort
  best_effort-Sound call kept s sound =
      with_db-IsSound s.manager (call s.manager.db).1 (λ P w. (kept P w).at s.manager.db) sound

  finally-Sound :
      (undo : Master → Master) (r : Result Refusal A) (s : Master)
      → ((s : Master) → Sound s → Sound (undo s))
      → Sound s
      → Sound (finally undo (r, s)).1
  unfolding finally
  finally-Sound undo (ok a) s kept sound = sound
  finally-Sound undo (err e) s kept sound = kept s sound

  pub undoing-Sound :
      (undo : Master → Master) (action : Api A)
      → ((s : Master) → Sound s → Sound (undo s))
      → Keeps Sound action
      → Keeps Sound (undoing undo action)
  unfolding undoing
  undoing-Sound undo action kept k = record {
    at = λ s sound. let (r, s') = action s in finally-Sound undo r s' kept (k.at s sound);
  }

  pub settled-Sound : (r : Result Refusal A) → Keeps Sound (settled r)
  unfolding settled
  settled-Sound r = record { at = λ s sound. sound }

pub doing-Sound :
    (f : Master → Master) → ((s : Master) → Sound s → Sound (f s)) → Keeps Sound (doing f)
unfolding doing
doing-Sound f kept = record { at = kept }

sent-Sound : (r : Result Failure Unit) (s : Master) → Sound s → Sound (sent r s).1
unfolding sent
sent-Sound (ok _) s sound = sound
sent-Sound (err why) s sound = sound

pub send_to-Sound :
    (session : Session) (message : MasterMessage) → Keeps Sound (send_to session message)
unfolding send_to
send_to-Sound session message = record {
  at = λ s sound.
      let (r, m) = send session.stream message s.manager in
      sent-Sound r (record s { manager = m }) (send-IsSound session.stream message s.manager sound);
}

or_offline-Sound :
    (text : String) (o : Option Session) (s : Master) → Sound s → Sound (or_offline text o s).1
unfolding or_offline
or_offline-Sound text none s sound = sound
or_offline-Sound text (some session) s sound = sound

pub session_for-Sound : (text node : String) → Keeps Sound (session_for text node)
unfolding session_for
session_for-Sound text node = record {
  at = λ s sound. or_offline-Sound text (get node s.manager) s sound;
}

module _ (P : Tables → Type 0) where
  map_err-Holds :
      {A : Type 0} (r : Result Error A) (db : Db)
      → P db.tables
      → P (map_err store_error (r, db)).1.tables
  unfolding map_err
  map_err-Holds (ok a) db h = h
  map_err-Holds (err e) db h = h

  with_error-Holds :
      {A : Type 0} (call : Sql A)
      → Keeps (Holds P) call
      → Keeps (Holds P) (with_error store_error call)
  unfolding with_error
  with_error-Holds call k = record {
    at = λ db h. let (r, db') = call db in map_err-Holds r db' (k.at db h);
  }

  select-Holds : (ops : FloatOps) (req : ResourceRequest) → Keeps (Holds P) (select ops req)
  unfolding select
  select-Holds ops req = Keeps-bind _ _ (with_error-Holds list_nodes (list_nodes-Keeps P)) (λ nodes.
      Keeps-bind _ _ (with_error-Holds gpu_usage_by_node (gpu_usage_by_node-Keeps P))
        (λ used. record { at = λ db h. h }))

selected-Sound : (r : Result SelectError Node) (s : Master) → Sound s → Sound (selected r s).1
unfolding selected
selected-Sound (ok n) s sound = sound
selected-Sound (err why) s sound = sound

pub select_node-Sound :
    (ops : FloatOps) (req : CreateContainerReq) → Keeps Sound (select_node ops req)
unfolding select_node
select_node-Sound ops req = record {
  at = λ s sound.
      let wanted : ResourceRequest = record {
        cpu_cores = req.cpu_cores;
        memory_bytes = req.memory_bytes;
        gpu_count = req.gpu_count;
      } in
      let (r, db) = select ops wanted s.manager.db in
      selected-Sound r (record s { manager = record s.manager { db = db } })
        (with_db-IsSound s.manager db (λ P w. (select-Holds P ops wanted).at s.manager.db) sound);
}
