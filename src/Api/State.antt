-- ===== src/Api/State.antt =====
-- internal/master/api/api.go: what the handlers share. A handler returns a body with status 200, or
-- refuses with a status and a reason.
use pumpkin_pie.Prelude.{ℕ, String, Option, none, some, List}
use pumpkin_pie.Exec.{Result, ok, err, Exec}
use pumpkin_pie.Store.Tables.{Error}
use pumpkin_pie.Store.Sql.{Sql}
use pumpkin_pie.Scheduler.{SelectError}
use pumpkin_pie.AgentMgr.Messages.{PortMapping, MasterMessage}
use pumpkin_pie.AgentMgr.State.{Session, Manager, Failure, send, get}
use pumpkin_pie.Proxy.{Proxy, bind_port, register_route, unregister_route}

-- api.Server: the store is the manager's.
pub record Master : Type 0 where
  pub manager : Manager
  pub proxy : Proxy

-- The texts of the error replies, with what they quote.
pub data Reason : Type 0 where
  says : String → Reason
  of_store : Error → Reason
  -- "alloc port: …", "persist gpu indices: …"
  while_doing : String → Error → Reason
  of_send : Failure → Reason
  duplicate_index : ℕ → Reason
  count_disagrees : ℕ → ℕ → Reason
  out_of_range : ℕ → ℕ → String → ℕ → Reason
  few_free : String → ℕ → ℕ → Reason
  of_select : SelectError → Reason

pub record Refusal : Type 0 where
  pub status : ℕ
  pub reason : Reason

abbrev pub Api : Type 0 → Type 0
Api A = Exec Master Refusal A

abbrev pub refusal : ℕ → Reason → Refusal
refusal status reason = record { status = status; reason = reason }

-- json.Marshal and json.Unmarshal at the types that the handlers use: `indices_in` is what is left
-- in the slice, `ports_in` is `none` on an error.
pub record Codec : Type 0 where
  pub texts : List String → String
  pub ports : List PortMapping → String
  pub indices : List ℕ → String
  pub indices_in : String → List ℕ
  pub ports_in : String → Option (List PortMapping)

unfoldable pub answered : {A : Type 0} → (Error → Refusal) → Result Error A → Api A
answered refuse (ok a) s = (ok a, s)
answered refuse (err e) s = (err (refuse e), s)

-- A call of the store; an error is the handler's reply.
unfoldable pub on_store : {A : Type 0} → (Error → Refusal) → Sql A → Api A
unfolding answered
on_store refuse call s =
    let (r, db) = call s.manager.db in
    answered refuse r (record s { manager = record s.manager { db = db } })

-- `_ = s.store.…`
unfoldable pub best_effort : {A : Type 0} → Sql A → Master → Master
best_effort call s = record s { manager = record s.manager { db = (call s.manager.db).1 } }

unfoldable pub doing : (Master → Master) → Api Unit
doing f s = (ok tt, f s)

unfoldable pub sent : Result Failure Unit → Api Unit
sent (ok _) s = (ok tt, s)
sent (err why) s = (err (refusal 500 (of_send why)), s)

-- sess.Send
unfoldable pub send_to : Session → MasterMessage → Api Unit
unfolding send sent
send_to session message s =
    let (r, m) = send session.stream message s.manager in sent r (record s { manager = m })

-- s.mgr.Get, or the reply where the node has no session
unfoldable pub or_offline : String → Option Session → Api Session
or_offline text none s = (err (refusal 400 (says text)), s)
or_offline text (some session) s = (ok session, s)

unfoldable pub session_for : String → String → Api Session
unfolding or_offline get
session_for text node s = or_offline text (get node s.manager) s

-- RegisterRoute, then BindPort, whose error is only logged
unfoldable pub publish_port : ℕ → String → String → ℕ → Master → Master
unfolding register_route bind_port
publish_port port container node host_port s = record s {
  proxy = (bind_port port (register_route port container node host_port s.proxy)).1;
}

unfoldable pub withdraw_port : ℕ → Master → Master
unfolding unregister_route
withdraw_port port s = record s { proxy = (unregister_route port s.proxy).1 }
