-- ===== src/AgentMgr/Steps.antt =====
-- The manager's transitions, whichever goroutine makes them: the gRPC streams of the agents, the
-- HTTP API's calls of the store, and the readers of the two channels.
use pumpkin_pie.Prelude.{ℕ, String, List, ◌∷◌, length, arith, ◌≡◌, ap}
use pumpkin_pie.Exec.{Result}
use pumpkin_pie.Store.Tables.{Time}
use pumpkin_pie.Store.Calls.{Call, run_call, run_call-Lasting}
use pumpkin_pie.AgentMgr.Messages.{AgentMessage}
use pumpkin_pie.AgentMgr.State.{Session, Manager, NodeUpdate, Metric}
use pumpkin_pie.AgentMgr.Register.{Connection, on_agent_connect}
use pumpkin_pie.AgentMgr.Reports.{Json}
use pumpkin_pie.AgentMgr.Handlers.{handle_incoming}
use pumpkin_pie.AgentMgr.Disconnect.{handle_disconnect}
use pumpkin_pie.AgentMgr.Soundness.{IsSound, with_db-IsSound}
use pumpkin_pie.AgentMgr.Connected.{on_agent_connect-IsSound}
use pumpkin_pie.AgentMgr.Handled.{handle_incoming-IsSound, handle_disconnect-IsSound}

pub data Step (json : Json) : Manager → Manager → Type 0 where
  connects :
      (conn : Connection) (first : Result String AgentMessage) (m : Manager)
      → Step json m (on_agent_connect conn first m).1
  -- a message on any session, one that was superseded included
  receives :
      (now : Time) (now_ms : ℕ) (s : Session) (message : AgentMessage) (m : Manager)
      → Step json m (handle_incoming json now now_ms s message m)
  disconnects :
      (now : Time) (node why : String) (m : Manager)
      → Step json m (handle_disconnect now node why m)
  calls : (c : Call) (m : Manager) → Step json m (record m { db = run_call c m.db })
  -- the websocket handler takes an update, and the sink's worker a metric
  takes_update :
      (u : NodeUpdate) (us : List NodeUpdate) (m : Manager)
      → m.updates ≡ u ∷ us
      → Step json m (record m { updates = us })
  takes_metric :
      (x : Metric) (xs : List Metric) (m : Manager)
      → m.sink_queue ≡ x ∷ xs
      → Step json m (record m { sink_queue = xs })

pub data Reaches (json : Json) : Manager → Manager → Type 0 where
  stays : (m : Manager) → Reaches json m m
  after : (m m' m'' : Manager) → Reaches json m m' → Step json m' m'' → Reaches json m m''

Step-IsSound : (json : Json) (m m' : Manager) → Step json m m' → IsSound m → IsSound m'
Step-IsSound json _ _ (connects conn first m) sound = on_agent_connect-IsSound conn first m sound
Step-IsSound json _ _ (receives now now_ms s message m) sound =
    handle_incoming-IsSound json now now_ms s message m sound
Step-IsSound json _ _ (disconnects now node why m) sound =
    handle_disconnect-IsSound now node why m sound
Step-IsSound json _ _ (calls c m) sound =
    with_db-IsSound m (run_call c m.db) (λ P w. run_call-Lasting w c m.db) sound
Step-IsSound json _ _ (takes_update u us m e) sound = record {
  tables = sound.tables;
  registered = sound.registered;
  single = sound.single;
  updates_bound = ground (arith, ap length e, sound.updates_bound);
  sink_bound = sound.sink_bound;
}
Step-IsSound json _ _ (takes_metric x xs m e) sound = record {
  tables = sound.tables;
  registered = sound.registered;
  single = sound.single;
  updates_bound = sound.updates_bound;
  sink_bound = ground (arith, ap length e, sound.sink_bound);
}

-- In every manager that is reached from a sound one, by any interleaving of connects, messages,
-- disconnects, store calls and channel reads, and whatever fails in them: the tables meet their
-- constraints, no node has two sessions, every session is of a node that has a row, and the
-- channels of updates and of metrics hold at most 256 and 1024 entries.
pub Reaches-IsSound : (json : Json) (m m' : Manager) → Reaches json m m' → IsSound m → IsSound m'
Reaches-IsSound json _ _ (stays m) sound = sound
Reaches-IsSound json _ _ (after m m' m'' before step) sound =
    Step-IsSound json m' m'' step (Reaches-IsSound json m m' before sound)
