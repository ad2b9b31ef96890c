-- ===== src/AgentMgr/State.antt =====
-- internal/master/agentmgr/manager.go: the manager's state, its channels and its sessions.
use pumpkin_pie.Prelude.{
  ℕ, String, not, ◌==◌, Option, none, some, List, [], ◌∷◌, ◌++◌, map, length, ltb, find, keep,
  if◌then◌else◌,
}
use pumpkin_pie.Exec.{Result, ok, err, Exec}
use pumpkin_pie.Store.Tables.{Node, Db, Error, Time, Float64}
use pumpkin_pie.Store.Sql.{Sql}
use pumpkin_pie.AgentMgr.Messages.{GpuDevice, DiskStats, MasterMessage}

pub record NodeUpdate : Type 0 where
  pub node_id : String
  pub kind : String
  pub at_time : Time
  pub snapshot : Option Node

-- metrics.Metric; GPUSample and DiskSample have the fields of GpuDevice and DiskStats. `ts` is in
-- milliseconds since 1970, as the 64-bit pattern.
pub record Metric : Type 0 where
  pub node_id : String
  pub node_name : String
  pub cpu_percent : Float64
  pub cpu_cores : ℕ
  pub mem_used_bytes : ℕ
  pub mem_total_bytes : ℕ
  pub load1 : Float64
  pub gpu_count : ℕ
  pub gpu_usage_avg : Float64
  pub gpu_mem_used : ℕ
  pub gpu_mem_total : ℕ
  pub gpu_devices : List GpuDevice
  pub disks : List DiskStats
  pub ts : ℕ

-- A session names its gRPC stream by a number.
pub record Session : Type 0 where
  pub node_id : String
  pub node_name : String
  pub remote_host : String
  pub stream : ℕ

-- `sessions` is the map by node id, `closed` the streams whose session was closed, `updates` and
-- `sink_queue` what waits in the channels (oldest first), `sent` what was sent on which stream
-- (newest first), and `send_faults` the oracle of the failures of the next sends.
pub record Manager : Type 0 where
  pub db : Db
  pub sessions : List Session
  pub closed : List ℕ
  pub updates : List NodeUpdate
  pub sink_queue : List Metric
  pub sent : List (ℕ × MasterMessage)
  pub send_faults : List (Option String)

-- The errors of the package: the store's, and texts of its own.
pub data Failure : Type 0 where
  of_store : Error → Failure
  says : String → Failure

abbrev pub Managed : Type 0 → Type 0
Managed A = Exec Manager Failure A

abbrev pub updates_capacity : ℕ
updates_capacity = 256

abbrev pub sink_capacity : ℕ
sink_capacity = 1024

-- A call of the store that hands its result to what follows, error or not.
unfoldable pub on_store : {A B : Type 0} → Sql A → (Result Error A → Managed B) → Managed B
on_store call next m = let (r, db) = call m.db in next r (record m { db = db })

-- if err := …; err != nil { return err }
unfoldable pub or_fail : {A B : Type 0} → (A → Managed B) → Result Error A → Managed B
or_fail next (ok a) m = next a m
or_fail next (err e) m = (err (of_store e), m)

-- `_ = m.store.…`
unfoldable pub ignoring : {A : Type 0} → Sql A → Manager → Manager
ignoring call m = record m { db = (call m.db).1 }

-- A send into a buffered channel, under a select with a default.
unfoldable pub offer : {A : Type 0} → ℕ → A → List A → List A
offer capacity x waiting = if ltb (length waiting) capacity then waiting ++ x ∷ [] else waiting

unfoldable pub publish : NodeUpdate → Manager → Manager
unfolding offer
publish u m = record m { updates = offer updates_capacity u m.updates }

unfoldable pub enqueue_metric : Metric → Manager → Manager
unfolding offer
enqueue_metric metric m = record m { sink_queue = offer sink_capacity metric m.sink_queue }

unfoldable pub session_of : String → List Session → Option Session
session_of id = find (λ s. s.node_id == id)

-- Get
unfoldable pub get : String → Manager → Option Session
unfolding session_of
get id m = session_of id m.sessions

-- Online; the order is the list's
unfoldable pub online : Manager → List String
online m = map (λ s. s.node_id) m.sessions

-- (*Session).close, of the session that a lookup found
unfoldable pub close_found : Option Session → Manager → Manager
close_found none m = m
close_found (some s) m = record m { closed = s.stream ∷ m.closed }

-- delete(m.sessions, nodeID)
unfoldable pub drop_session : String → Manager → Manager
drop_session id m = record m { sessions = keep (λ s. not (s.node_id == id)) m.sessions }

-- m.sessions[nodeID] = sess, after the session that was there is closed
unfoldable pub supersede : Session → Manager → Manager
unfolding close_found get drop_session
supersede s m =
    let m' = drop_session s.node_id (close_found (get s.node_id m) m) in
    record m' { sessions = s ∷ m'.sessions }

unfoldable pub deliver : ℕ → MasterMessage → Option String → List (Option String) → Managed Unit
deliver stream message none rest m =
    (ok tt, record m { sent = (stream, message) ∷ m.sent; send_faults = rest })
deliver stream message (some why) rest m = (err (says why), record m { send_faults = rest })

-- stream.Send
unfoldable pub send : ℕ → MasterMessage → Managed Unit
unfolding deliver
send stream message m = elim m.send_faults [
  | [] ↦ deliver stream message none [] m
  | f ∷ fs ↦ deliver stream message f fs m
]
