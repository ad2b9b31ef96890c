-- ===== src/AgentMgr/Handled.antt =====
-- The handlers of messages and of disconnects keep the manager's invariant.
use pumpkin_pie.Prelude.{
  refl, ℕ, String, true, false, Bool, ◌||◌, ◌==◌, List, [], ◌∷◌, if◌then◌else◌,
}
use pumpkin_pie.Exec.{Result, ok, err}
use pumpkin_pie.Store.Tables.{Node, Container, Error, Time}
use pumpkin_pie.Store.Nodes.{update_node_state, update_node_metrics}
use pumpkin_pie.Store.Containers.{
  update_container_state, set_state, container_exists, list_containers,
}
use pumpkin_pie.Store.Gpus.{free_gpus}
use pumpkin_pie.Store.Reads.{container_exists-Keeps, list_containers-Keeps}
use pumpkin_pie.Store.Lasting.{
  update_node_state-Safe, update_node_metrics-Safe, update_container-Safe, free_gpus-Safe,
}
use pumpkin_pie.AgentMgr.Messages.{
  Ack, ContainerStateChanged, AgentMessage, MetricReport, register, heartbeat, metrics,
  container_created, container_stopped, container_started, container_state_changed,
}
use pumpkin_pie.AgentMgr.State.{Session, Manager, ignoring, get}
use pumpkin_pie.AgentMgr.Reports.{
  Json, publish_metrics, store_metrics, handle_metrics, reported_node,
}
use pumpkin_pie.AgentMgr.Handlers.{
  handle_running, handle_container_created, handle_container_started, handle_container_stopped,
  apply_change, handle_container_state_changed, handle_incoming, is_terminal_gpu_action,
}
use pumpkin_pie.AgentMgr.Disconnect.{
  is_transient, revert_one, revert_all, revert_listed, revert_transient_on_disconnect,
  handle_disconnect,
}
use pumpkin_pie.AgentMgr.Soundness.{
  IsSound, with_db-IsSound, ignoring-IsSound, publish-IsSound, enqueue_metric-IsSound,
  close_found-IsSound, drop_session-IsSound,
}

if-IsSound : (b : Bool) (m m' : Manager) → IsSound m → IsSound m' → IsSound (if b then m else m')
if-IsSound true m m' sound sound' = sound
if-IsSound false m m' sound sound' = sound'

state-IsSound :
    (now : Time) (id docker_id state status : String) (m : Manager)
    → IsSound m
    → IsSound (ignoring (update_container_state now id docker_id state status) m)
unfolding update_container_state set_state
state-IsSound now id docker_id state status m sound =
    ignoring-IsSound (update_container_state now id docker_id state status) m
      (λ P w. update_container-Safe w id _ (λ c. refl) (λ c. refl)) sound

freed-IsSound : (id : String) (m : Manager) → IsSound m → IsSound (ignoring (free_gpus id) m)
freed-IsSound id m sound = ignoring-IsSound (free_gpus id) m (λ P w. free_gpus-Safe w id) sound

node_state-IsSound :
    (now : Time) (id state : String) (m : Manager)
    → IsSound m
    → IsSound (ignoring (update_node_state now id state) m)
node_state-IsSound now id state m sound =
    ignoring-IsSound (update_node_state now id state) m
      (λ P w. update_node_state-Safe w now id state) sound

handle_running-IsSound :
    (now : Time) (s : Session) (c : Ack) (m : Manager)
    → IsSound m
    → IsSound (handle_running now s c m)
unfolding handle_running
handle_running-IsSound now s c m sound = publish-IsSound _ _ (
    if-IsSound (c.error == "") _ _
      (state-IsSound now c.container_id c.docker_id "running" "running" m sound)
      (state-IsSound now c.container_id c.docker_id "error" c.error _
        (freed-IsSound c.container_id m sound)))

handle_container_stopped-IsSound :
    (now : Time) (s : Session) (c : Ack) (m : Manager)
    → IsSound m
    → IsSound (handle_container_stopped now s c m)
unfolding handle_container_stopped
handle_container_stopped-IsSound now s c m sound = publish-IsSound _ _ (
    if-IsSound (c.error == "") _ _
      (state-IsSound now c.container_id c.docker_id "exited" "exited" m sound)
      (state-IsSound now c.container_id c.docker_id "error" c.error m sound))

apply_change-IsSound :
    (now : Time) (s : Session) (c : ContainerStateChanged) (r : Result Error Bool) (m : Manager)
    → IsSound m
    → IsSound (apply_change now s c r m)
unfolding apply_change
apply_change-IsSound now s c (err e) m sound = sound
apply_change-IsSound now s c (ok false) m sound = sound
apply_change-IsSound now s c (ok true) m sound =
    let stored = state-IsSound now c.container_id c.docker_id c.state c.status m sound in
    publish-IsSound _ _ (
      if-IsSound (is_terminal_gpu_action c.action) _ _ (freed-IsSound c.container_id _ stored)
        stored)

handle_container_state_changed-IsSound :
    (now : Time) (s : Session) (c : ContainerStateChanged) (m : Manager)
    → IsSound m
    → IsSound (handle_container_state_changed now s c m)
unfolding handle_container_state_changed
handle_container_state_changed-IsSound now s c m sound =
    let (r, db) = container_exists c.container_id m.db in
    if-IsSound (c.container_id == "" || c.state == "") m
      (apply_change now s c r (record m { db = db })) sound
      (apply_change-IsSound now s c r (record m { db = db })
        (with_db-IsSound m db (λ P w. (container_exists-Keeps P c.container_id).at m.db) sound))

publish_metrics-IsSound :
    (now : Time) (n : Node) (r : Result Error Unit) (m : Manager)
    → IsSound m
    → IsSound (publish_metrics now n r m)
unfolding publish_metrics
publish_metrics-IsSound now n (ok _) m sound = publish-IsSound _ m sound
publish_metrics-IsSound now n (err e) m sound = sound

store_metrics-IsSound :
    (now : Time) (n : Node) (m : Manager) → IsSound m → IsSound (store_metrics now n m)
unfolding store_metrics
store_metrics-IsSound now n m sound =
    let (r, db) = update_node_metrics now n m.db in
    publish_metrics-IsSound now n r (record m { db = db })
      (with_db-IsSound m db (λ P w. (update_node_metrics-Safe w now n).at m.db) sound)

handle_metrics-IsSound :
    (json : Json) (now : Time) (now_ms : ℕ) (s : Session) (r : MetricReport) (m : Manager)
    → IsSound m
    → IsSound (handle_metrics json now now_ms s r m)
unfolding handle_metrics
handle_metrics-IsSound json now now_ms s r m sound =
    enqueue_metric-IsSound _ _ (store_metrics-IsSound now (reported_node json s.node_id r) m sound)

pub handle_incoming-IsSound :
    (json : Json) (now : Time) (now_ms : ℕ) (s : Session) (message : AgentMessage) (m : Manager)
    → IsSound m
    → IsSound (handle_incoming json now now_ms s message m)
unfolding handle_incoming handle_container_created handle_container_started
handle_incoming-IsSound json now now_ms s (register reg) m sound = sound
handle_incoming-IsSound json now now_ms s (heartbeat ts) m sound =
    publish-IsSound _ _ (node_state-IsSound now s.node_id "online" m sound)
handle_incoming-IsSound json now now_ms s (metrics r) m sound =
    handle_metrics-IsSound json now now_ms s r m sound
handle_incoming-IsSound json now now_ms s (container_created c) m sound =
    handle_running-IsSound now s c m sound
handle_incoming-IsSound json now now_ms s (container_stopped c) m sound =
    handle_container_stopped-IsSound now s c m sound
handle_incoming-IsSound json now now_ms s (container_started c) m sound =
    handle_running-IsSound now s c m sound
handle_incoming-IsSound json now now_ms s (container_state_changed c) m sound =
    handle_container_state_changed-IsSound now s c m sound

revert_one-IsSound :
    (now : Time) (node status : String) (c : Container) (m : Manager)
    → IsSound m
    → IsSound (revert_one now node status c m)
unfolding revert_one
revert_one-IsSound now node status c m sound =
    if-IsSound (is_transient node c) _ m
      (publish-IsSound _ _
        (freed-IsSound c.id _ (state-IsSound now c.id c.docker_id "error" status m sound)))
      sound

revert_all-IsSound :
    (now : Time) (node status : String) (cs : List Container) (m : Manager)
    → IsSound m
    → IsSound (revert_all now node status cs m)
unfolding revert_all
revert_all-IsSound now node status [] m sound = sound
revert_all-IsSound now node status (c ∷ cs) m sound =
    revert_all-IsSound now node status cs _ (revert_one-IsSound now node status c m sound)

revert_listed-IsSound :
    (now : Time) (node status : String) (r : Result Error (List Container)) (m : Manager)
    → IsSound m
    → IsSound (revert_listed now node status r m)
unfolding revert_listed
revert_listed-IsSound now node status (err e) m sound = sound
revert_listed-IsSound now node status (ok all) m sound =
    revert_all-IsSound now node status all m sound

revert_transient-IsSound :
    (now : Time) (node reason : String) (m : Manager)
    → IsSound m
    → IsSound (revert_transient_on_disconnect now node reason m)
unfolding revert_transient_on_disconnect
revert_transient-IsSound now node reason m sound =
    let (r, db) = list_containers m.db in
    revert_listed-IsSound now node _ r (record m { db = db })
      (with_db-IsSound m db (λ P w. (list_containers-Keeps P).at m.db) sound)

pub handle_disconnect-IsSound :
    (now : Time) (node why : String) (m : Manager)
    → IsSound m
    → IsSound (handle_disconnect now node why m)
unfolding handle_disconnect
handle_disconnect-IsSound now node why m sound = revert_transient-IsSound now node why _ (
    publish-IsSound _ _ (
      node_state-IsSound now node "offline" _
        (close_found-IsSound (get node m) _ (drop_session-IsSound node m sound))))
