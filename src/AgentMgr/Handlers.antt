-- ===== src/AgentMgr/Handlers.antt =====
-- internal/master/agentmgr/manager.go: the messages of a connected agent.
use pumpkin_pie.Prelude.{ℕ, String, Bool, true, false, ◌||◌, ◌==◌, none, if◌then◌else◌}
use pumpkin_pie.Exec.{Result, ok, err}
use pumpkin_pie.Store.Tables.{Error, Time}
use pumpkin_pie.Store.Nodes.{update_node_state}
use pumpkin_pie.Store.Containers.{update_container_state, container_exists}
use pumpkin_pie.Store.Gpus.{free_gpus}
use pumpkin_pie.AgentMgr.Messages.{
  Ack, ContainerStateChanged, AgentMessage, register, heartbeat, metrics, container_created,
  container_stopped, container_started, container_state_changed,
}
use pumpkin_pie.AgentMgr.State.{NodeUpdate, Session, Manager, ignoring, publish}
use pumpkin_pie.AgentMgr.Reports.{Json, handle_metrics}

abbrev pub update_of : String → Time → String → NodeUpdate
update_of kind now id = record { node_id = id; kind = kind; at_time = now; snapshot = none }

-- handleContainerCreated and handleContainerStarted, whose bodies are the same
unfoldable pub handle_running : Time → Session → Ack → Manager → Manager
unfolding ignoring free_gpus update_container_state publish
handle_running now s c m = publish (update_of "container" now s.node_id) (
    if c.error == ""
    then ignoring (update_container_state now c.container_id c.docker_id "running" "running") m
    else ignoring (update_container_state now c.container_id c.docker_id "error" c.error)
        (ignoring (free_gpus c.container_id) m))

unfoldable pub handle_container_created : Time → Session → Ack → Manager → Manager
unfolding handle_running
handle_container_created now s c m = handle_running now s c m

unfoldable pub handle_container_started : Time → Session → Ack → Manager → Manager
unfolding handle_running
handle_container_started now s c m = handle_running now s c m

unfoldable pub handle_container_stopped : Time → Session → Ack → Manager → Manager
unfolding ignoring update_container_state publish
handle_container_stopped now s c m = publish (update_of "container" now s.node_id) (
    if c.error == ""
    then ignoring (update_container_state now c.container_id c.docker_id "exited" "exited") m
    else ignoring (update_container_state now c.container_id c.docker_id "error" c.error) m)

unfoldable pub is_terminal_gpu_action : String → Bool
is_terminal_gpu_action action =
    action == "die" || action == "stop" || action == "kill" || action == "destroy"

-- What follows ContainerExists.
unfoldable pub apply_change :
    Time → Session → ContainerStateChanged → Result Error Bool → Manager → Manager
unfolding ignoring update_container_state free_gpus is_terminal_gpu_action publish
apply_change now s c (err e) m = m
apply_change now s c (ok false) m = m
apply_change now s c (ok true) m =
    let m' = ignoring (update_container_state now c.container_id c.docker_id c.state c.status) m in
    publish (update_of "container" now s.node_id)
      (if is_terminal_gpu_action c.action then ignoring (free_gpus c.container_id) m' else m')

unfoldable pub handle_container_state_changed :
    Time → Session → ContainerStateChanged → Manager → Manager
unfolding container_exists apply_change
handle_container_state_changed now s c m =
    let (r, db) = container_exists c.container_id m.db in
    if c.container_id == "" || c.state == ""
    then m
    else apply_change now s c r (record m { db = db })

-- handleIncoming; a second RegisterRequest falls through the switch
unfoldable pub handle_incoming : Json → Time → ℕ → Session → AgentMessage → Manager → Manager
unfolding ignoring update_node_state publish handle_metrics handle_container_created
    handle_container_stopped handle_container_started handle_container_state_changed
handle_incoming json now now_ms s (register reg) m = m
handle_incoming json now now_ms s (heartbeat ts) m =
    publish (update_of "state" now s.node_id)
      (ignoring (update_node_state now s.node_id "online") m)
handle_incoming json now now_ms s (metrics r) m = handle_metrics json now now_ms s r m
handle_incoming json now now_ms s (container_created c) m = handle_container_created now s c m
handle_incoming json now now_ms s (container_stopped c) m = handle_container_stopped now s c m
handle_incoming json now now_ms s (container_started c) m = handle_container_started now s c m
handle_incoming json now now_ms s (container_state_changed c) m =
    handle_container_state_changed now s c m
