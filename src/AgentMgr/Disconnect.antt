-- ===== src/AgentMgr/Disconnect.antt =====
-- internal/master/agentmgr/manager.go: the end of a stream, and HandleMessages.
use pumpkin_pie.Prelude.{
  ℕ, String, Bool, ◌||◌, ◌&&◌, ◌<>◌, ◌==◌, Option, none, some, List, [], ◌∷◌, if◌then◌else◌,
}
use pumpkin_pie.Exec.{Result, ok, err}
use pumpkin_pie.Store.Tables.{Container, Error, Time}
use pumpkin_pie.Store.Nodes.{update_node_state}
use pumpkin_pie.Store.Containers.{update_container_state, list_containers}
use pumpkin_pie.Store.Gpus.{free_gpus}
use pumpkin_pie.AgentMgr.Messages.{AgentMessage}
use pumpkin_pie.AgentMgr.State.{Session, Manager, ignoring, publish, get, close_found, drop_session}
use pumpkin_pie.AgentMgr.Reports.{Json}
use pumpkin_pie.AgentMgr.Handlers.{update_of, handle_incoming}

unfoldable pub is_transient : String → Container → Bool
is_transient node c = c.node_id == node && (c.state == "starting" || c.state == "stopping")

-- one round of revertTransientOnDisconnect
unfoldable pub revert_one : Time → String → String → Container → Manager → Manager
unfolding is_transient ignoring update_container_state free_gpus publish
revert_one now node status c m =
    if is_transient node c
    then publish (update_of "container" now node) (
        ignoring (free_gpus c.id)
          (ignoring (update_container_state now c.id c.docker_id "error" status) m))
    else m

unfoldable pub revert_all : Time → String → String → List Container → Manager → Manager
unfolding revert_one
revert_all now node status [] m = m
revert_all now node status (c ∷ cs) m =
    revert_all now node status cs (revert_one now node status c m)

unfoldable pub revert_listed :
    Time → String → String → Result Error (List Container) → Manager → Manager
unfolding revert_all
revert_listed now node status (err e) m = m
revert_listed now node status (ok all) m = revert_all now node status all m

unfoldable pub revert_transient_on_disconnect : Time → String → String → Manager → Manager
unfolding revert_listed list_containers
revert_transient_on_disconnect now node reason m =
    let (all, db) = list_containers m.db in
    revert_listed now node ("agent disconnected: " <> reason) all (record m { db = db })

unfoldable pub handle_disconnect : Time → String → String → Manager → Manager
unfolding close_found get drop_session ignoring update_node_state publish
    revert_transient_on_disconnect
handle_disconnect now node why m =
    let left = close_found (get node m) (drop_session node m) in
    revert_transient_on_disconnect now node why
      (publish (update_of "state" now node) (ignoring (update_node_state now node "offline") left))

-- A message with the clock at its arrival, the store's and the milliseconds since 1970.
pub record Arrival : Type 0 where
  pub now : Time
  pub now_ms : ℕ
  pub message : AgentMessage

-- The loop of HandleMessages: the messages that stream.Recv returns, then its error at a time.
unfoldable pub receive : Json → Session → String → List Arrival → Time → String → Manager → Manager
unfolding handle_incoming handle_disconnect
receive json s node [] ended why m = handle_disconnect ended node why m
receive json s node (a ∷ rest) ended why m =
    receive json s node rest ended why (handle_incoming json a.now a.now_ms s a.message m)

unfoldable pub receive_for :
    Json → Option Session → String → List Arrival → Time → String → Manager → String × Manager
unfolding receive
receive_for json none node arrivals ended why m = ("session missing", m)
receive_for json (some s) node arrivals ended why m =
    (why, receive json s node arrivals ended why m)

-- HandleMessages: the error it returns, and what is left behind
unfoldable pub handle_messages :
    Json → String → List Arrival → Time → String → Manager → String × Manager
unfolding receive_for get
handle_messages json node arrivals ended why m =
    receive_for json (get node m) node arrivals ended why m
