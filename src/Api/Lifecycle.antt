-- ===== src/Api/Lifecycle.antt =====
-- internal/master/api/api.go: deleteContainer, startContainer and stopContainer.
use pumpkin_pie.Prelude.{
  ℕ, String, Bool, true, false, Option, none, some, List, [], ◌∷◌, nat_eq, ◌==◌, if◌then◌else◌,
}
use pumpkin_pie.Exec.{ok, err, pure, ◌>>=◌, ◌>>◌}
use pumpkin_pie.Store.Tables.{
  Container, Time, Error, no_rows, driver, insufficient_gpus, gpu_taken, no_free_port,
}
use pumpkin_pie.Store.Containers.{get_container, update_container_state, delete_container}
use pumpkin_pie.Store.Ports.{free_port}
use pumpkin_pie.Store.Gpus.{alloc_specific_gpus, free_gpus}
use pumpkin_pie.AgentMgr.Messages.{PortMapping, start_container, stop_container}
use pumpkin_pie.AgentMgr.State.{Session, get}
use pumpkin_pie.Api.State.{
  Master, Refusal, refusal, Api, Codec, says, of_store, on_store, best_effort, doing, send_to,
  session_for, publish_port, withdraw_port,
}
use pumpkin_pie.Api.Create.{undoing}

-- GetContainer, or 404
unfoldable pub find_container : String → Api Container
unfolding on_store get_container
find_container id = on_store (λ e. refusal 404 (of_store e)) (get_container id)

-- The error of sendStopCommand is the reply, with status 500 where the node is offline too.
unfoldable pub or_node_offline : Option Session → Api Session
or_node_offline none s = (err (refusal 500 (says "node offline")), s)
or_node_offline (some session) s = (ok session, s)

unfoldable pub send_stop_command : Container → Bool → Api Unit
unfolding or_node_offline get send_to ◌>>=◌
send_stop_command c remove s =
    (or_node_offline (get c.node_id s.manager) >>= λ session.
    send_to session
      (stop_container (record { container_id = c.id; docker_id = c.docker_id; remove = remove })))
      s

unfoldable pub withdraw : Container → Master → Master
unfolding withdraw_port
withdraw c s = if nat_eq c.external_port 0 then s else withdraw_port c.external_port s

-- The port, the GPUs and the row of a container whose removal was sent.
unfoldable pub forget : Container → Master → Master
unfolding withdraw best_effort free_port free_gpus delete_container
forget c s =
    let s' = withdraw c s in
    let unported =
      if nat_eq c.external_port 0 then s' else best_effort (free_port c.external_port) s' in
    best_effort (delete_container c.id) (best_effort (free_gpus c.id) unported)

-- The path's id finds the row, so `id` and `cc.ID` are the same.
unfoldable pub handle_delete : String → Api Unit
unfolding find_container send_stop_command doing forget ◌>>=◌
handle_delete id = find_container id >>= λ c. (send_stop_command c true >> doing (forget c))

unfoldable pub set_state_of : Time → Container → String → String → Master → Master
unfolding best_effort update_container_state
set_state_of now c state status =
    best_effort (update_container_state now c.id c.docker_id state status)

-- What follows the send of a stop: the port and the GPUs.
unfoldable pub let_go : Container → Master → Master
unfolding withdraw best_effort free_gpus
let_go c s = best_effort (free_gpus c.id) (withdraw c s)

unfoldable pub stop_found : Time → Container → Api Unit
unfolding doing set_state_of undoing send_stop_command let_go ◌>>=◌
stop_found now c =
    doing (set_state_of now c "stopping" "stopping")
    >> (undoing (set_state_of now c c.state c.status) (send_stop_command c false)
        >> doing (let_go c))

unfoldable pub handle_stop : Time → String → Api Unit
unfolding find_container stop_found ◌>>=◌
handle_stop now id = find_container id >>= stop_found now

-- if cc.GPUIndicesJSON != ""
unfoldable pub saved_gpus : Codec → Container → List ℕ
saved_gpus codec c = if c.gpu_indices_json == "" then [] else codec.indices_in c.gpu_indices_json

-- The status of a failed reservation: 409 only for ErrGPUTaken.
unfoldable pub start_refusal : Error → Refusal
start_refusal (gpu_taken index node) = refusal 409 (of_store (gpu_taken index node))
start_refusal (insufficient_gpus requested free total) =
    refusal 500 (of_store (insufficient_gpus requested free total))
start_refusal no_rows = refusal 500 (of_store no_rows)
start_refusal (driver message) = refusal 500 (of_store (driver message))
start_refusal (no_free_port start end) = refusal 500 (of_store (no_free_port start end))

unfoldable pub reserve_saved : Time → Container → List ℕ → Api Unit
unfolding on_store alloc_specific_gpus start_refusal pure
reserve_saved now c [] = pure tt
reserve_saved now c (i ∷ is) =
    on_store start_refusal (alloc_specific_gpus now c.node_id c.id (i ∷ is))

-- The roll-back of a start that was not sent.
unfoldable pub unstart : Time → Container → List ℕ → Master → Master
unfolding set_state_of best_effort free_gpus
unstart now c [] s = set_state_of now c c.state c.status s
unstart now c (i ∷ is) s = best_effort (free_gpus c.id) (set_state_of now c c.state c.status s)

unfoldable pub host_port_of : Option (List PortMapping) → ℕ
host_port_of none = 0
host_port_of (some []) = 0
host_port_of (some (p ∷ ps)) = p.host_port

unfoldable pub first_host_port : Codec → Container → ℕ
unfolding host_port_of
first_host_port codec c =
    if c.ports_json == "" then 0 else host_port_of (codec.ports_in c.ports_json)

-- Re-bind the proxy port and the route
unfoldable pub rebind : Codec → Container → Master → Master
unfolding publish_port first_host_port
rebind codec c s =
    if nat_eq c.external_port 0
    then s
    else publish_port c.external_port c.id c.node_id (first_host_port codec c) s

unfoldable pub start_found : Codec → Time → Container → Session → Api Unit
unfolding reserve_saved saved_gpus doing set_state_of undoing unstart send_to rebind ◌>>=◌
start_found codec now c session =
    reserve_saved now c (saved_gpus codec c)
    >> (doing (set_state_of now c "starting" "starting")
        >> (undoing (unstart now c (saved_gpus codec c)) (
              send_to session
                (start_container (record { container_id = c.id; docker_id = c.docker_id })))
            >> doing (rebind codec c)))

unfoldable pub handle_start : Codec → Time → String → Api Unit
unfolding find_container session_for start_found ◌>>=◌
handle_start codec now id = find_container id >>= λ c.
    session_for "node offline" c.node_id >>= λ session. start_found codec now c session
