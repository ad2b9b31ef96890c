-- ===== src/Api/Served.antt =====
-- Every request that writes, and every sequence of them, keeps the manager's invariant.
use pumpkin_pie.Prelude.{
  ℕ, String, Bool, true, false, Option, none, some, List, [], ◌∷◌, nat_eq, if◌then◌else◌,
}
use pumpkin_pie.Exec.{Result}
use pumpkin_pie.Exec.Keeps.{Keeps, Keeps-bind, Keeps-pure}
use pumpkin_pie.Float.{FloatOps}
use pumpkin_pie.Store.Tables.{Container, Time}
use pumpkin_pie.Store.Containers.{update_container_state, get_container}
use pumpkin_pie.Store.Gpus.{alloc_specific_gpus, free_gpus}
use pumpkin_pie.Store.Ports.{free_port}
use pumpkin_pie.Store.Reads.{get_container-Keeps}
use pumpkin_pie.Store.Lasting.{alloc_specific_gpus-Safe, free_port-Safe}
use pumpkin_pie.AgentMgr.Messages.{start_container}
use pumpkin_pie.AgentMgr.State.{Session, get}
use pumpkin_pie.Api.State.{Master, Codec, best_effort, withdraw_port}
use pumpkin_pie.Api.Checks.{CreateContainerReq}
use pumpkin_pie.Api.Create.{Call, handle_create}
use pumpkin_pie.Api.Lifecycle.{
  find_container, or_node_offline, send_stop_command, withdraw, forget, handle_delete, set_state_of,
  let_go, stop_found, handle_stop, saved_gpus, reserve_saved, start_refusal, unstart, rebind,
  first_host_port, start_found, handle_start,
}
use pumpkin_pie.Api.Actions.{
  Sound, on_store-Sound, best_effort-Sound, undoing-Sound, doing-Sound, send_to-Sound,
  session_for-Sound,
}
use pumpkin_pie.Api.Kept.{
  if-Sound, freed-Sound, deleted-Sound, publish_port-Sound, state-Safe, handle_create-Sound,
}

find_container-Sound : (id : String) → Keeps Sound (find_container id)
unfolding find_container
find_container-Sound id = on_store-Sound _ (get_container id) (λ P w. get_container-Keeps P id)

or_node_offline-Sound : (o : Option Session) → Keeps Sound (or_node_offline o)
unfolding or_node_offline
or_node_offline-Sound none = record { at = λ s sound. sound }
or_node_offline-Sound (some session) = record { at = λ s sound. sound }

send_stop_command-Sound : (c : Container) (remove : Bool) → Keeps Sound (send_stop_command c remove)
unfolding send_stop_command
send_stop_command-Sound c remove = record {
  at = λ s sound.
      (Keeps-bind (or_node_offline (get c.node_id s.manager)) _
          (or_node_offline-Sound (get c.node_id s.manager)) (λ session. send_to-Sound session _)).at
        s sound;
}

withdraw-Sound : (c : Container) (s : Master) → Sound s → Sound (withdraw c s)
unfolding withdraw withdraw_port
withdraw-Sound c s sound = if-Sound (nat_eq c.external_port 0) s _ sound sound

forget-Sound : (c : Container) (s : Master) → Sound s → Sound (forget c s)
unfolding forget
forget-Sound c s sound =
    let s' = withdraw c s in
    let unported =
      if nat_eq c.external_port 0 then s' else best_effort (free_port c.external_port) s' in
    deleted-Sound c.id (best_effort (free_gpus c.id) unported) (
      freed-Sound c.id unported (
        if-Sound (nat_eq c.external_port 0) s' _ (withdraw-Sound c s sound) (
          best_effort-Sound (free_port c.external_port) (λ P w. free_port-Safe w c.external_port) s'
            (withdraw-Sound c s sound))))

handle_delete-Sound : (id : String) → Keeps Sound (handle_delete id)
unfolding handle_delete
handle_delete-Sound id = Keeps-bind _ _ (find_container-Sound id) (λ c.
    Keeps-bind _ _ (send_stop_command-Sound c true) (λ _. doing-Sound (forget c) (forget-Sound c)))

set_state_of-Sound :
    (now : Time) (c : Container) (state status : String) (s : Master)
    → Sound s
    → Sound (set_state_of now c state status s)
unfolding set_state_of
set_state_of-Sound now c state status s sound =
    best_effort-Sound (update_container_state now c.id c.docker_id state status)
      (λ P w. state-Safe P w now c.id c.docker_id state status) s sound

let_go-Sound : (c : Container) (s : Master) → Sound s → Sound (let_go c s)
unfolding let_go
let_go-Sound c s sound = freed-Sound c.id (withdraw c s) (withdraw-Sound c s sound)

stop_found-Sound : (now : Time) (c : Container) → Keeps Sound (stop_found now c)
unfolding stop_found
stop_found-Sound now c =
    Keeps-bind _ _
      (doing-Sound (set_state_of now c "stopping" "stopping")
        (set_state_of-Sound now c "stopping" "stopping"))
      (λ _.
        Keeps-bind _ _
          (undoing-Sound (set_state_of now c c.state c.status) (send_stop_command c false)
            (set_state_of-Sound now c c.state c.status) (send_stop_command-Sound c false))
          (λ _. doing-Sound (let_go c) (let_go-Sound c)))

handle_stop-Sound : (now : Time) (id : String) → Keeps Sound (handle_stop now id)
unfolding handle_stop
handle_stop-Sound now id = Keeps-bind _ _ (find_container-Sound id) (stop_found-Sound now)

reserve_saved-Sound :
    (now : Time) (c : Container) (is : List ℕ) → Keeps Sound (reserve_saved now c is)
unfolding reserve_saved
reserve_saved-Sound now c [] = Keeps-pure tt
reserve_saved-Sound now c (i ∷ is) =
    on_store-Sound start_refusal (alloc_specific_gpus now c.node_id c.id (i ∷ is))
      (λ P w. alloc_specific_gpus-Safe w now c.node_id c.id (i ∷ is))

unstart-Sound :
    (now : Time) (c : Container) (is : List ℕ) (s : Master) → Sound s → Sound (unstart now c is s)
unfolding unstart
unstart-Sound now c [] s sound = set_state_of-Sound now c c.state c.status s sound
unstart-Sound now c (i ∷ is) s sound =
    freed-Sound c.id (set_state_of now c c.state c.status s)
      (set_state_of-Sound now c c.state c.status s sound)

rebind-Sound : (codec : Codec) (c : Container) (s : Master) → Sound s → Sound (rebind codec c s)
unfolding rebind
rebind-Sound codec c s sound =
    if-Sound (nat_eq c.external_port 0) s _ sound
      (publish_port-Sound c.external_port c.id c.node_id (first_host_port codec c) s sound)

start_found-Sound :
    (codec : Codec) (now : Time) (c : Container) (session : Session)
    → Keeps Sound (start_found codec now c session)
unfolding start_found
start_found-Sound codec now c session =
    Keeps-bind _ _ (reserve_saved-Sound now c (saved_gpus codec c)) (λ _.
      Keeps-bind _ _
        (doing-Sound (set_state_of now c "starting" "starting")
          (set_state_of-Sound now c "starting" "starting"))
        (λ _.
          Keeps-bind _ _
            (undoing-Sound (unstart now c (saved_gpus codec c)) _
              (unstart-Sound now c (saved_gpus codec c))
              (send_to-Sound session
                (start_container (record { container_id = c.id; docker_id = c.docker_id }))))
            (λ _. doing-Sound (rebind codec c) (rebind-Sound codec c))))

handle_start-Sound :
    (codec : Codec) (now : Time) (id : String) → Keeps Sound (handle_start codec now id)
unfolding handle_start
handle_start-Sound codec now id = Keeps-bind _ _ (find_container-Sound id) (λ c.
    Keeps-bind _ _ (session_for-Sound "node offline" c.node_id) (start_found-Sound codec now c))

-- The requests that write, with what the call brings.
pub data Request : Type 0 where
  creates : Call → Result String CreateContainerReq → Request
  deletes : String → Request
  starts : Time → String → Request
  stops : Time → String → Request

-- The master after a request, whatever the reply.
unfoldable pub serve : FloatOps → Codec → Request → Master → Master
serve ops codec (creates call body) s = (handle_create ops codec call body s).1
serve ops codec (deletes id) s = (handle_delete id s).1
serve ops codec (starts now id) s = (handle_start codec now id s).1
serve ops codec (stops now id) s = (handle_stop now id s).1

unfoldable pub serve_all : FloatOps → Codec → List Request → Master → Master
unfolding serve
serve_all ops codec [] s = s
serve_all ops codec (r ∷ rs) s = serve_all ops codec rs (serve ops codec r s)

serve-Sound :
    (ops : FloatOps) (codec : Codec) (r : Request) (s : Master)
    → Sound s
    → Sound (serve ops codec r s)
unfolding serve
serve-Sound ops codec (creates call body) s sound = handle_create-Sound ops codec call body s sound
serve-Sound ops codec (deletes id) s sound = (handle_delete-Sound id).at s sound
serve-Sound ops codec (starts now id) s sound = (handle_start-Sound codec now id).at s sound
serve-Sound ops codec (stops now id) s sound = (handle_stop-Sound now id).at s sound

-- Whatever containers the requests of the API create, delete, start and stop, and whatever fails in
-- the database, in the sends to the agents and in net.Listen, the manager's invariant is kept: the
-- tables meet their constraints, no node has two sessions, the node of every session has a row,
-- and the channels are within their bounds.
pub serve_all-Sound :
    (ops : FloatOps) (codec : Codec) (rs : List Request) (s : Master)
    → Sound s
    → Sound (serve_all ops codec rs s)
unfolding serve_all
serve_all-Sound ops codec [] s sound = sound
serve_all-Sound ops codec (r ∷ rs) s sound =
    serve_all-Sound ops codec rs (serve ops codec r s) (serve-Sound ops codec r s sound)
