-- ===== src/Api/Kept.antt =====
-- The create request keeps the manager's invariant.
use pumpkin_pie.Prelude.{
  ℕ, refl, String, Bool, true, false, not, ◌&&◌, ◌==◌, Option, none, some, List, [], ◌∷◌, nat_eq,
  ltb, if◌then◌else◌,
}
use pumpkin_pie.Exec.{Result, ok, err, pure, raise}
use pumpkin_pie.Exec.Keeps.{Keeps, Keeps-bind, Keeps-pure, Keeps-raise, Keeps-if}
use pumpkin_pie.Float.{FloatOps}
use pumpkin_pie.Store.Tables.{Node, Container, Time, Tables}
use pumpkin_pie.Store.Nodes.{get_node}
use pumpkin_pie.Store.Containers.{
  insert_container, delete_container, update_container_gpu_indices, update_container_state,
  set_state,
}
use pumpkin_pie.Store.Ports.{alloc_port, free_port}
use pumpkin_pie.Store.Gpus.{alloc_gpus, alloc_specific_gpus, free_gpus, gpu_usage_by_node}
use pumpkin_pie.Store.Reads.{get_node-Keeps, gpu_usage_by_node-Keeps}
use pumpkin_pie.Store.Sql.Keeps.{Holds}
use pumpkin_pie.Store.Lasting.{
  Lasting, insert_container-Safe, delete_container-Safe, update_container-Safe, alloc_port-Safe,
  free_port-Safe, alloc_gpus-Safe, alloc_specific_gpus-Safe, free_gpus-Safe,
}
use pumpkin_pie.Scheduler.{free_gpus_on}
use pumpkin_pie.AgentMgr.Messages.{PortMapping, create_container}
use pumpkin_pie.AgentMgr.State.{Session}
use pumpkin_pie.Api.State.{Master, refusal, Codec, few_free, on_store, best_effort, publish_port}
use pumpkin_pie.Api.Checks.{CreateContainerReq, is_empty, port_mappings_to_proto, check_request}
use pumpkin_pie.Api.Placement.{check_range, check_free, check_node, pick_node, select_node, settled}
use pumpkin_pie.Api.Create.{
  Call, external_port, free_external, insert_row, gpu_refusal, persist_indices, reserve_gpus,
  clean_up, expose, hand_off, create_command, new_container, create_checked, handle_create,
}
use pumpkin_pie.Api.Actions.{
  Sound, on_store-Sound, best_effort-Sound, undoing-Sound, settled-Sound, doing-Sound,
  send_to-Sound, session_for-Sound, select_node-Sound,
}

pub if-Sound : (b : Bool) (s s' : Master) → Sound s → Sound s' → Sound (if b then s else s')
if-Sound true s s' sound sound' = sound
if-Sound false s s' sound sound' = sound'

pub free_external-Sound : (port : ℕ) (s : Master) → Sound s → Sound (free_external port s)
unfolding free_external
free_external-Sound port s sound =
    if-Sound (nat_eq port 0) s _ sound
      (best_effort-Sound (free_port port) (λ P w. free_port-Safe w port) s sound)

pub freed-Sound : (id : String) (s : Master) → Sound s → Sound (best_effort (free_gpus id) s)
freed-Sound id s sound = best_effort-Sound (free_gpus id) (λ P w. free_gpus-Safe w id) s sound

pub deleted-Sound :
    (id : String) (s : Master) → Sound s → Sound (best_effort (delete_container id) s)
deleted-Sound id s sound =
    best_effort-Sound (delete_container id) (λ P w. delete_container-Safe w id) s sound

clean_up-Sound :
    (req : CreateContainerReq) (id : String) (port : ℕ) (s : Master)
    → Sound s
    → Sound (clean_up req id port s)
unfolding clean_up
clean_up-Sound req id port s sound =
    let freed = if nat_eq req.gpu_count 0 then s else best_effort (free_gpus id) s in
    free_external-Sound port (best_effort (delete_container id) freed) (
      deleted-Sound id freed (if-Sound (nat_eq req.gpu_count 0) s _ sound (freed-Sound id s sound)))

check_range-Sound : (n : Node) (o : Option (ℕ × ℕ)) → Keeps Sound (check_range n o)
unfolding check_range
check_range-Sound n none = Keeps-pure tt
check_range-Sound n (some (i, x)) = Keeps-raise _

check_free-Sound :
    (req : CreateContainerReq) (n : Node) (used : String → ℕ) → Keeps Sound (check_free req n used)
unfolding check_free
check_free-Sound req n used =
    Keeps-if (ltb (free_gpus_on n used) req.gpu_count)
      (raise (refusal 409 (few_free n.id (free_gpus_on n used) req.gpu_count))) _
      (λ _. Keeps-raise _) (λ _. Keeps-pure tt)

check_node-Sound : (req : CreateContainerReq) (n : Node) → Keeps Sound (check_node req n)
unfolding check_node
check_node-Sound req n = Keeps-bind _ _ (check_range-Sound n _) (λ _.
    Keeps-bind _ _
      (Keeps-if (ltb 0 req.gpu_count && is_empty req.gpu_indices) _ (pure tt)
        (λ _.
          Keeps-bind _ _ (on_store-Sound _ gpu_usage_by_node (λ P w. gpu_usage_by_node-Keeps P))
            (check_free-Sound req n))
        (λ _. Keeps-pure tt))
      (λ _. Keeps-pure n))

pick_node-Sound : (ops : FloatOps) (req : CreateContainerReq) → Keeps Sound (pick_node ops req)
unfolding pick_node
pick_node-Sound ops req =
    Keeps-if (req.node_id == "") (select_node ops req) _ (λ _. select_node-Sound ops req)
      (λ _.
        Keeps-bind _ _
          (on_store-Sound _ (get_node req.node_id) (λ P w. get_node-Keeps P req.node_id))
          (check_node-Sound req))

external_port-Sound : (req : CreateContainerReq) (id : String) → Keeps Sound (external_port req id)
unfolding external_port
external_port-Sound req id =
    Keeps-if (nat_eq req.external_port 0 && not (is_empty req.port_mappings)) _
      (pure req.external_port)
      (λ _. on_store-Sound _ (alloc_port 30000 32767 id) (λ P w. alloc_port-Safe w 30000 32767 id))
      (λ _. Keeps-pure req.external_port)

insert_row-Sound : (now : Time) (c : Container) → Keeps Sound (insert_row now c)
unfolding insert_row
insert_row-Sound now c =
    undoing-Sound (free_external c.external_port) _ (free_external-Sound c.external_port)
      (on_store-Sound _ (insert_container now c) (λ P w. insert_container-Safe w now c))

indices-Safe :
    (P : Tables → Type 0)
    → Lasting P
    → (now : Time) (id json : String) → Keeps (Holds P) (update_container_gpu_indices now id json)
unfolding update_container_gpu_indices
indices-Safe P w now id json = update_container-Safe w id _ (λ c. refl) (λ c. refl)

pub state-Safe :
    (P : Tables → Type 0)
    → Lasting P
    → (now : Time) (id docker_id state status : String)
    → Keeps (Holds P) (update_container_state now id docker_id state status)
unfolding update_container_state set_state
state-Safe P w now id docker_id state status = update_container-Safe w id _ (λ c. refl) (λ c. refl)

persist_indices-Sound :
    (codec : Codec) (now : Time) (id : String) (is : List ℕ)
    → Keeps Sound (persist_indices codec now id is)
unfolding persist_indices
persist_indices-Sound codec now id [] = Keeps-pure []
persist_indices-Sound codec now id (i ∷ is) =
    Keeps-bind _ _
      (on_store-Sound _ (update_container_gpu_indices now id (codec.indices (i ∷ is)))
        (λ P w. indices-Safe P w now id (codec.indices (i ∷ is))))
      (λ _. Keeps-pure (i ∷ is))

reserve_gpus-Sound :
    (codec : Codec) (now : Time) (req : CreateContainerReq) (n : Node) (id : String)
    → Keeps Sound (reserve_gpus codec now req n id)
unfolding reserve_gpus
reserve_gpus-Sound codec now req n id =
    Keeps-if (nat_eq req.gpu_count 0) (pure []) _ (λ _. Keeps-pure [])
      (λ _.
        Keeps-bind _ _
          (Keeps-if (is_empty req.gpu_indices)
            (on_store gpu_refusal (alloc_gpus now n.id id req.gpu_count n.gpu_count)) _
            (λ _.
              on_store-Sound gpu_refusal (alloc_gpus now n.id id req.gpu_count n.gpu_count)
                (λ P w. alloc_gpus-Safe w now n.id id req.gpu_count n.gpu_count))
            (λ _.
              Keeps-bind _ _
                (on_store-Sound gpu_refusal (alloc_specific_gpus now n.id id req.gpu_indices)
                  (λ P w. alloc_specific_gpus-Safe w now n.id id req.gpu_indices))
                (λ _. Keeps-pure req.gpu_indices)))
          (persist_indices-Sound codec now id))

pub publish_port-Sound :
    (port : ℕ) (id node : String) (host_port : ℕ) (s : Master)
    → Sound s
    → Sound (publish_port port id node host_port s)
unfolding publish_port
publish_port-Sound port id node host_port s sound = sound

expose-Sound :
    (port : ℕ) (id node : String) (ports : List PortMapping) (s : Master)
    → Sound s
    → Sound (expose port id node ports s)
unfolding expose
expose-Sound port id node [] s sound = sound
expose-Sound port id node (p ∷ ps) s sound =
    if-Sound (nat_eq port 0) s _ sound (publish_port-Sound port id node p.host_port s sound)

hand_off-Sound :
    (req : CreateContainerReq) (session : Session) (node id name : String) (port : ℕ)
    (ports : List PortMapping) (indices : List ℕ)
    → Keeps Sound (hand_off req session node id name port ports indices)
unfolding hand_off
hand_off-Sound req session node id name port ports indices =
    undoing-Sound (clean_up req id port) _ (clean_up-Sound req id port) (
      Keeps-bind _ _ (doing-Sound (expose port id node ports) (expose-Sound port id node ports))
        (λ _.
          Keeps-bind _ _
            (send_to-Sound session (create_container (create_command req ports id name indices)))
            (λ _. Keeps-pure (record {
              container_id = id;
              node_id = node;
              external_port = port;
              gpu_indices = indices;
            }))))

create_checked-Sound :
    (ops : FloatOps) (codec : Codec) (call : Call) (req : CreateContainerReq)
    → Keeps Sound (create_checked ops codec call req)
unfolding create_checked
create_checked-Sound ops codec call req =
    let ports = port_mappings_to_proto req.port_mappings in
    Keeps-bind _ _ (pick_node-Sound ops req) (λ node.
      Keeps-bind _ _ (session_for-Sound "target node not online" node.id) (λ session.
        Keeps-bind _ _ (external_port-Sound req call.id) (λ port.
          Keeps-bind _ _
            (insert_row-Sound call.now
              (new_container codec req ports node.id call.id call.name port))
            (λ _. Keeps-bind _ _ (reserve_gpus-Sound codec call.now req node call.id) (λ indices.
              hand_off-Sound req session node.id call.id call.name port ports indices)))))

pub handle_create-Sound :
    (ops : FloatOps) (codec : Codec) (call : Call) (body : Result String CreateContainerReq)
    (s : Master)
    → Sound s
    → Sound (handle_create ops codec call body s).1
unfolding handle_create raise
handle_create-Sound ops codec call (err why) s sound = sound
handle_create-Sound ops codec call (ok req) s sound =
    (Keeps-bind (settled (check_request req)) (create_checked ops codec call)
        (settled-Sound (check_request req)) (create_checked-Sound ops codec call)).at
      s sound
