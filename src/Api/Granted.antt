-- ===== src/Api/Granted.antt =====
-- What a create that is accepted leaves: the GPUs in the reply are the container's, and the agent has
-- been told to create it with them.
use pumpkin_pie.Prelude.{
  ℕ, ◌≡◌, refl, sym, ap, subst, ◌∙◌, String, none, some, List, ◌∷◌, List-cases, inl, inr, arith,
}
use pumpkin_pie.Exec.{Result, ok, err, pure, raise, ◌>>=◌}
use pumpkin_pie.Exec.Inversion.{>>=-ok}
use pumpkin_pie.Float.{FloatOps}
use pumpkin_pie.Store.Tables.{Node, Db}
use pumpkin_pie.AgentMgr.Messages.{
  PortMapping, MasterMessage, CreateContainerCommand, create_container,
}
use pumpkin_pie.AgentMgr.State.{Session, Manager, Failure, send, deliver}
use pumpkin_pie.Api.State.{session_for, Master, Refusal, Api, Codec, doing, send_to, sent}
use pumpkin_pie.Api.Checks.{CreateContainerReq, check_request, port_mappings_to_proto}
use pumpkin_pie.Api.Placement.{settled, pick_node}
use pumpkin_pie.Api.Failures.{send-db, expose-manager}
use pumpkin_pie.Api.Create.{
  insert_row, new_container, external_port, Created, Call, reserve_gpus, clean_up, expose, finally,
  undoing, create_command, hand_off, create_checked, handle_create,
}
use pumpkin_pie.Api.Reserved.{Holds, reserve_gpus-Holds}

-- The newest message is the command to create the container with these GPUs.
abbrev pub IsTold : String → List ℕ → Manager → Type 0
IsTold container is m =
    (stream : ℕ) × (command : CreateContainerCommand) × (older : List (ℕ × MasterMessage)) × (m.sent
      ≡ (stream, create_container command) ∷ older)
    × (command.container_id ≡ container)
    × (command.resources.gpu_device_ids ≡ is)

-- What hand_off does if it returns.
told :
    (created : Created) (command : CreateContainerCommand) (stream : ℕ) (s : Master)
    (r : Result Failure Unit) (m : Manager) (undo : Master → Master) (got : Created)
    → ((e : Unit) → r ≡ ok e → m.sent ≡ (stream, create_container command) ∷ s.manager.sent)
    → (finally undo (◌>>=◌ (sent r) (λ _. pure created) (record s { manager = m }))).0 ≡ ok got
    → (created ≡ got)
      × ((finally undo (◌>>=◌ (sent r) (λ _. pure created) (record s { manager = m }))).1.manager
          ≡ m)
      × (m.sent ≡ (stream, create_container command) ∷ s.manager.sent)
unfolding finally sent ◌>>=◌ pure
told created command stream s (ok e) m undo got k h = (cc h, refl, k e refl)
told created command stream s (err why) m undo got k h = absurd (cc h)

send-ok :
    (stream : ℕ) (message : MasterMessage) (m : Manager) (e : Unit)
    → (send stream message m).0 ≡ ok e
    → (send stream message m).1.sent ≡ (stream, message) ∷ m.sent
unfolding send deliver
send-ok stream message m e h = elim (List-cases m.send_faults) [
  | inl f ↦ rw f refl
  | inr (none, fs, f) ↦ rw f refl
  | inr (some why, fs, f) ↦ absurd (ground (arith, h, f))
]

module _ (req : CreateContainerReq) (session : Session) (node id name : String) (port : ℕ)
    (ports : List PortMapping) (indices : List ℕ) where
  abbrev reply : Created
  reply = record { container_id = id; node_id = node; external_port = port; gpu_indices = indices }

  hand_off-ok :
      (s : Master) (got : Created)
      → (hand_off req session node id name port ports indices s).0 ≡ ok got
      → let after = (hand_off req session node id name port ports indices s).1 in
        (reply ≡ got) × (after.manager.db ≡ s.manager.db) × IsTold id indices after.manager
  unfolding hand_off undoing doing send_to ◌>>=◌ create_command
  hand_off-ok s got h =
      let exposed = expose port id node ports s in
      let command = create_command req ports id name indices in
      let (r, m) = send session.stream (create_container command) exposed.manager in
      let (same, manager, sent_now) =
        told reply command session.stream exposed r m (clean_up req id port) got
          (send-ok session.stream (create_container command) exposed.manager) h in
      (
        same,
        ap (λ x. x.db) manager
            ∙ send-db session.stream (create_container command) exposed.manager
            ∙ ap (λ x. x.db) (expose-manager port id node ports s),
        (
          session.stream,
          command,
          exposed.manager.sent,
          ap (λ x. x.sent) manager ∙ sent_now,
          refl,
          refl,
        ),
      )

-- A reply with the GPUs that the container holds, and the command to the agent.
abbrev pub IsGranted : Created → Master → Type 0
IsGranted created s =
    Holds created.node_id created.container_id created.gpu_indices s.manager.db.tables
    × IsTold created.container_id created.gpu_indices s.manager

-- A handler whose reply is true of what it leaves.
record Grants (handler : Api Created) : Type 0 where
  at : (s : Master) (got : Created) → (handler s).0 ≡ ok got → IsGranted got (handler s).1

bind-Grants :
    {A : Type 0} (m : Api A) (f : A → Api Created) → ((a : A) → Grants (f a)) → Grants (m >>= f)
bind-Grants m f k = record {
  at = λ s got h.
      let (a, ran, e) = >>=-ok m f s got h in
      subst (λ (r : Result Refusal Created × Master). IsGranted got r.1) (sym e)
        ((k a).at (m s).1 got (sym (ap (λ x. x.0) e) ∙ h));
}

module _ (ops : FloatOps) (codec : Codec) (call : Call) where
  granted :
      (req : CreateContainerReq) (n : Node) (session : Session) (port : ℕ) (s : Master)
      (got : Created)
      → let ports = port_mappings_to_proto req.port_mappings in
        let last =
          reserve_gpus codec call.now req n call.id
          >>= hand_off req session n.id call.id call.name port ports in
        (last s).0 ≡ ok got → IsGranted got (last s).1
  granted req n session port s got h =
      let ports = port_mappings_to_proto req.port_mappings in
      let reserve = reserve_gpus codec call.now req n call.id in
      let rest = hand_off req session n.id call.id call.name port ports in
      let (is, ran, e) = >>=-ok reserve rest s got h in
      let reserved = (reserve s).1 in
      let (same, db, is_told) =
        hand_off-ok req session n.id call.id call.name port ports is reserved got
          (sym (ap (λ x. x.0) e) ∙ h) in
      let holds = reserve_gpus-Holds codec call.now req n call.id s is ran in
      let here : Holds n.id call.id is (rest is reserved).1.manager.db.tables =
        subst (λ (d : Db). Holds n.id call.id is d.tables) (sym db) holds in
      subst (λ (g : Created). IsGranted g ((reserve >>= rest) s).1) same
        (subst
          (λ (t : Master). Holds n.id call.id is t.manager.db.tables × IsTold call.id is t.manager)
          (sym (ap (λ x. x.1) e)) (here, is_told))

  create_checked-Grants : (req : CreateContainerReq) → Grants (create_checked ops codec call req)
  unfolding create_checked
  create_checked-Grants req =
      let ports = port_mappings_to_proto req.port_mappings in
      let row : Node → ℕ → Api Unit =
        λ n port. insert_row call.now (new_container codec req ports n.id call.id call.name port) in
      let reserved : Node → Session → ℕ → Api Created = λ n session port.
        reserve_gpus codec call.now req n call.id
        >>= hand_off req session n.id call.id call.name port ports in
      let placed : Node → Session → Api Created = λ n session.
        external_port req call.id >>= λ port. row n port >>= λ _. reserved n session port in
      let live : Node → Api Session = λ n. session_for "target node not online" n.id in
      bind-Grants (pick_node ops req) (λ n. live n >>= placed n)
        (λ n. bind-Grants (live n) (placed n) (λ session.
          bind-Grants (external_port req call.id)
            (λ port. row n port >>= λ _. reserved n session port)
            (λ port.
              bind-Grants (row n port) (λ _. reserved n session port)
                (λ _. record { at = granted req n session port }))))

  -- A create that replies with a container, whatever failed on the way, leaves it so: every GPU in
  -- the reply is reserved for the container on the node of the reply, and the newest message sent
  -- to an agent is the command to create the container with exactly these GPUs.
  pub handle_create-IsGranted :
      (body : Result String CreateContainerReq) (s : Master) (got : Created)
      → (handle_create ops codec call body s).0 ≡ ok got
      → IsGranted got (handle_create ops codec call body s).1
  unfolding handle_create raise
  handle_create-IsGranted (err why) s got h = absurd (cc h)
  handle_create-IsGranted (ok req) s got h =
      (bind-Grants (settled (check_request req)) (create_checked ops codec call)
          create_checked-Grants).at
        s got h
