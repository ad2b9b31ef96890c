-- ===== src/Api/Failures.antt =====
-- What a create that could not be handed to the agent leaves behind.
use pumpkin_pie.Prelude.{
  ◌≡◌, refl, ◌∙◌, ap, ℕ, String, Bool, not, ◌==◌, Option, none, some, List, [], ◌∷◌, keep, nat_eq,
  if◌then◌else◌, Bool-cases, inl, inr, arith,
}
use pumpkin_pie.Exec.{Result, ok, err, pure, ◌>>=◌}
use pumpkin_pie.Store.Tables.{Tables, calm}
use pumpkin_pie.Store.Containers.{delete_container}
use pumpkin_pie.Store.Ports.{free_port}
use pumpkin_pie.Store.Gpus.{free_gpus}
use pumpkin_pie.AgentMgr.Messages.{PortMapping, MasterMessage, create_container}
use pumpkin_pie.AgentMgr.State.{Session, Manager, Failure, send, deliver}
use pumpkin_pie.Api.State.{Master, Refusal, best_effort, doing, send_to, sent, publish_port}
use pumpkin_pie.Api.Checks.{CreateContainerReq}
use pumpkin_pie.Api.Create.{
  Created, clean_up, free_external, expose, finally, undoing, hand_off, create_command,
}

-- The tables without a container, its GPUs, and a port.
unfoldable pub without : String → ℕ → Tables → Tables
without id port t = record t {
  containers = keep (λ c. not (c.id == id)) t.containers;
  gpu_alloc = keep (λ r. not (r.container_id == id)) t.gpu_alloc;
  port_alloc =
      if nat_eq port 0 then t.port_alloc else keep (λ r. not (nat_eq r.port port)) t.port_alloc;
}

keep-keep {ℓ} : {A : Type ℓ} (p : A → Bool) (xs : List A) → keep p (keep p xs) ≡ keep p xs
unfolding keep
keep-keep p [] = refl
keep-keep p (x ∷ xs) = ground (arith, keep-keep p xs)

clean_up-tables :
    (req : CreateContainerReq) (id : String) (port : ℕ) (s : Master) (t : Tables)
    → s.manager.db ≡ calm t
    → (clean_up req id port s).manager.db ≡ calm (without id port t)
unfolding clean_up free_external best_effort free_gpus delete_container free_port without
clean_up-tables req id port s t e = elim (Bool-cases (nat_eq req.gpu_count 0)) [
  | inl f ↦ elim (Bool-cases (nat_eq port 0)) [
    | inl g ↦ rw (f, g, e) refl
    | inr g ↦ rw (f, g, e) refl
  ]
  | inr f ↦ elim (Bool-cases (nat_eq port 0)) [
    | inl g ↦ rw (f, g, e, keep-keep (λ r. not (r.container_id == id)) t.gpu_alloc) refl
    | inr g ↦ rw (f, g, e, keep-keep (λ r. not (r.container_id == id)) t.gpu_alloc) refl
  ]
]

pub send-db :
    (stream : ℕ) (message : MasterMessage) (m : Manager) → (send stream message m).1.db ≡ m.db
unfolding send deliver
send-db stream message m = by_faults m.send_faults refl
  where
    by_faults :
        (fs : List (Option String)) → m.send_faults ≡ fs → (send stream message m).1.db ≡ m.db
    by_faults [] e = rw e refl
    by_faults (none ∷ fs) e = rw e refl
    by_faults (some why ∷ fs) e = rw e refl

pub expose-manager :
    (port : ℕ) (id node : String) (ports : List PortMapping) (s : Master)
    → (expose port id node ports s).manager ≡ s.manager
unfolding expose
expose-manager port id node [] s = refl
expose-manager port id node (p ∷ ps) s = elim (Bool-cases (nat_eq port 0)) [
  | inl e ↦ rw e refl
  | inr e ↦ rw (e, publish_port) refl
]

-- Whatever the send returned, what follows it changes no table.
answered-state :
    (r : Result Failure Unit) (created : Created) (s : Master)
    → (◌>>=◌ (sent r) (λ _. pure created) s).1 ≡ s
unfolding sent ◌>>=◌ pure
answered-state (ok _) created s = refl
answered-state (err why) created s = refl

finally-failed :
    (req : CreateContainerReq) (id : String) (port : ℕ) (t : Tables) (e : Refusal)
    (r : Result Refusal Created) (s : Master)
    → s.manager.db ≡ calm t
    → (finally (clean_up req id port) (r, s)).0 ≡ err e
    → (finally (clean_up req id port) (r, s)).1.manager.db ≡ calm (without id port t)
unfolding finally
finally-failed req id port t e (ok a) s db h = absurd (cc)
finally-failed req id port t e (err why) s db h = clean_up-tables req id port s t db

-- Where the command cannot be sent to the agent, and the driver fails nothing, the row of the
-- container and its GPUs are gone again, and so is the row of the external port that the create was
-- given, which is found by the port alone, whichever container it is recorded for. Nothing else of
-- the tables is changed.
pub hand_off-failed :
    (req : CreateContainerReq) (session : Session) (node id name : String) (port : ℕ)
    (ports : List PortMapping) (indices : List ℕ) (s : Master) (t : Tables) (e : Refusal)
    → s.manager.db ≡ calm t
    → (hand_off req session node id name port ports indices s).0 ≡ err e
    → (hand_off req session node id name port ports indices s).1.manager.db
      ≡ calm (without id port t)
unfolding hand_off undoing doing send_to ◌>>=◌
hand_off-failed req session node id name port ports indices s t e db h =
    let exposed = expose port id node ports s in
    let command = create_container (create_command req ports id name indices) in
    let (r, m) = send session.stream command exposed.manager in
    let created : Created = record {
      container_id = id;
      node_id = node;
      external_port = port;
      gpu_indices = indices;
    } in
    let after : Master = record exposed { manager = m } in
    let (r', s') = ◌>>=◌ (sent r) (λ _. pure created) after in
    finally-failed req id port t e r' s'
      (ap (λ x. x.manager.db) (answered-state r created after)
        ∙ send-db session.stream command exposed.manager
        ∙ ap (λ x. x.db) (expose-manager port id node ports s)
        ∙ db)
      h
