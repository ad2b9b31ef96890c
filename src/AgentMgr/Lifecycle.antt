-- ===== src/AgentMgr/Lifecycle.antt =====
-- What an agent's lifecycle events leave in the tables, where the driver fails nothing.
use pumpkin_pie.Prelude.{
  ◌≡◌, refl, String, not, ◌||◌, ◌==◌, change, keep, if◌then◌else◌, Bool-cases, inl, inr,
}
use pumpkin_pie.Store.Tables.{Tables, Time, calm}
use pumpkin_pie.Store.Statements.{has_container}
use pumpkin_pie.Store.Containers.{set_state, container_exists}
use pumpkin_pie.AgentMgr.Messages.{Ack, ContainerStateChanged}
use pumpkin_pie.AgentMgr.State.{Session, Manager}
use pumpkin_pie.AgentMgr.Handlers.{
  handle_running, handle_container_created, is_terminal_gpu_action, apply_change,
  handle_container_state_changed,
}

-- The update of one container's row, and the release of its GPUs.
unfoldable pub stated : Time → String → String → String → String → Tables → Tables
stated now id docker_id state status t = record t {
  containers = change (λ c. c.id == id) (set_state now docker_id state status) t.containers;
}

unfoldable pub released : String → Tables → Tables
released id t = record t { gpu_alloc = keep (λ r. not (r.container_id == id)) t.gpu_alloc }

-- What a state change means for the tables.
unfoldable pub changed_tables : Time → ContainerStateChanged → Tables → Tables
unfolding stated released
changed_tables now c t =
    let t' = stated now c.container_id c.docker_id c.state c.status t in
    if c.container_id == "" || c.state == "" || not (has_container c.container_id t)
    then t
    else if is_terminal_gpu_action c.action
    then released c.container_id t'
    else t'

-- A state change that names a container and a state, of a container that has a row, sets the row's
-- state and status, and releases the container's GPUs exactly if the action is die, stop, kill or
-- destroy (an exit seen by the poll releases none); any other changes no table.
pub handle_container_state_changed-tables :
    (now : Time) (s : Session) (c : ContainerStateChanged) (m : Manager) (t : Tables)
    → (handle_container_state_changed now s c (record m { db = calm t })).db
      ≡ calm (changed_tables now c t)
unfolding handle_container_state_changed changed_tables container_exists apply_change
handle_container_state_changed-tables now s c m t = elim (Bool-cases (c.container_id == "")) [
  | inl e ↦ rw e refl
  | inr e ↦ elim (Bool-cases (c.state == "")) [
    | inl f ↦ rw (e, f) refl
    | inr f ↦ elim (Bool-cases (has_container c.container_id t)) [
      | inl g ↦ elim (Bool-cases (is_terminal_gpu_action c.action)) [
        | inl k ↦ rw (e, f, g, k) refl
        | inr k ↦ rw (e, f, g, k) refl
      ]
      | inr g ↦ rw (e, f, g) refl
    ]
  ]
]

-- The acknowledgement of a create or a start, whose handlers are the same: without an error the
-- row is set running and its GPUs stay reserved; with one the row is set to the error, and the
-- GPUs are free again.
pub handle_container_created-tables :
    (now : Time) (s : Session) (c : Ack) (m : Manager) (t : Tables)
    → (handle_container_created now s c (record m { db = calm t })).db
      ≡ calm (
          if c.error == ""
          then stated now c.container_id c.docker_id "running" "running" t
          else stated now c.container_id c.docker_id "error" c.error (released c.container_id t))
unfolding handle_container_created handle_running stated released
handle_container_created-tables now s c m t = elim (Bool-cases (c.error == "")) [
  | inl e ↦ rw e refl
  | inr e ↦ rw e refl
]
