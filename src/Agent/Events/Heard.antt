-- ===== src/Agent/Events/Heard.antt =====
-- What a master makes of an event of Docker that an agent reports.
use pumpkin_pie.Prelude.{
  ◌≡◌, refl, ap, ◌∙◌, ℕ, Bool, true, false, not, ◌&&◌, ◌==◌, List, ◌∷◌, if◌then◌else◌, arith,
}
use pumpkin_pie.Store.Tables.{Tables, Time, calm}
use pumpkin_pie.Store.Statements.{has_container}
use pumpkin_pie.AgentMgr.Messages.{ContainerStateChanged, AgentMessage}
use pumpkin_pie.AgentMgr.State.{Session, Manager}
use pumpkin_pie.AgentMgr.Reports.{Json}
use pumpkin_pie.AgentMgr.Lifecycle.{stated, released, changed_tables}
use pumpkin_pie.Agent.Sends.{IsUp}
use pumpkin_pie.Agent.Hearing.{hear, heard_change}
use pumpkin_pie.Agent.States.{map_docker_action_to_state, is_terminal_gpu_action-exited}
use pumpkin_pie.Agent.Poll.{report}
use pumpkin_pie.Agent.Events.{ContainerEvent, Watch, unix_milli, forward}
use pumpkin_pie.Agent.Events.Forwarded.{is_reported, event_report, forward-Forwards}

change_of : ContainerEvent → ContainerStateChanged
change_of e =
    let (state, status) = map_docker_action_to_state e.action in
    record {
      container_id = e.container_id;
      docker_id = e.id;
      action = e.action;
      state = state;
      status = status;
      ts_unix_ms = unix_milli e.at;
    }

-- The tables after an event of a container that has a row.
unfoldable pub after_event : Time → ContainerEvent → Tables → Tables
unfolding stated released
after_event now e t =
    let (state, status) = map_docker_action_to_state e.action in
    let t' = stated now e.container_id e.id state status t in
    if state == "exited" then released e.container_id t' else t'

changed_tables-event :
    (now : Time) (e : ContainerEvent) (t : Tables)
    → is_reported e ≡ true
    → has_container e.container_id t ≡ true
    → changed_tables now (change_of e) t ≡ after_event now e t
unfolding changed_tables change_of after_event is_reported
changed_tables-event now e t h row =
    let (state, status) = map_docker_action_to_state e.action in
    let (named, known) = both (e.container_id == "") (state == "") h in
    rw (named, known, row, is_terminal_gpu_action-exited e.action) refl
  where
    both : (a b : Bool) → (not a && not b) ≡ true → (a ≡ false) × (b ≡ false)
    both a b h = (ground (arith, h), ground (arith, h))

heard_event :
    (json : Json) (now : Time) (now_ms : ℕ) (s : Session) (e : ContainerEvent)
    (sent : List AgentMessage) (m : Manager) (t : Tables)
    → (hear json now now_ms s sent m).db ≡ calm t
    → (hear json now now_ms s (event_report e ∷ sent) m).db
      ≡ calm (changed_tables now (change_of e) t)
unfolding hear event_report report change_of
heard_event json now now_ms s e sent m t h =
    heard_change now s (change_of e) (hear json now now_ms s sent m) t h

-- Where the agent's stream takes the send, and the driver fails nothing of what the master does about
-- it, an event of Docker that names a container of the master's, with an action that has a state,
-- where the container has a row, reaches the master so: the row has the state, and the container's GPUs are released exactly if the state is exited, so after die, stop,
-- kill and destroy.
pub forward-heard :
    (json : Json) (now : Time) (now_ms : ℕ) (s : Session) (e : ContainerEvent) (w : Watch)
    (m : Manager) (t : Tables)
    → IsUp w.agent
    → is_reported e ≡ true
    → has_container e.container_id t ≡ true
    → (hear json now now_ms s w.agent.sent m).db ≡ calm t
    → (hear json now now_ms s (forward e w).1.agent.sent m).db ≡ calm (after_event now e t)
forward-heard json now now_ms s e w m t up h row before =
    let (done, after, sent, seen) = forward-Forwards e w up in
    ap (λ ms. (hear json now now_ms s ms m).db) (sent ∙ reported h)
    ∙ heard_event json now now_ms s e w.agent.sent m t before
    ∙ ap calm (changed_tables-event now e t h row)
  where
    reported :
        is_reported e ≡ true
        → (if is_reported e then event_report e ∷ w.agent.sent else w.agent.sent)
          ≡ event_report e ∷ w.agent.sent
    reported h = rw h refl
