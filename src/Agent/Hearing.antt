-- ===== src/Agent/Hearing.antt =====
-- internal/agent/agent.go and internal/master/agentmgr/manager.go: the master that an agent's
-- messages reach.
use pumpkin_pie.Prelude.{◌≡◌, ap, ◌∙◌, ℕ, ◌==◌, List, [], ◌∷◌, if◌then◌else◌}
use pumpkin_pie.Store.Tables.{Tables, Time, calm}
use pumpkin_pie.AgentMgr.Messages.{ContainerStateChanged, AgentMessage, Ack}
use pumpkin_pie.AgentMgr.State.{Session, Manager}
use pumpkin_pie.AgentMgr.Reports.{Json}
use pumpkin_pie.AgentMgr.Handlers.{
  handle_incoming, handle_container_state_changed, handle_container_created,
}
use pumpkin_pie.AgentMgr.Lifecycle.{
  stated, released, changed_tables, handle_container_state_changed-tables,
  handle_container_created-tables,
}

module _ (json : Json) (now : Time) (now_ms : ℕ) (s : Session) where
  -- The master after the messages on the stream of a session, of which the list has the newest first.
  unfoldable pub hear : List AgentMessage → Manager → Manager
  unfolding handle_incoming
  hear [] m = m
  hear (message ∷ older) m = handle_incoming json now now_ms s message (hear older m)

module _ (now : Time) (s : Session) where
  pub heard_change :
      (c : ContainerStateChanged) (m : Manager) (t : Tables)
      → m.db ≡ calm t
      → (handle_container_state_changed now s c m).db ≡ calm (changed_tables now c t)
  heard_change c m t h =
      let same : m ≡ record m { db = calm t } = ap (λ db. record m { db = db }) h in
      ap (λ x. (handle_container_state_changed now s c x).db) same
      ∙ handle_container_state_changed-tables now s c m t

  pub heard_created :
      (c : Ack) (m : Manager) (t : Tables)
      → m.db ≡ calm t
      → (handle_container_created now s c m).db
        ≡ calm (
            if c.error == ""
            then stated now c.container_id c.docker_id "running" "running" t
            else stated now c.container_id c.docker_id "error" c.error (released c.container_id t))
  heard_created c m t h =
      ap (λ db. (handle_container_created now s c (record m { db = db })).db) h
      ∙ handle_container_created-tables now s c m t
