-- ===== src/Agent/Poll/Reservations.antt =====
-- What the reports of the poll loop do to the GPU reservations of the master that hears them.
use pumpkin_pie.Prelude.{
  ◌≡◌, refl, ◌∙◌, ℕ, String, false, not, ◌==◌, ◌||◌, List, [], ◌∷◌, if◌then◌else◌, Bool-cases, inl,
  inr,
}
use pumpkin_pie.Prelude.Dicts.{lookup}
use pumpkin_pie.Exec.{Result, ok, err, continue}
use pumpkin_pie.Store.Tables.{Tables, Time, calm}
use pumpkin_pie.Store.Statements.{has_container}
use pumpkin_pie.AgentMgr.Messages.{ContainerInfo, ContainerStateChanged, AgentMessage}
use pumpkin_pie.AgentMgr.State.{Session, Manager}
use pumpkin_pie.AgentMgr.Reports.{Json}
use pumpkin_pie.AgentMgr.Handlers.{is_terminal_gpu_action}
use pumpkin_pie.AgentMgr.Lifecycle.{stated, released, changed_tables}
use pumpkin_pie.Agent.Hearing.{hear, heard_change}
use pumpkin_pie.Agent.States.{map_docker_list_state}
use pumpkin_pie.Agent.Poll.{
  Poll, Polled, is_ours, report, remember, is_unchanged, drop, or_forget, push, observe,
  observe_all,
}
use pumpkin_pie.Agent.Sends.{send-cases}

-- What a master with the tables `t` has after the destroy of a container.
unfoldable pub after_destroy : Time → String → String → Tables → Tables
unfolding released stated
after_destroy now c d t =
    if c == "" || not (has_container c t)
    then t
    else released c (stated now c d "exited" "exited" t)

module _ (json : Json) (now : Time) (now_ms : ℕ) (s : Session) where
  -- The master has heard the messages, and its reservations are those of `t`.
  abbrev pub Reserves : Manager → Tables → List AgentMessage → Type 0
  Reserves m t sent =
      (t' : Tables) × ((hear json now now_ms s sent m).db ≡ calm t') × (t'.gpu_alloc ≡ t.gpu_alloc)

  -- A change whose action is none of the terminal ones releases nothing.
  changed_tables-gpus :
      (c : ContainerStateChanged) (t : Tables)
      → is_terminal_gpu_action c.action ≡ false
      → (changed_tables now c t).gpu_alloc ≡ t.gpu_alloc
  unfolding changed_tables stated
  changed_tables-gpus c t h =
      elim (Bool-cases
        (c.container_id == "" || c.state == "" || not (has_container c.container_id t))) [
          | inl e ↦ rw e refl
          | inr e ↦ rw (e, h) refl
        ]

  report-Reserves :
      (at : ℕ) (c d state status : String) (m : Manager) (t : Tables) (sent : List AgentMessage)
      → Reserves m t sent
      → Reserves m t (report at c d "poll" state status ∷ sent)
  unfolding hear report
  report-Reserves at c d state status m t sent (t', e, g) =
      let change : ContainerStateChanged = record {
        container_id = c;
        docker_id = d;
        action = "poll";
        state = state;
        status = status;
        ts_unix_ms = at;
      } in
      (
        changed_tables now change t',
        heard_change now s change (hear json now now_ms s sent m) t' e,
        changed_tables-gpus change t' not_terminal ∙ g,
      )
    where
      not_terminal : is_terminal_gpu_action "poll" ≡ false
      not_terminal = refl

  push-Reserves :
      (at : ℕ) (i : ContainerInfo) (state status : String) (m : Manager) (t : Tables) (p : Poll)
      → Reserves m t p.agent.sent
      → Reserves m t (push at i state status p).1.agent.sent
  unfolding push or_forget drop
  push-Reserves at i state status m t p h =
      let message = report at i.container_id i.docker_id "poll" state status in
      elim (send-cases message p.agent) [
        | inl (r, sent) ↦
            rw (r, sent)
              (report-Reserves at i.container_id i.docker_id state status m t p.agent.sent h)
        | inr (why, r, sent) ↦ rw (r, sent) h
      ]

  observe-Reserves :
      (at : ℕ) (i : ContainerInfo) (m : Manager) (t : Tables) (p : Poll)
      → Reserves m t p.agent.sent
      → Reserves m t (observe at i p).1.agent.sent
  unfolding observe remember
  observe-Reserves at i m t p h =
      let (state, status) = map_docker_list_state i.state i.status in
      elim (Bool-cases (is_ours i)) [
        | inr e ↦ rw e h
        | inl e ↦ elim (Bool-cases (state == "")) [
          | inl f ↦ rw (e, f) h
          | inr f ↦ elim (Bool-cases (is_unchanged state (lookup i.docker_id p.last_state))) [
            | inl g ↦ rw (e, f, g) h
            | inr g ↦ rw (e, f, g) (push-Reserves at i state status m t (remember i p) h)
          ]
        ]
      ]

  continue-Reserves :
      (m : Manager) (t : Tables) (r : Result String Unit × Poll) (f : Polled)
      → Reserves m t r.1.agent.sent
      → (Reserves m t r.1.agent.sent → Reserves m t (f r.1).1.agent.sent)
      → Reserves m t (continue r.0 (λ _. f) r.1).1.agent.sent
  continue-Reserves m t (ok done, p) f h k = k h
  continue-Reserves m t (err why, p) f h k = h

  -- A master that hears what the poll loop sends of the containers that are listed, whichever sends
  -- fail, keeps every GPU reservation, whatever states are reported: exits release none.
  pub observe_all-Reserves :
      (at : ℕ) (infos : List ContainerInfo) (m : Manager) (t : Tables) (p : Poll)
      → Reserves m t p.agent.sent
      → Reserves m t (observe_all at infos p).1.agent.sent
  unfolding observe_all
  observe_all-Reserves at [] m t p h = h
  observe_all-Reserves at (i ∷ is) m t p h =
      continue-Reserves m t (observe at i p) (observe_all at is) (observe-Reserves at i m t p h)
        (observe_all-Reserves at is m t (observe at i p).1)

  destroy_of : ℕ → String → String → ContainerStateChanged
  destroy_of at c d = record {
    container_id = c;
    docker_id = d;
    action = "destroy";
    state = "exited";
    status = "exited";
    ts_unix_ms = at;
  }
