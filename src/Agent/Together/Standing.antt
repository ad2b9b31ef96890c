-- ===== src/Agent/Together/Standing.antt =====
-- internal/agent/agent.go and internal/master/agentmgr/manager.go: what the master keeps of an event
-- while the list of containers stays the same.
use pumpkin_pie.Prelude.{String, ◌≡◌, sym, ap, ◌∙◌, ℕ, true, List, [], ◌∷◌, All}
use pumpkin_pie.Prelude.Rows.{Distinct}
use pumpkin_pie.Prelude.Dicts.{Dict}
use pumpkin_pie.Exec.{ok}
use pumpkin_pie.Store.Tables.{Tables, Time, calm}
use pumpkin_pie.Store.Statements.{has_container}
use pumpkin_pie.AgentMgr.Messages.{ContainerInfo}
use pumpkin_pie.AgentMgr.State.{Session, Manager}
use pumpkin_pie.AgentMgr.Reports.{Json}
use pumpkin_pie.Agent.Sends.{IsUp}
use pumpkin_pie.Agent.Hearing.{hear}
use pumpkin_pie.Agent.Poll.{Poll, tick}
use pumpkin_pie.Agent.Poll.Truth.{VisitsAll, tick-Leaves}
use pumpkin_pie.Agent.Poll.Again.{same_container}
use pumpkin_pie.Agent.Events.{ContainerEvent, Watch}
use pumpkin_pie.Agent.Events.Forwarded.{is_reported, reports, forward-Forwards}
use pumpkin_pie.Agent.Events.Heard.{after_event, forward-heard}
use pumpkin_pie.Agent.Together.{Turn, waiting, run_turns}
use pumpkin_pie.Agent.Together.Reported.{Finds, events_in, run_turns-Reports}

-- Where Docker lists the same containers, none twice, as at the tick before, a single event that
-- comes in the meantime, of a container that has a row, decides what the master has, however many
-- ticks follow it and however the loops take turns: the row has the state of the event and not that
-- of the list, and after die, stop, kill and destroy its GPUs are released. The stream takes
-- every send, and the master's driver fails nothing.
pub run_turns-Stands :
    (order : Dict String → Dict String) (now : ℕ) (infos : List ContainerInfo) (p : Poll)
    (w : Watch) (ts : List Turn) (json : Json) (at : Time) (at_ms : ℕ) (s : Session)
    (e : ContainerEvent) (m : Manager) (t : Tables)
    → VisitsAll order
    → Distinct same_container infos
    → IsUp p.agent
    → All (Finds infos) ts
    → events_in ts ≡ e ∷ []
    → is_reported e ≡ true
    → has_container e.container_id t ≡ true
    → let q = (tick order now (ok infos) p).1 in
      (hear json at at_ms s q.agent.sent m).db ≡ calm t
      → (hear json at at_ms s
          (run_turns order ts (record {
            poll = q;
            at = waiting;
            watch = record w { agent = q.agent };
            watching = true;
          })).poll.agent.sent
          m).db
        ≡ calm (after_event at e t)
unfolding reports
run_turns-Stands order now infos p w ts json at at_ms s e m t visits distinct up finds one h row
      before =
    let q = (tick order now (ok infos) p).1 in
    let w' : Watch = record w { agent = q.agent } in
    let still : IsUp q.agent = (tick-Leaves order now infos p visits up).1 in
    let sent = run_turns-Reports order now infos p w ts visits distinct up finds in
    let alone = (forward-Forwards e w' still).2 in
    ap (λ ms. (hear json at at_ms s ms m).db)
      (sent ∙ ap (λ es. reports es q.agent.sent) one ∙ sym alone)
    ∙ forward-heard json at at_ms s e w' m t still h row before
