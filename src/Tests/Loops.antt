-- ===== src/Tests/Loops.antt =====
-- The two loops of the agent, and a `docker kill --signal=HUP` that a container survives.
use pumpkin_pie.Prelude.{◌≡◌, refl, List, [], ◌∷◌, All, any, true}
use pumpkin_pie.Prelude.Dicts.{lookup, insert, delete}
use pumpkin_pie.Exec.{ok}
use pumpkin_pie.Store.Tables.{calm}
use pumpkin_pie.Store.Statements.{has_container}
use pumpkin_pie.AgentMgr.Messages.{ContainerInfo}
use pumpkin_pie.Agent.Hearing.{hear}
use pumpkin_pie.Agent.States.{map_docker_action_to_state, map_docker_list_state}
use pumpkin_pie.Agent.Poll.{tick, sees}
use pumpkin_pie.Agent.Events.{ContainerEvent}
use pumpkin_pie.Agent.Events.Forwarded.{is_reported, reports}
use pumpkin_pie.Agent.Events.Heard.{after_event}
use pumpkin_pie.Agent.Together.{Turn, ticks, polls, hears, waiting, run_turns}
use pumpkin_pie.Agent.Together.Reported.{Finds, events_in, run_turns-Reports}
use pumpkin_pie.Agent.Together.Standing.{run_turns-Stands}
use pumpkin_pie.Tests.Data.{cluster}
use pumpkin_pie.Tests.Agents.{hub, session, json}
use pumpkin_pie.Tests.Polls.{info, poll, watch}

abbrev alive : ContainerInfo
alive = record info { state = "running"; status = "Up 2 hours" }

abbrev hangup : ContainerEvent
hangup = record { id = "d1"; action = "kill"; at = 5000000000; container_id = "c-1" }

abbrev schedule : List Turn
schedule =
    ticks 27 (ok (alive ∷ []))
    ∷ polls
    ∷ hears hangup
    ∷ polls
    ∷ polls
    ∷ polls
    ∷ ticks 37 (ok (alive ∷ []))
    ∷ polls
    ∷ []

Finds-schedule : All (Finds (alive ∷ [])) schedule
Finds-schedule = (refl, (tt, (tt, (tt, (tt, (tt, (refl, (tt, tt))))))))

run_turns-Reports_example :
    let q = (tick (λ m. m) 17 (ok (alive ∷ [])) poll).1 in
    (run_turns
      (λ m. m)
      schedule
      (record {
        poll = q;
        at = waiting;
        watch = record watch { agent = q.agent };
        watching = true;
      })).poll.agent.sent
    ≡ reports (events_in schedule) q.agent.sent
unfolding any
run_turns-Reports_example =
    run_turns-Reports (λ m. m) 17 (alive ∷ []) poll watch schedule (λ id m. refl) (refl, tt)
      (refl, refl) Finds-schedule

run_turns-Stands_example :
    let q = (tick (λ m. m) 17 (ok (alive ∷ [])) poll).1 in
    (hear json 30 30 session
      (run_turns
        (λ m. m)
        schedule
        (record {
          poll = q;
          at = waiting;
          watch = record watch { agent = q.agent };
          watching = true;
        })).poll.agent.sent
      hub).db
    ≡ calm (after_event 30 hangup cluster)
unfolding any events_in is_reported map_docker_action_to_state has_container hear tick lookup insert
    delete sees map_docker_list_state
run_turns-Stands_example =
    run_turns-Stands (λ m. m) 17 (alive ∷ []) poll watch schedule json 30 30 session hangup hub
      cluster (λ id m. refl) (refl, tt) (refl, refl) Finds-schedule refl refl refl refl
