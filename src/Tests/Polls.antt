-- ===== src/Tests/Polls.antt =====
-- The agent's loops at concrete data.
use pumpkin_pie.Prelude.{◌≡◌, refl, ℕ, ◌*◌, String, true, false, none, some, List, [], ◌∷◌, any}
use pumpkin_pie.Prelude.Dicts.{lookup, insert}
use pumpkin_pie.Exec.{Result, ok, err}
use pumpkin_pie.Store.Tables.{calm}
use pumpkin_pie.AgentMgr.Messages.{
  ContainerInfo, register_resp, stop_container, CreateContainerCommand,
}
use pumpkin_pie.Agent.{Agent}
use pumpkin_pie.Agent.Run.{Round, second}
use pumpkin_pie.Agent.States.{map_docker_action_to_state, map_docker_list_state}
use pumpkin_pie.Agent.Poll.{Poll, tick, container_poll_loop}
use pumpkin_pie.Agent.Hearing.{hear}
use pumpkin_pie.Agent.Poll.Told.{told, polled, container_poll_loop-told}
use pumpkin_pie.Agent.Poll.Truth.{truth, tick-truth}
use pumpkin_pie.Agent.Commands.{Docker}
use pumpkin_pie.Agent.Serve.{Settings, Line, serve, is_accepted, IsIdle, serve-IsIdle}
use pumpkin_pie.Agent.Events.{
  ContainerEvent, Watch, EventsRound, refused, streamed, forward, forward_all, docker_events_loop,
}
use pumpkin_pie.Agent.Events.Pauses.{Paced, docker_events_loop-Paced}
use pumpkin_pie.Agent.Events.Forwarded.{
  is_reported, Forwards, reports, last_time, forward_all-Forwards,
}
use pumpkin_pie.Agent.Events.Heard.{after_event, forward-heard}
use pumpkin_pie.Store.Statements.{has_container}
use pumpkin_pie.Tests.Data.{cluster}
use pumpkin_pie.Tests.Agents.{hub, session, json}

abbrev pub agent : Agent
agent = record { connected = true; sent = []; send_faults = []; reverse_ids = ("d1", "c-1") ∷ [] }

abbrev pub info : ContainerInfo
info = record {
  container_id = "c-1";
  docker_id = "d1";
  name = "trainer";
  image = "torch";
  state = "exited";
  status = "Exited (0)";
  ports = [];
}

abbrev pub poll : Poll
poll = record { agent = agent; last_state = ("d1", "running") ∷ [] }

abbrev ticks : List (ℕ × Result String (List ContainerInfo))
ticks = (7, err "timeout") ∷ (17, ok (info ∷ [])) ∷ []

container_poll_loop-told_example :
    told "d1" (polled (λ m. m) ticks agent).agent.sent ≡ some "exited"
unfolding container_poll_loop lookup map_docker_list_state insert
container_poll_loop-told_example = container_poll_loop-told (λ m. m) ticks agent "d1" "exited" refl

tick-truth_example :
    ((tick (λ m. m) 17 (ok (info ∷ [])) poll).0 ≡ ok tt)
    × (lookup "d1" (tick (λ m. m) 17 (ok (info ∷ [])) poll).1.last_state
        ≡ truth "d1" (info ∷ []) (lookup "d1" poll.last_state))
tick-truth_example = tick-truth (λ m. m) 17 (info ∷ []) poll "d1" (λ id m. refl) (refl, refl)

abbrev pub command : CreateContainerCommand
command = record {
  container_id = "c-1";
  image = "torch";
  env = [];
  cmd = [];
  volume_binds = [];
  ports = [];
  resources = record { cpu_cores = 0; memory_bytes = 0; gpu_count = 1; gpu_device_ids = 1 ∷ [] };
  name = "trainer";
  pull = true;
}

abbrev docker : Docker Unit
docker = record {
  create = λ c d. (err "no such image", d);
  stop = λ id remove d. (ok tt, d);
  start = λ id d. (ok tt, d);
}

abbrev settings : Settings
settings = record {
  node_name = "worker-1";
  machine_id = "m1";
  container_poll_interval = 10 * second;
  docker_events_enabled = true;
  hostname = "host-1";
  os = "linux";
  arch = "x86_64";
  version = "1.2.3";
}

abbrev line : Line
line = record {
  dial_error = none;
  received =
      register_resp "" false "name taken" 0
      ∷ stop_container (record { container_id = "c-1"; docker_id = "d1"; remove = true })
      ∷ [];
  broken = "EOF";
}

serve-IsIdle_example : IsIdle tt (serve docker settings line (tt, agent))
unfolding is_accepted
serve-IsIdle_example = serve-IsIdle docker settings line (tt, agent) refl

abbrev round : Round
round = record { ended = none; served = "EOF"; is_canceled = false; ended_waiting = none }

abbrev pub watch : Watch
watch = record { agent = agent; last_seen = 0; recent_fails = []; quiet = false }

abbrev died : ContainerEvent
died = record { id = "d1"; action = "die"; at = 5000000000; container_id = "c-1" }

abbrev execed : ContainerEvent
execed = record { id = "d1"; action = "exec_create"; at = 6000000000; container_id = "c-1" }

abbrev rounds : List EventsRound
rounds =
    record { ended = false; subscription = streamed (died ∷ []) 7; ended_after = false }
    ∷ record { ended = false; subscription = refused 9; ended_after = false }
    ∷ []

docker_events_loop-Paced_example : Paced 0 rounds (docker_events_loop rounds watch).0
docker_events_loop-Paced_example = docker_events_loop-Paced rounds watch refl refl

forward_all-Forwards_example :
    Forwards
      (forward_all (died ∷ execed ∷ []) watch)
      (reports (died ∷ execed ∷ []) [])
      (last_time (died ∷ execed ∷ []) 0)
forward_all-Forwards_example = forward_all-Forwards (died ∷ execed ∷ []) watch (refl, refl)

forward-heard_example :
    (hear json 30 30 session (forward died watch).1.agent.sent hub).db
    ≡ calm (after_event 30 died cluster)
unfolding is_reported map_docker_action_to_state has_container any hear
forward-heard_example =
    forward-heard json 30 30 session died watch hub cluster (refl, refl) refl refl refl
