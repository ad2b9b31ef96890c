-- ===== src/Agent/Serve.antt =====
-- internal/agent/agent.go: serve, one connection of the agent to the master.
use pumpkin_pie.Prelude.{
  ◌≡◌, refl, ℕ, ◌*◌, ◌^◌, ◌≤◌, ◌<◌, String, Bool, true, false, ◌||◌, inl, inr, Option, none, some,
  List, [], ◌∷◌, ◌++◌, ltb, leb, nat_eq, if◌then◌else◌, Bool-cases, arith,
}
use pumpkin_pie.Exec.{Result, ok, err}
use pumpkin_pie.AgentMgr.Messages.{
  AgentMessage, register, MasterMessage, register_resp, create_container, stop_container,
  start_container,
}
use pumpkin_pie.Agent.{Agent, send}
use pumpkin_pie.Agent.Run.{second}
use pumpkin_pie.Agent.Commands.{Docker, handle_master_message}

-- The fields of the agent that do not change, and what HostInfo and buildinfo say.
pub record Settings : Type 0 where
  pub node_name : String
  pub machine_id : String
  pub container_poll_interval : ℕ
  pub docker_events_enabled : Bool
  pub hostname : String
  pub os : String
  pub arch : String
  pub version : String

-- The error of grpc.NewClient or of Connect, what the stream receives, and the error of the Recv
-- after that.
pub record Line : Type 0 where
  pub dial_error : Option String
  pub received : List MasterMessage
  pub broken : String

-- The goroutines that serve starts, with the interval of the ticker.
pub data Loop : Type 0 where
  starts_metrics : ℕ → Loop
  starts_events : Loop
  starts_poll : ℕ → Loop

-- The errors with which serve returns.
pub data Ended : Type 0 where
  broke : String → Ended
  unexpected : MasterMessage → Ended
  rejected : String → Ended

pub record Served (D : Type 0) : Type 0 where
  pub ended : Ended
  pub loops : List Loop
  pub state : D × Agent

unfoldable pub registration : Settings → AgentMessage
registration s = register (record {
  name = s.node_name;
  hostname = s.hostname;
  os = s.os;
  arch = s.arch;
  agent_version = s.version;
  docker_volumes = [];
  machine_id = s.machine_id;
})

-- MetricsIntervalSec is an int32, as the 32-bit pattern.
unfoldable pub metrics_interval : ℕ → ℕ
metrics_interval sec = if nat_eq sec 0 || leb (2 ^ 31) sec then 5 * second else sec * second

unfoldable pub loops_of : Settings → ℕ → List Loop
unfolding metrics_interval
loops_of s sec =
    starts_metrics (metrics_interval sec)
      ∷ (if s.docker_events_enabled then starts_events ∷ [] else [])
    ++ (if ltb 0 s.container_poll_interval then starts_poll s.container_poll_interval ∷ [] else [])

module _ {D : Type 0} (docker : Docker D) (s : Settings) (line : Line) where
  -- The read loop; the commands are carried out in the order in which they come.
  unfoldable pub handle_all : List MasterMessage → D × Agent → D × Agent
  unfolding handle_master_message
  handle_all [] state = state
  handle_all (message ∷ messages) state =
      handle_all messages (handle_master_message docker message state)

  unfoldable pub on_response : List MasterMessage → D × Agent → Served D
  unfolding loops_of handle_all
  on_response [] state = record { ended = broke line.broken; loops = []; state = state }
  on_response (create_container c ∷ ms) state = record {
    ended = unexpected (create_container c);
    loops = [];
    state = state;
  }
  on_response (stop_container c ∷ ms) state = record {
    ended = unexpected (stop_container c);
    loops = [];
    state = state;
  }
  on_response (start_container c ∷ ms) state = record {
    ended = unexpected (start_container c);
    loops = [];
    state = state;
  }
  on_response (register_resp id false why sec ∷ ms) state = record {
    ended = rejected why;
    loops = [];
    state = state;
  }
  on_response (register_resp id true why sec ∷ ms) state = record {
    ended = broke line.broken;
    loops = loops_of s sec;
    state = handle_all ms state;
  }

  unfoldable pub on_registration : Result String Unit → D × Agent → Served D
  unfolding on_response
  on_registration (err why) state = record { ended = broke why; loops = []; state = state }
  on_registration (ok done) state = on_response line.received state

  unfoldable pub serve_on : Option String → D × Agent → Served D
  unfolding on_registration send registration
  serve_on (some why) state = record { ended = broke why; loops = []; state = state }
  serve_on none (d, a) =
      let (r, a') = send (registration s) (record a { connected = true }) in
      on_registration r (d, a')

  unfoldable pub serve : D × Agent → Served D
  unfolding serve_on
  serve state = serve_on line.dial_error state

-- The master accepted the registration: its first message says so.
unfoldable pub is_accepted : List MasterMessage → Bool
is_accepted [] = false
is_accepted (create_container c ∷ ms) = false
is_accepted (stop_container c ∷ ms) = false
is_accepted (start_container c ∷ ms) = false
is_accepted (register_resp id is_ok why sec ∷ ms) = is_ok

-- The metrics ticker never gets an interval below a second, nor one that does not fit in an int64.
pub metrics_interval-bounds :
    (sec : ℕ) → (second ≤ metrics_interval sec) × (metrics_interval sec < 2 ^ 63)
unfolding metrics_interval
metrics_interval-bounds sec = elim (Bool-cases (nat_eq sec 0 || leb (2 ^ 31) sec)) [
  | inl e ↦ rw e (omega arith, omega arith)
  | inr e ↦ rw e (ground (arith, e), ground (arith, e))
]

-- Nothing but the end of the connection, and no command reached Docker.
abbrev pub IsIdle : {D : Type 0} → D → Served D → Type 0
IsIdle d served = (served.loops ≡ []) × (served.state.0 ≡ d)

module _ {D : Type 0} (docker : Docker D) (s : Settings) (line : Line) where
  on_response-IsIdle :
      (ms : List MasterMessage) (state : D × Agent)
      → is_accepted ms ≡ false
      → IsIdle state.0 (on_response docker s line ms state)
  unfolding on_response is_accepted
  on_response-IsIdle [] state h = (refl, refl)
  on_response-IsIdle (create_container c ∷ ms) state h = (refl, refl)
  on_response-IsIdle (stop_container c ∷ ms) state h = (refl, refl)
  on_response-IsIdle (start_container c ∷ ms) state h = (refl, refl)
  on_response-IsIdle (register_resp id false why sec ∷ ms) state h = (refl, refl)
  on_response-IsIdle (register_resp id true why sec ∷ ms) state h = absurd (ground (arith, h))

  on_registration-IsIdle :
      (r : Result String Unit) (state : D × Agent)
      → is_accepted line.received ≡ false
      → IsIdle state.0 (on_registration docker s line r state)
  unfolding on_registration
  on_registration-IsIdle (err why) state h = (refl, refl)
  on_registration-IsIdle (ok done) state h = on_response-IsIdle line.received state h

  -- Unless the first message on the stream is a response that accepts the registration, a
  -- connection starts none of the loops and carries out no command, whatever else was received.
  pub serve-IsIdle :
      (state : D × Agent)
      → is_accepted line.received ≡ false
      → IsIdle state.0 (serve docker s line state)
  unfolding serve serve_on
  serve-IsIdle (d, a) h = by_dial line.dial_error
    where
      by_dial : (o : Option String) → IsIdle d (serve_on docker s line o (d, a))
      by_dial (some why) = (refl, refl)
      by_dial none =
          let (r, a') = send (registration s) (record a { connected = true }) in
          on_registration-IsIdle r (d, a') h
