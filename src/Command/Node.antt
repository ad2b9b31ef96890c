-- ===== src/Command/Node.antt =====
-- internal/cmd/agent/agent.go: Run, and New of internal/agent/agent.go.
use pumpkin_pie.Prelude.{ℕ, String, ◌==◌, ◌<>◌, Bool, List, if◌then◌else◌}
use pumpkin_pie.Exec.{Result, ok, err}
use pumpkin_pie.Config.{
  AgentConfig, File, load_agent_config, or_default, agent_default_path, docker_events_enabled,
}
use pumpkin_pie.Config.Command.{
  Environment, Parsed, path_of, usage, fatal, parse_args, resolve_docker_sock, default_state_dir,
}
use pumpkin_pie.Identity.{Dir, load}
use pumpkin_pie.Agent.Run.{parse_duration, default_container_poll_interval}

-- What Run reads: PP_CONFIG and the other variables, the host's name, the files with yaml.Unmarshal,
-- strings.TrimSpace, crypto/rand, and time.ParseDuration.
pub record Host : Type 0 where
  pub env : Environment
  pub pp_config : String
  pub hostname : Result String String
  pub decode : String → AgentConfig → Result String AgentConfig
  pub disk : String → File
  pub trim : String → String
  pub random : Result String String
  pub parse : String → Result String ℕ

-- What New is given, with the interval that it parses.
pub record Launch : Type 0 where
  pub master : String
  pub name : String
  pub machine_id : String
  pub docker_sock : String
  pub container_poll_interval : ℕ
  pub docker_events_enabled : Bool

-- How far Run comes: to the usage, to log.Fatalf, to an error, or to (*Agent).Run.
pub data Launched : Type 0 where
  shows_usage : Launched
  stops : String → Launched
  fails : String → Launched
  launches : Launch → Launched

unfoldable pub on_interval : AgentConfig → String → String → String → Result String ℕ → Launched
unfolding docker_events_enabled
on_interval c name id sock (err why) = fails ("container_poll_interval: " <> why)
on_interval c name id sock (ok interval) = launches (record {
  master = c.master;
  name = name;
  machine_id = id;
  docker_sock = sock;
  container_poll_interval = interval;
  docker_events_enabled = docker_events_enabled c;
})

unfoldable pub on_identity : Host → AgentConfig → String → Result String String → Launched
unfolding on_interval parse_duration resolve_docker_sock
on_identity h c name (err why) = fails why
on_identity h c name (ok id) =
    on_interval c name id (resolve_docker_sock h.env c.docker_sock)
      (parse_duration h.parse c.container_poll_interval default_container_poll_interval)

-- The state directory of the configuration, or else the platform's.
unfoldable pub state_dir_of : Host → AgentConfig → String
unfolding or_default default_state_dir
state_dir_of h c = or_default (default_state_dir h.env) c.state_dir

unfoldable pub on_name : Host → AgentConfig → Result String String → Dir → Launched × Dir
unfolding on_identity state_dir_of load
on_name h c (err why) s = (fails why, s)
on_name h c (ok name) s =
    let (r, s') = load h.trim h.random (state_dir_of h c) s in (on_identity h c name r, s')

unfoldable pub name_of : Host → AgentConfig → Result String String
name_of h c = if c.name == "" then h.hostname else ok c.name

unfoldable pub on_config : Host → Result String AgentConfig → Dir → Launched × Dir
unfolding on_name name_of
on_config h (err why) s = (fails why, s)
on_config h (ok c) s = on_name h c (name_of h c) s

-- What the flag or the variable says, or else DefaultPath.
unfoldable pub config_of : Host → String → Result String AgentConfig
unfolding load_agent_config or_default
config_of h path = (load_agent_config h.decode h.disk (or_default agent_default_path path)).0

unfoldable pub on_args : Host → Parsed → Dir → Launched × Dir
unfolding on_config config_of
on_args h (path_of path) s = on_config h (config_of h path) s
on_args h usage s = (shows_usage, s)
on_args h (fatal why) s = (stops why, s)

-- Run
unfoldable pub run : Host → List String → Dir → Launched × Dir
unfolding on_args parse_args
run h args s = on_args h (parse_args h.pp_config args) s
