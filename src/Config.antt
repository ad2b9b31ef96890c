-- ===== src/Config.antt =====
-- internal/agent/config/config.go and internal/master/config/config.go.
pub mod Command
pub mod Filled
use pumpkin_pie.Prelude.{
  ◌≡◌, refl, subst, String, ◌<>◌, Bool, true, false, ◌==◌, Option, none, some, List, [], ◌∷◌,
  if◌then◌else◌, Bool-cases, inl, inr, arith,
}
use text.Mathlib.Text.{starts_with}
use pumpkin_pie.Prelude.Texts.{trim_prefix}
use pumpkin_pie.Exec.{Result, ok, err}

-- What os.ReadFile says of a path.
pub data File : Type 0 where
  missing : File
  unreadable : String → File
  contains : String → File

-- The agent's Config; `docker_events` is a pointer.
pub record AgentConfig : Type 0 where
  pub master : String
  pub name : String
  pub state_dir : String
  pub docker_sock : String
  pub container_poll_interval : String
  pub docker_events : Option Bool

abbrev pub default_master : String
default_master = "pp-master.internal:7000"

abbrev pub agent_default_path : String
agent_default_path = "/etc/pp/pp-agent.yaml"

abbrev pub agent_defaults : AgentConfig
agent_defaults = record {
  master = default_master;
  name = "";
  state_dir = "";
  docker_sock = "";
  container_poll_interval = "";
  docker_events = none;
}

unfoldable pub or_default : String → String → String
or_default default s = if s == "" then default else s

-- (*Config).applyDefaults of the agent
unfoldable pub apply_agent_defaults : AgentConfig → AgentConfig
unfolding or_default
apply_agent_defaults c = record c { master = or_default default_master c.master }

-- Load: whether the file was there, and the configuration; `decode` is yaml.Unmarshal onto a value.
abbrev pub Loaded : Type 0 → Type 0
Loaded C = Result String C × Bool

unfoldable pub applied : {C : Type 0} → (C → C) → String → Result String C → Loaded C
applied apply path (ok c) = (ok (apply c), true)
applied apply path (err why) = (err ("parse " <> path <> ": " <> why), true)

unfoldable pub load_file :
    {C : Type 0} → (String → C → Result String C) → (C → C) → C → String → File → Loaded C
unfolding applied
load_file decode apply defaults path missing = (ok defaults, false)
load_file decode apply defaults path (unreadable why) =
    (err ("read " <> path <> ": " <> why), false)
load_file decode apply defaults path (contains text) = applied apply path (decode text defaults)

unfoldable pub load_agent_config :
    (String → AgentConfig → Result String AgentConfig)
    → (String → File)
    → String
    → Loaded AgentConfig
unfolding load_file or_default apply_agent_defaults
load_agent_config decode disk given =
    let path = or_default agent_default_path given in
    load_file decode apply_agent_defaults agent_defaults path (disk path)

-- DockerEventsEnabled
unfoldable pub docker_events_enabled : AgentConfig → Bool
docker_events_enabled c = elim c.docker_events [ none ↦ true | some b ↦ b ]

-- The master's Config; the last three are `Greptime`.
pub record MasterConfig : Type 0 where
  pub http : String
  pub grpc : String
  pub db : String
  pub url : String
  pub database : String
  pub table : String

abbrev pub master_default_path : String
master_default_path = "/etc/pp/pp-master.yaml"

abbrev pub master_defaults : MasterConfig
master_defaults = record {
  http = ":8080";
  grpc = ":7000";
  db = "pumpkinpie.db";
  url = "";
  database = "public";
  table = "node_metrics";
}

unfoldable pub apply_master_defaults : MasterConfig → MasterConfig
unfolding or_default
apply_master_defaults c = record c {
  http = or_default master_defaults.http c.http;
  grpc = or_default master_defaults.grpc c.grpc;
  db = or_default master_defaults.db c.db;
  database = or_default master_defaults.database c.database;
  table = or_default master_defaults.table c.table;
}

unfoldable pub load_master_config :
    (String → MasterConfig → Result String MasterConfig)
    → (String → File)
    → String
    → Loaded MasterConfig
unfolding load_file or_default apply_master_defaults
load_master_config decode disk given =
    let path = or_default master_default_path given in
    load_file decode apply_master_defaults master_defaults path (disk path)
