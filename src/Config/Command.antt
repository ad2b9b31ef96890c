-- ===== src/Config/Command.antt =====
-- internal/cmd/agent/agent.go: the arguments of the agent, and the settings that its configuration
-- leaves open.
use pumpkin_pie.Prelude.{String, ◌<>◌, Bool, ◌==◌, Option, none, some, List, [], ◌∷◌, if◌then◌else◌}
use text.Mathlib.Text.{starts_with}
use pumpkin_pie.Prelude.Texts.{trim_prefix}

-- What os.Getenv gives for DOCKER_SOCK and DOCKER_HOST, and for XDG_STATE_HOME; the home directory, if
-- there is one; and whether the system is Linux.
pub record Environment : Type 0 where
  pub docker_sock : String
  pub docker_host : String
  pub xdg_state_home : String
  pub home : Option String
  pub is_linux : Bool

-- resolveDockerSock
unfoldable pub resolve_docker_sock : Environment → String → String
unfolding trim_prefix
resolve_docker_sock env from_yaml =
    if from_yaml == ""
    then (if env.docker_sock == ""
        then (if starts_with env.docker_host "unix://"
            then trim_prefix env.docker_host "unix://"
            else "/var/run/docker.sock")
        else env.docker_sock)
    else from_yaml

-- defaultStateDir
unfoldable pub default_state_dir : Environment → String
default_state_dir env =
    if env.is_linux
    then "/var/lib/pp-agent"
    else if env.xdg_state_home == ""
    then elim env.home [ none ↦ ".pp-agent" | some h ↦ h <> "/.local/state/pumpkinpie" ]
    else env.xdg_state_home <> "/pumpkinpie"

-- The arguments of `pp agent`.
pub data Parsed : Type 0 where
  path_of : String → Parsed
  usage : Parsed
  fatal : String → Parsed

unfoldable pub parse_args : String → List String → Parsed
unfolding trim_prefix
parse_args path [] = path_of path
parse_args path (arg ∷ []) =
    if arg == "--config"
    then fatal "pp agent: --config requires a path argument"
    else if starts_with arg "--config="
    then path_of (trim_prefix arg "--config=")
    else if arg == "-h"
    then usage
    else if arg == "--help"
    then usage
    else fatal arg
parse_args path (arg ∷ next ∷ more) =
    let given = parse_args next more in
    let inline = parse_args (trim_prefix arg "--config=") (next ∷ more) in
    if arg == "--config"
    then given
    else if starts_with arg "--config="
    then inline
    else if arg == "-h"
    then usage
    else if arg == "--help"
    then usage
    else fatal arg
