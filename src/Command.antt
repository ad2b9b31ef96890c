-- ===== src/Command.antt =====
-- cmd/pp/main.go and internal/cmd: how the two roles of the program start and end.
pub mod Master
pub mod Node
pub mod Launched
pub mod Rejoin
use pumpkin_pie.Prelude.{ℕ, String, ◌==◌, ◌||◌, List, [], ◌∷◌, ◌<>◌, if◌then◌else◌}
use pumpkin_pie.Exec.{Result, ok, err}

-- How the process ends: the status, and what it writes to stderr.
pub record Exit : Type 0 where
  pub status : ℕ
  pub stderr : String

unfoldable pub exit_of : String → Result String Unit → Exit
exit_of role (ok done) = record { status = 0; stderr = "" }
exit_of role (err why) = record { status = 1; stderr = "pp " <> role <> ": " <> why <> "\n" }

-- main, over the results of mastercmd.Run and agentcmd.Run; the text of `usage` is a parameter.
unfoldable pub main :
    (List String → Result String Unit)
    → (List String → Result String Unit)
    → String
    → List String
    → Exit
unfolding exit_of
main master agent usage [] = record { status = 2; stderr = usage }
main master agent usage (role ∷ args) =
    if role == "master"
    then exit_of role (master args)
    else if role == "agent"
    then exit_of role (agent args)
    else if role == "version" || role == "-v" || role == "--version"
    then record { status = 0; stderr = "" }
    else if role == "help" || role == "-h" || role == "--help"
    then record { status = 0; stderr = usage }
    else record { status = 2; stderr = "pp: unknown subcommand \"" <> role <> "\"\n\n" <> usage }
