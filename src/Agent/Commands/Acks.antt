-- ===== src/Agent/Commands/Acks.antt =====
-- What the master makes of the agent's answer to a create.
use pumpkin_pie.Prelude.{String, ◌==◌, if◌then◌else◌}
use pumpkin_pie.Exec.{Result, ok, err}
use pumpkin_pie.Store.Tables.{Tables, Time}
use pumpkin_pie.AgentMgr.Lifecycle.{stated, released}
use pumpkin_pie.Agent.{Agent}

-- The tables after Docker's answer to the creation of a container.
unfoldable pub answered : Time → String → Result String String → Tables → Tables
unfolding stated released
answered now id (ok docker_id) t = stated now id docker_id "running" "running" t
answered now id (err why) t =
    if why == ""
    then stated now id "" "running" "running" t
    else stated now id "" "error" why (released id t)
