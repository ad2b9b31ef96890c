-- ===== src/Docker/Client.antt =====
-- internal/agent/docker/client.go: the client, as the agent's handlers use it.
use pumpkin_pie.Agent.Commands.{Docker}
use pumpkin_pie.Docker.{Engine, stop, start}
use pumpkin_pie.Docker.Create.{create}

unfoldable pub client : {D : Type 0} → Engine D → Docker D
unfolding create stop start
client engine = record { create = create engine; stop = stop engine; start = start engine }
