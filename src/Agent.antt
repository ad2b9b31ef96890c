-- ===== src/Agent.antt =====
-- internal/agent/agent.go: the agent on a node, that its loops share.
use pumpkin_pie.Prelude.{String, Bool, true, false, Option, none, some, List, [], ◌∷◌}
use pumpkin_pie.Prelude.Dicts.{Dict}
use pumpkin_pie.Exec.{Result, ok, err, Exec}
use pumpkin_pie.AgentMgr.Messages.{AgentMessage}
pub mod States
pub mod Sends
pub mod Hearing
pub mod Poll
pub mod Run
pub mod Serve
pub mod Events
pub mod Together
pub mod Commands

-- `connected` says that the field `stream` is set, `sent` is what the stream took, newest first, and
-- `send_faults` is the oracle of the failures of the next sends. `reverse_ids` is the map of that
-- name; a lookup of the nil map finds nothing, as one of the empty map.
pub record Agent : Type 0 where
  pub connected : Bool
  pub sent : List AgentMessage
  pub send_faults : List (Option String)
  pub reverse_ids : Dict String

unfoldable pub transmit :
    AgentMessage → Option String → List (Option String) → Exec Agent String Unit
transmit message none rest a = (ok tt, record a { sent = message ∷ a.sent; send_faults = rest })
transmit message (some why) rest a = (err why, record a { send_faults = rest })

-- send
unfoldable pub send : AgentMessage → Exec Agent String Unit
unfolding transmit
send message a = elim a.connected [
  | false ↦ (err "no active stream", a)
  | true ↦ elim a.send_faults [ [] ↦ transmit message none [] a | f ∷ fs ↦ transmit message f fs a ]
]
