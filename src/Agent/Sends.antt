-- ===== src/Agent/Sends.antt =====
-- internal/agent/agent.go: what a send on the agent's stream leaves.
use pumpkin_pie.Prelude.{
  ◌≡◌, refl, String, true, ◌⊎◌, inl, inr, List-cases, none, some, [], ◌∷◌, Bool-cases,
}
use pumpkin_pie.Exec.{ok, err}
use pumpkin_pie.AgentMgr.Messages.{AgentMessage}
use pumpkin_pie.Agent.{Agent, send, transmit}

-- A send adds the message or, refused, nothing.
pub send-cases :
    (message : AgentMessage) (a : Agent)
    → (((send message a).0 ≡ ok tt) × ((send message a).1.sent ≡ message ∷ a.sent))
      ⊎ ((why : String) × ((send message a).0 ≡ err why) × ((send message a).1.sent ≡ a.sent))
unfolding send transmit
send-cases message a = elim (Bool-cases a.connected) [
  | inr e ↦ inr ("no active stream", rw e refl, rw e refl)
  | inl e ↦ elim (List-cases a.send_faults) [
    | inl f ↦ inl (rw (e, f) refl, rw (e, f) refl)
    | inr (none, fs, f) ↦ inl (rw (e, f) refl, rw (e, f) refl)
    | inr (some why, fs, f) ↦ inr (why, rw (e, f) refl, rw (e, f) refl)
  ]
]

-- The stream is open and takes every send.
abbrev pub IsUp : Agent → Type 0
IsUp a = (a.connected ≡ true) × (a.send_faults ≡ [])

pub send-IsUp :
    (message : AgentMessage) (a : Agent)
    → IsUp a
    → ((send message a).0 ≡ ok tt) × IsUp (send message a).1
unfolding send transmit
send-IsUp message a (c, f) = (rw (c, f) refl, (rw (c, f) refl, rw (c, f) refl))

pub send-sent :
    (message : AgentMessage) (a : Agent) → IsUp a → (send message a).1.sent ≡ message ∷ a.sent
unfolding send transmit
send-sent message a (c, f) = rw (c, f) refl
