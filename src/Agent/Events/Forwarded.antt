-- ===== src/Agent/Events/Forwarded.antt =====
-- What the events loop sends of a stream.
use pumpkin_pie.Prelude.{
  ◌≡◌, refl, ◌∙◌, ap, ℕ, String, Bool, not, ◌&&◌, ◌==◌, List, [], ◌∷◌, nat_eq, if◌then◌else◌,
  Bool-cases, inl, inr, arith,
}
use pumpkin_pie.Exec.{Result, ok, err, continue}
use pumpkin_pie.AgentMgr.Messages.{AgentMessage}
use pumpkin_pie.Agent.{send}
use pumpkin_pie.Agent.Sends.{IsUp, send-IsUp, send-sent}
use pumpkin_pie.Agent.States.{map_docker_action_to_state}
use pumpkin_pie.Agent.Poll.{report}
use pumpkin_pie.Agent.Events.{
  ContainerEvent, Watch, seen_at, or_leave, unix_milli, forward, forward_all,
}

-- An event of a container of the master's, with an action that has a state.
unfoldable pub is_reported : ContainerEvent → Bool
is_reported e = not (e.container_id == "") && not ((map_docker_action_to_state e.action).0 == "")

unfoldable pub event_report : ContainerEvent → AgentMessage
event_report e =
    let (state, status) = map_docker_action_to_state e.action in
    report (unix_milli e.at) e.container_id e.id e.action state status

-- The reports of the events in their order, in front of what was sent before.
unfoldable pub reports : List ContainerEvent → List AgentMessage → List AgentMessage
reports [] sent = sent
reports (e ∷ es) sent = reports es (if is_reported e then event_report e ∷ sent else sent)

-- The time of the last event that was reported, of those that have a time.
unfoldable pub last_time : List ContainerEvent → ℕ → ℕ
last_time [] t = t
last_time (e ∷ es) t = last_time es (if is_reported e && not (nat_eq e.at 0) then e.at else t)

-- The step succeeds, with the messages sent and the time seen that are given.
abbrev pub Forwards : Result String Unit × Watch → List AgentMessage → ℕ → Type 0
Forwards r sent t = (r.0 ≡ ok tt) × IsUp r.1.agent × (r.1.agent.sent ≡ sent) × (r.1.last_seen ≡ t)

or_leave-Forwards :
    (e : ContainerEvent) (r : Result String Unit) (w : Watch)
    → r ≡ ok tt
    → IsUp w.agent
    → Forwards (or_leave e r w) w.agent.sent (if not (nat_eq e.at 0) then e.at else w.last_seen)
unfolding or_leave seen_at
or_leave-Forwards e (err why) w h up = absurd (ground (arith, h))
or_leave-Forwards e (ok done) w h up = elim (Bool-cases (nat_eq e.at 0)) [
  | inl f ↦ rw f (refl, up, refl, refl)
  | inr f ↦ rw f (refl, up, refl, refl)
]

pub forward-Forwards :
    (e : ContainerEvent) (w : Watch)
    → IsUp w.agent
    → Forwards
        (forward e w)
        (if is_reported e then event_report e ∷ w.agent.sent else w.agent.sent)
        (if is_reported e && not (nat_eq e.at 0) then e.at else w.last_seen)
unfolding forward is_reported event_report
forward-Forwards e w up =
    let (state, status) = map_docker_action_to_state e.action in
    elim (Bool-cases (e.container_id == "")) [
      | inl f ↦ rw f (refl, up, refl, refl)
      | inr f ↦ elim (Bool-cases (state == "")) [
        | inl g ↦ rw (f, g) (refl, up, refl, refl)
        | inr g ↦
            let message = report (unix_milli e.at) e.container_id e.id e.action state status in
            let (r, after) = send-IsUp message w.agent up in
            let (a, b, c, d) =
              or_leave-Forwards e (send message w.agent).0
                (record w { agent = (send message w.agent).1 }) r after in
            rw (f, g) (a, b, c ∙ send-sent message w.agent up, d)
      ]
    ]

continue-Forwards :
    (es : List ContainerEvent) (r : Result String Unit × Watch) (sent : List AgentMessage) (t : ℕ)
    → Forwards r sent t
    → (IsUp r.1.agent
        → Forwards (forward_all es r.1) (reports es r.1.agent.sent) (last_time es r.1.last_seen))
    → Forwards (continue r.0 (λ _. forward_all es) r.1) (reports es sent) (last_time es t)
continue-Forwards es (err why, w) sent t (a, b, c, d) k = absurd (ground (arith, a))
continue-Forwards es (ok done, w) sent t (a, b, c, d) k =
    let (a', b', c', d') = k b in (a', b', c' ∙ ap (reports es) c, d' ∙ ap (last_time es) d)

-- Where the agent's stream takes every send, the events of a Docker stream reach the master as
-- reports in their order, one for each event that names a container of the master's and has an
-- action with a state, and no other; and the time from which the next stream is asked for is that
-- of the last of these that has one.
pub forward_all-Forwards :
    (es : List ContainerEvent) (w : Watch)
    → IsUp w.agent
    → Forwards (forward_all es w) (reports es w.agent.sent) (last_time es w.last_seen)
unfolding forward_all reports last_time
forward_all-Forwards [] w up = (refl, up, refl, refl)
forward_all-Forwards (e ∷ es) w up =
    continue-Forwards es (forward e w)
      (if is_reported e then event_report e ∷ w.agent.sent else w.agent.sent)
      (if is_reported e && not (nat_eq e.at 0) then e.at else w.last_seen) (forward-Forwards e w up)
      (forward_all-Forwards es (forward e w).1)
