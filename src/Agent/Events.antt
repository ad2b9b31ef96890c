-- ===== src/Agent/Events.antt =====
-- internal/agent/agent.go: dockerEventsLoop, which reports the events that Docker streams. A time is
-- its number of nanoseconds, and 0 the zero time.
pub mod Pauses
pub mod Forwarded
pub mod Heard
use pumpkin_pie.Prelude.{
  ◌≡◌, refl, ◌∙◌, ap, ◌⊎◌, inl, inr, Bool-cases, All, arith, not, ◌&&◌, ℕ, ◌+◌, ◌-◌, ◌*◌, ◌/◌, ◌^◌,
  String, Bool, true, false, ◌||◌, ◌==◌, Option, none, some, List, [], ◌∷◌, ◌++◌, length, keep, ltb,
  leb, nat_eq, if◌then◌else◌,
}
use pumpkin_pie.Exec.{Result, ok, err, Exec, continue}
use pumpkin_pie.AgentMgr.Messages.{AgentMessage}
use pumpkin_pie.Agent.{Agent, send}
use pumpkin_pie.Agent.Sends.{IsUp, send-IsUp, send-sent}
use pumpkin_pie.Agent.Run.{second}
use pumpkin_pie.Agent.States.{map_docker_action_to_state}
use pumpkin_pie.Agent.Poll.{report}

-- ContainerEvent of internal/agent/docker/client.go; of the attributes only the label
-- pumpkinpie.container_id is read, which is empty where there is none.
pub record ContainerEvent : Type 0 where
  pub id : String
  pub action : String
  pub at : ℕ
  pub container_id : String

abbrev pub fast_fail_window : ℕ
fast_fail_window = 30000000000

abbrev pub fast_fails_before_quiet : ℕ
fast_fails_before_quiet = 3

abbrev pub quiet_backoff : ℕ
quiet_backoff = 60000000000

-- The variables of the loop.
pub record Watch : Type 0 where
  pub agent : Agent
  pub last_seen : ℕ
  pub recent_fails : List ℕ
  pub quiet : Bool

-- noteEventsFailure; a failure on the cutoff itself is not after it
unfoldable pub note_events_failure : ℕ → ℕ → ℕ → List ℕ × Bool → List ℕ × Bool
note_events_failure now window threshold (fails, quiet) =
    let pruned = keep (λ t. ltb now (t + window)) fails ++ now ∷ [] in
    (pruned, (if leb threshold (length pruned) then true else quiet))

-- backoffFor
unfoldable pub backoff_for : ℕ → Bool → ℕ → ℕ
backoff_for cur true quiet = quiet
backoff_for cur false quiet = if ltb (30 * second) (cur * 2) then 30 * second else cur * 2

unfoldable pub failed_at : ℕ → Watch → Watch
unfolding note_events_failure
failed_at now w =
    let (fails, quiet) =
      note_events_failure now fast_fail_window fast_fails_before_quiet (w.recent_fails, w.quiet) in
    record w { recent_fails = fails; quiet = quiet }

unfoldable pub seen_at : ℕ → Watch → Watch
seen_at at w = if nat_eq at 0 then w else record w { last_seen = at }

-- What follows the send of an event.
unfoldable pub or_leave : ContainerEvent → Result String Unit → Exec Watch String Unit
unfolding seen_at
or_leave e (ok done) w = (ok tt, seen_at e.at w)
or_leave e (err why) w = (err why, w)

-- UnixMilli, as the 64-bit pattern; the zero time is in the year 1.
unfoldable pub unix_milli : ℕ → ℕ
unix_milli at = if nat_eq at 0 then 2 ^ 64 - 62135596800000 else at / 1000000

-- The body of the loop over the events of a stream; an error makes the whole loop return.
unfoldable pub forward : ContainerEvent → Exec Watch String Unit
unfolding or_leave send report unix_milli
forward e w =
    let (state, status) = map_docker_action_to_state e.action in
    let (r, a) =
      send (report (unix_milli e.at) e.container_id e.id e.action state status) w.agent in
    if e.container_id == ""
    then (ok tt, w)
    else if state == ""
    then (ok tt, w)
    else or_leave e r (record w { agent = a })

unfoldable pub forward_all : List ContainerEvent → Exec Watch String Unit
unfolding forward
forward_all [] w = (ok tt, w)
forward_all (e ∷ es) w = let (r, w') = forward e w in continue r (λ _. forward_all es) w'

-- What a call of Events comes to: it fails, or the events of a stream that then closes; with the
-- time of time.Now in noteEventsFailure.
pub data Subscription : Type 0 where
  refused : ℕ → Subscription
  streamed : List ContainerEvent → ℕ → Subscription

-- A round of the loop: whether the context had ended before it, the call, and whether the context
-- ends after it (during the sleep, or while the stream was read).
pub record EventsRound : Type 0 where
  pub ended : Bool
  pub subscription : Subscription
  pub ended_after : Bool

-- A call of Events: its `since`, and the sleep that follows it (0 for none).
pub record Attempt : Type 0 where
  pub since : ℕ
  pub pause : ℕ

-- The calls of Events, in their order, and the variables at the end.
abbrev pub Watched : Type 0
Watched = List Attempt × Watch

unfoldable pub attempted : Attempt → Watched → Watched
attempted a (later, w) = (a ∷ later, w)

-- The loop's `backoff` is a second whenever it is read.
abbrev pub events_backoff : ℕ
events_backoff = second

unfoldable pub on_stream :
    ℕ → Bool → Result String Unit × Watch → (Watch → Watched) → Watch → Watched
unfolding attempted failed_at
on_stream now ended_after (err why, w') next w =
    (record { since = w.last_seen; pause = 0 } ∷ [], w')
on_stream now true (ok done, w') next w = (record { since = w.last_seen; pause = 0 } ∷ [], w')
on_stream now false (ok done, w') next w =
    attempted (record { since = w.last_seen; pause = 0 }) (next (failed_at now w'))

unfoldable pub on_refusal : Bool → (Watch → Watched) → ℕ → Watch → Watched
unfolding attempted backoff_for
on_refusal ended_after next since w =
    let a : Attempt = record {
      since = since;
      pause = backoff_for events_backoff w.quiet quiet_backoff;
    } in
    if ended_after then (a ∷ [], w) else attempted a (next w)

unfoldable pub subscribe : Subscription → Bool → (Watch → Watched) → Watch → Watched
unfolding on_stream on_refusal forward_all failed_at
subscribe (refused now) ended_after next w =
    on_refusal ended_after next w.last_seen (failed_at now w)
subscribe (streamed es now) ended_after next w =
    on_stream now ended_after (forward_all es (record w { recent_fails = []; quiet = false })) next
      w

unfoldable pub docker_events_loop : List EventsRound → Watch → Watched
unfolding subscribe
docker_events_loop [] w = ([], w)
docker_events_loop (r ∷ rs) w =
    if r.ended then ([], w) else subscribe r.subscription r.ended_after (docker_events_loop rs) w
