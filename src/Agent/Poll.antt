-- ===== src/Agent/Poll.antt =====
-- internal/agent/agent.go: containerPollLoop, which reports what the list of containers shows.
pub mod Told
pub mod Observed
pub mod Truth
pub mod Again
pub mod Reservations
use pumpkin_pie.Prelude.{
  ℕ, String, Bool, true, false, not, ◌||◌, ◌==◌, Option, none, some, List, [], ◌∷◌, any,
  if◌then◌else◌,
}
use pumpkin_pie.Prelude.Dicts.{Dict, lookup, insert, delete}
use pumpkin_pie.Exec.{Result, ok, err, Exec, continue}
use pumpkin_pie.AgentMgr.Messages.{
  ContainerInfo, ContainerStateChanged, AgentMessage, container_state_changed,
}
use pumpkin_pie.Agent.{Agent, send}
use pumpkin_pie.Agent.States.{map_docker_list_state}

-- The loop's own variable is `last_state`. An error of a step is the one with which the loop returns.
pub record Poll : Type 0 where
  pub agent : Agent
  pub last_state : Dict String

abbrev pub Polled : Type 0
Polled = Exec Poll String Unit

-- info.DockerId and info.ContainerId are both there
unfoldable pub is_ours : ContainerInfo → Bool
is_ours i = not (i.docker_id == "" || i.container_id == "")

-- _, ok := seen[id], after the first inner loop
unfoldable pub sees : String → List ContainerInfo → Bool
unfolding is_ours any
sees id = any (λ i. if is_ours i then i.docker_id == id else false)

unfoldable pub report : ℕ → String → String → String → String → String → AgentMessage
report now container_id docker_id action state status = container_state_changed (record {
  container_id = container_id;
  docker_id = docker_id;
  action = action;
  state = state;
  status = status;
  ts_unix_ms = now;
})

unfoldable pub remember : ContainerInfo → Poll → Poll
remember i p = record p {
  agent = record (p.agent) { reverse_ids = insert i.docker_id i.container_id p.agent.reverse_ids };
}

-- prev, ok := lastState[id]; ok && prev == state
unfoldable pub is_unchanged : String → Option String → Bool
is_unchanged state none = false
is_unchanged state (some prev) = prev == state

unfoldable pub drop : String → Poll → Poll
drop id p = record p { last_state = delete id p.last_state }

-- What follows the send of an observed state.
unfoldable pub or_forget : String → Result String Unit → Poll → Result String Unit × Poll
or_forget id (ok done) p = (ok tt, p)
or_forget id (err why) p = (err why, drop id p)

unfoldable pub push : ℕ → ContainerInfo → String → String → Polled
unfolding or_forget send report drop
push now i state status p =
    let (r, a) = send (report now i.container_id i.docker_id "poll" state status) p.agent in
    or_forget i.docker_id r
      (record { agent = a; last_state = insert i.docker_id state p.last_state })

-- The body of the loop over the containers that are listed.
unfoldable pub observe : ℕ → ContainerInfo → Polled
unfolding is_ours remember is_unchanged push
observe now i p =
    let (state, status) = map_docker_list_state i.state i.status in
    if is_ours i
    then (if state == ""
        then (ok tt, remember i p)
        else if is_unchanged state (lookup i.docker_id p.last_state)
        then (ok tt, remember i p)
        else push now i state status (remember i p))
    else (ok tt, p)

unfoldable pub observe_all : ℕ → List ContainerInfo → Polled
unfolding observe
observe_all now [] p = (ok tt, p)
observe_all now (i ∷ is) p =
    let (r, p') = observe now i p in continue r (λ _. observe_all now is) p'

-- containerReverseID
unfoldable pub container_reverse_id : String → Agent → Option String
container_reverse_id id a = lookup id a.reverse_ids

unfoldable pub destroyed : ℕ → String → Option String → Polled
unfolding send report
destroyed now id none p = (ok tt, p)
destroyed now id (some container_id) p =
    let (r, a) = send (report now container_id id "destroy" "exited" "exited") p.agent in
    (r, record p { agent = a })

-- The body of the loop over lastState.
unfoldable pub sweep : ℕ → List ContainerInfo → String → String → Polled
unfolding sees destroyed container_reverse_id drop
sweep now infos id prev p =
    if sees id infos
    then (ok tt, p)
    else if prev == "exited" || prev == "removed"
    then (ok tt, drop id p)
    else destroyed now id (container_reverse_id id p.agent) (drop id p)

unfoldable pub sweep_all : ℕ → List ContainerInfo → Dict String → Polled
unfolding sweep
sweep_all now infos [] p = (ok tt, p)
sweep_all now infos ((id, prev) ∷ es) p =
    let (r, p') = sweep now infos id prev p in continue r (λ _. sweep_all now infos es) p'

-- What a tick of the loop does with what ListAgent returned. `order` is the order in which `range`
-- visits the entries of a map.
unfoldable pub tick : (Dict String → Dict String) → ℕ → Result String (List ContainerInfo) → Polled
unfolding observe_all sweep_all
tick order now (err why) p = (ok tt, p)
tick order now (ok infos) p =
    let (r, p') = observe_all now infos p in
    continue r (λ _. sweep_all now infos (order p'.last_state)) p'

-- The loop, for the ticks that come until the context is cancelled.
unfoldable pub container_poll_loop :
    (Dict String → Dict String) → List (ℕ × Result String (List ContainerInfo)) → Polled
unfolding tick
container_poll_loop order [] p = (ok tt, p)
container_poll_loop order ((now, listing) ∷ ticks) p =
    let (r, p') = tick order now listing p in continue r (λ _. container_poll_loop order ticks) p'
