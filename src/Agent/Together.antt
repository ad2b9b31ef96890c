-- ===== src/Agent/Together.antt =====
-- internal/agent/agent.go: the goroutines of containerPollLoop and dockerEventsLoop side by side.
-- They share the stream, whose sends a mutex puts in an order, and nothing else that the other
-- reads; a schedule says which of them goes on next, by one container or one event.
pub mod Reported
pub mod Standing
use pumpkin_pie.Prelude.{ℕ, String, Bool, true, false, List, [], ◌∷◌, if◌then◌else◌}
use pumpkin_pie.Prelude.Dicts.{Dict}
use pumpkin_pie.Exec.{Result, ok, err}
use pumpkin_pie.AgentMgr.Messages.{ContainerInfo}
use pumpkin_pie.Agent.{Agent}
use pumpkin_pie.Agent.Poll.{Poll, observe, sweep}
use pumpkin_pie.Agent.Events.{ContainerEvent, Watch, forward}

-- Where the poll loop is: before the ticker, in the loop over the containers of a list of which
-- some are left, in the loop over the entries of lastState, or returned.
pub data At : Type 0 where
  waiting : At
  observing : ℕ → List ContainerInfo → List ContainerInfo → At
  sweeping : ℕ → List ContainerInfo → Dict String → At
  returned : At

-- The variables of both loops; the agent in `watch` is the one in `poll`. `watching` is false when
-- the events loop has returned.
pub record Loops : Type 0 where
  pub poll : Poll
  pub at : At
  pub watch : Watch
  pub watching : Bool

pub data Turn : Type 0 where
  -- the ticker fires, and ListAgent returns this
  ticks : ℕ → Result String (List ContainerInfo) → Turn
  -- the poll loop goes on
  polls : Turn
  -- the stream of Events has this event next
  hears : ContainerEvent → Turn

unfoldable pub on_tick : ℕ → Result String (List ContainerInfo) → At → At
on_tick now (ok infos) waiting = observing now infos infos
on_tick now (err why) waiting = waiting
on_tick now listing (observing t infos left) = observing t infos left
on_tick now listing (sweeping t infos left) = sweeping t infos left
on_tick now listing returned = returned

unfoldable pub polled : At → Result String Unit → Poll → Loops → Loops
polled next (ok done) p l = record l {
  poll = p;
  at = next;
  watch = record (l.watch) { agent = p.agent };
}
polled next (err why) p l = record l {
  poll = p;
  at = returned;
  watch = record (l.watch) { agent = p.agent };
}

unfoldable pub go_on : (Dict String → Dict String) → At → Loops → Loops
unfolding polled observe sweep
go_on order waiting l = l
go_on order returned l = l
go_on order (observing now infos []) l = record l {
  at = sweeping now infos (order l.poll.last_state);
}
go_on order (observing now infos (i ∷ is)) l =
    let (r, p) = observe now i l.poll in polled (observing now infos is) r p l
go_on order (sweeping now infos []) l = record l { at = waiting }
go_on order (sweeping now infos ((id, prev) ∷ es)) l =
    let (r, p) = sweep now infos id prev l.poll in polled (sweeping now infos es) r p l

unfoldable pub heard : Result String Unit → Watch → Loops → Loops
heard (ok done) w l = record l { watch = w; poll = record (l.poll) { agent = w.agent } }
heard (err why) w l = record l {
  watch = w;
  poll = record (l.poll) { agent = w.agent };
  watching = false;
}

unfoldable pub turn : (Dict String → Dict String) → Turn → Loops → Loops
unfolding on_tick go_on heard forward
turn order (ticks now listing) l = record l { at = on_tick now listing l.at }
turn order polls l = go_on order l.at l
turn order (hears e) l = let (r, w) = forward e l.watch in if l.watching then heard r w l else l

unfoldable pub run_turns : (Dict String → Dict String) → List Turn → Loops → Loops
unfolding turn
run_turns order [] l = l
run_turns order (t ∷ ts) l = run_turns order ts (turn order t l)
