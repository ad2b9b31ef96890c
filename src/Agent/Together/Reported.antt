-- ===== src/Agent/Together/Reported.antt =====
-- internal/agent/agent.go: what reaches the master while the list of containers stays the same.
use pumpkin_pie.Prelude.{
  ◌≡◌, refl, sym, ap, subst, ◌∙◌, ℕ, String, Bool, true, List, [], ◌∷◌, All, if◌then◌else◌,
}
use pumpkin_pie.Prelude.Rows.{Distinct}
use pumpkin_pie.Prelude.Dicts.{Dict}
use pumpkin_pie.Exec.{Result, ok, err}
use pumpkin_pie.AgentMgr.Messages.{ContainerInfo, AgentMessage}
use pumpkin_pie.Agent.{Agent}
use pumpkin_pie.Agent.Sends.{IsUp}
use pumpkin_pie.Agent.Poll.{Poll, sees, observe, sweep, tick}
use pumpkin_pie.Agent.Poll.Truth.{VisitsAll, tick-Leaves}
use pumpkin_pie.Agent.Poll.Observed.{observe-Leaves}
use pumpkin_pie.Agent.Poll.Again.{IsQuiet, Has, same_container, observe-IsQuiet, tick-Agrees}
use pumpkin_pie.Agent.Events.{ContainerEvent, Watch, forward}
use pumpkin_pie.Agent.Events.Forwarded.{is_reported, event_report, reports, forward-Forwards}
use pumpkin_pie.Agent.Together.{
  At, waiting, observing, sweeping, returned, Loops, Turn, ticks, polls, hears, on_tick, polled,
  go_on, heard, turn, run_turns,
}

-- Every list that a tick finds is this one.
abbrev pub Finds : List ContainerInfo → Turn → Type 0
Finds infos (ticks now listing) = listing ≡ ok infos
Finds infos polls = Unit
Finds infos (hears e) = Unit

-- The events, in their order.
unfoldable pub events_in : List Turn → List ContainerEvent
events_in [] = []
events_in (ticks now listing ∷ ts) = events_in ts
events_in (polls ∷ ts) = events_in ts
events_in (hears e ∷ ts) = e ∷ events_in ts

taken : (b : Bool) (x y : Loops) → b ≡ true → (if b then x else y) ≡ x
taken b x y e = rw e refl

module _ (order : Dict String → Dict String) (infos : List ContainerInfo)
    (cache : Dict String) where
  -- The containers and the entries that are left show nothing new.
  abbrev IsSettled : At → Type 0
  IsSettled waiting = Unit
  IsSettled returned = ⊥
  IsSettled (observing now is left) = (is ≡ infos) × All (Has cache) left
  IsSettled (sweeping now is left) = (is ≡ infos) × All (λ e. sees e.0 infos ≡ true) left

  record IsStill (l : Loops) (sent : List AgentMessage) : Type 0 where
    pub place : IsSettled l.at
    pub known : l.poll.last_state ≡ cache
    pub one : l.watch.agent ≡ l.poll.agent
    pub up : IsUp l.poll.agent
    pub alive : l.watching ≡ true
    pub told : l.poll.agent.sent ≡ sent

  polled-IsStill :
      (next : At) (r : Result String Unit) (p : Poll) (l : Loops) (sent : List AgentMessage)
      → IsSettled next
      → IsQuiet l.poll (r, p)
      → IsUp p.agent
      → IsStill l sent
      → IsStill (polled next r p l) sent
  unfolding polled
  polled-IsStill next (err why) p l sent place quiet up v = absurd (cc quiet.0)
  polled-IsStill next (ok done) p l sent place quiet up v = record {
    place = place;
    known = quiet.1 ∙ v.known;
    one = refl;
    up = up;
    alive = v.alive;
    told = quiet.2 ∙ v.told;
  }

  moved :
      (at : At) (l : Loops) (sent : List AgentMessage)
      → IsSettled at
      → IsStill l sent
      → IsStill (record l { at = at }) sent
  moved at l sent place v = record {
    place = place;
    known = v.known;
    one = v.one;
    up = v.up;
    alive = v.alive;
    told = v.told;
  }

  module _ (seen : All (λ e. sees e.0 infos ≡ true) (order cache))
      (has : All (Has cache) infos) where
    go_on-IsStill :
        (at : At) (l : Loops) (sent : List AgentMessage)
        → IsSettled at
        → IsStill l sent
        → IsStill (go_on order at l) sent
    unfolding go_on sweep
    go_on-IsStill waiting l sent place v = v
    go_on-IsStill returned l sent place v = absurd place
    go_on-IsStill (observing now is []) l sent place v =
        moved _ l sent
          (place.0, subst (λ m. All (λ e. sees e.0 infos ≡ true) (order m)) (sym v.known) seen) v
    go_on-IsStill (observing now is (i ∷ left)) l sent (same, (h, hs)) v =
        let quiet = observe-IsQuiet now i l.poll (subst (λ m. Has m i) (sym v.known) h) in
        polled-IsStill (observing now is left) (observe now i l.poll).0 (observe now i l.poll).1 l
          sent (same, hs) quiet (observe-Leaves now i l.poll v.up).1 v
    go_on-IsStill (sweeping now is []) l sent place v = moved _ l sent tt v
    go_on-IsStill (sweeping now is ((id, prev) ∷ es)) l sent (same, (s, ss)) v =
        let there : sees id is ≡ true = ap (λ ls. sees id ls) same ∙ s in
        rw there (
          polled-IsStill (sweeping now is es) (ok tt) l.poll l sent (same, ss) (refl, refl, refl)
            v.up v)

    on_tick-IsSettled :
        (now : ℕ) (listing : Result String (List ContainerInfo)) (at : At)
        → listing ≡ ok infos
        → IsSettled at
        → IsSettled (on_tick now listing at)
    unfolding on_tick
    on_tick-IsSettled now (err why) at e place = absurd (cc e)
    on_tick-IsSettled now (ok is) waiting e place =
        let same : is ≡ infos = cc e in (same, subst (All (Has cache)) (sym same) has)
    on_tick-IsSettled now (ok is) returned e place = place
    on_tick-IsSettled now (ok is) (observing t js left) e place = place
    on_tick-IsSettled now (ok is) (sweeping t js left) e place = place

    heard-IsStill :
        (r : Result String Unit) (w : Watch) (l : Loops) (sent sent' : List AgentMessage)
        → r ≡ ok tt
        → IsUp w.agent
        → w.agent.sent ≡ sent'
        → IsStill l sent
        → IsStill (heard r w l) sent'
    unfolding heard
    heard-IsStill (err why) w l sent sent' e up told v = absurd (cc e)
    heard-IsStill (ok done) w l sent sent' e up told v = record {
      place = v.place;
      known = v.known;
      one = refl;
      up = up;
      alive = v.alive;
      told = told;
    }

    run_turns-IsStill :
        (ts : List Turn) (l : Loops) (sent : List AgentMessage)
        → All (Finds infos) ts
        → IsStill l sent
        → IsStill (run_turns order ts l) (reports (events_in ts) sent)
    unfolding run_turns turn events_in reports
    run_turns-IsStill [] l sent f v = v
    run_turns-IsStill (ticks now listing ∷ ts) l sent (f, fs) v =
        run_turns-IsStill ts (record l { at = on_tick now listing l.at }) sent fs
          (moved _ l sent (on_tick-IsSettled now listing l.at f v.place) v)
    run_turns-IsStill (polls ∷ ts) l sent (f, fs) v =
        run_turns-IsStill ts (go_on order l.at l) sent fs (go_on-IsStill l.at l sent v.place v)
    run_turns-IsStill (hears e ∷ ts) l sent (f, fs) v =
        let up : IsUp l.watch.agent = subst IsUp (sym v.one) v.up in
        let (done, after, told, at) = forward-Forwards e l.watch up in
        let before : l.watch.agent.sent ≡ sent = ap (λ (a : Agent). a.sent) v.one ∙ v.told in
        run_turns-IsStill ts (turn order (hears e) l)
          (if is_reported e then event_report e ∷ sent else sent) fs
          (subst (λ after. IsStill after (if is_reported e then event_report e ∷ sent else sent))
            (sym (taken l.watching (heard (forward e l.watch).0 (forward e l.watch).1 l) l v.alive))
            (heard-IsStill (forward e l.watch).0 (forward e l.watch).1 l sent
              (if is_reported e then event_report e ∷ sent else sent) done after
              (told ∙ ap (λ m. if is_reported e then event_report e ∷ m else m) before) v))

-- While Docker lists the same containers, none twice, as at the tick before, and the stream takes
-- every send, the two loops together send the reports of the events, in their order, and nothing
-- else, however they take turns: the poll loop tells the master nothing, whatever the events loop
-- told it in the meantime.
pub run_turns-Reports :
    (order : Dict String → Dict String) (now : ℕ) (infos : List ContainerInfo) (p : Poll)
    (w : Watch) (ts : List Turn)
    → VisitsAll order
    → Distinct same_container infos
    → IsUp p.agent
    → All (Finds infos) ts
    → let q = (tick order now (ok infos) p).1 in
      (run_turns order ts (record {
        poll = q;
        at = waiting;
        watch = record w { agent = q.agent };
        watching = true;
      })).poll.agent.sent
      ≡ reports (events_in ts) q.agent.sent
run_turns-Reports order now infos p w ts visits distinct up finds =
    let q = (tick order now (ok infos) p).1 in
    let (has, seen) = tick-Agrees order now infos p visits distinct up in
    let l : Loops = record {
      poll = q;
      at = waiting;
      watch = record w { agent = q.agent };
      watching = true;
    } in
    (run_turns-IsStill order infos q.last_state seen has ts l q.agent.sent finds (record {
      place = tt;
      known = refl;
      one = refl;
      up = (tick-Leaves order now infos p visits up).1;
      alive = refl;
      told = refl;
    })).told
