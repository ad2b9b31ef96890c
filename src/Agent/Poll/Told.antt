-- ===== src/Agent/Poll/Told.antt =====
-- The cache of the poll loop against what the loop has sent.
use pumpkin_pie.Prelude.{
  ◌≡◌, refl, ℕ, String, Bool, true, false, ◌==◌, Option, none, some, List, [], ◌∷◌, ◌||◌,
  if◌then◌else◌, Bool-cases, inl, inr, arith,
}
use pumpkin_pie.Prelude.Dicts.{Dict, lookup, insert, lookup-insert, lookup-delete}
use pumpkin_pie.Exec.{Result, ok, err, continue}
use pumpkin_pie.AgentMgr.Messages.{
  ContainerInfo, AgentMessage, register, heartbeat, metrics, container_created, container_stopped,
  container_started, container_state_changed,
}
use pumpkin_pie.Agent.{Agent}
use pumpkin_pie.Agent.Sends.{send-cases}
use pumpkin_pie.Agent.States.{map_docker_list_state}
use pumpkin_pie.Agent.Poll.{
  Poll, Polled, is_ours, sees, report, remember, is_unchanged, drop, or_forget, push, observe,
  observe_all, container_reverse_id, destroyed, sweep, sweep_all, tick, container_poll_loop,
}

-- The state that the last message about a container carried.
unfoldable pub told : String → List AgentMessage → Option String
told id [] = none
told id (register r ∷ ms) = told id ms
told id (heartbeat t ∷ ms) = told id ms
told id (metrics r ∷ ms) = told id ms
told id (container_created c ∷ ms) = told id ms
told id (container_stopped c ∷ ms) = told id ms
told id (container_started c ∷ ms) = told id ms
told id (container_state_changed c ∷ ms) = if c.docker_id == id then some c.state else told id ms

-- What the cache says of a container is what the master was told last.
abbrev pub IsTold : Poll → Type 0
IsTold p =
    (id state : String) → lookup id p.last_state ≡ some state → told id p.agent.sent ≡ some state

told-report :
    (k : String) (now : ℕ) (c d action state status : String) (ms : List AgentMessage)
    → told k (report now c d action state status ∷ ms) ≡ (if d == k then some state else told k ms)
unfolding told report
told-report k now c d action state status ms = refl

push-IsTold :
    (now : ℕ) (i : ContainerInfo) (state status : String) (p : Poll)
    → IsTold p
    → IsTold (push now i state status p).1
unfolding push or_forget drop
push-IsTold now i state status p h id s =
    let message = report now i.container_id i.docker_id "poll" state status in
    let cached = lookup-insert i.docker_id id state p.last_state in
    elim (send-cases message p.agent) [
      | inl (r, sent) ↦
          rw
            (
              r,
              sent,
              cached,
              told-report id now i.container_id i.docker_id "poll" state status p.agent.sent,
            )
            (only_if (i.docker_id == id) (h id s))
      | inr (why, r, sent) ↦
          rw (r, sent, lookup-delete i.docker_id id (insert i.docker_id state p.last_state), cached)
            (λ e. ground (arith, h id s))
    ]
  where
    only_if :
        (b : Bool) {A B : Option String}
        → (A ≡ some s → B ≡ some s)
        → (if b then some state else A) ≡ some s
        → (if b then some state else B) ≡ some s
    only_if true f e = e
    only_if false f e = f e

-- A step that leaves the loop, or goes on to a step that keeps it.
continue-IsTold :
    (r : Result String Unit × Poll) (f : Polled)
    → IsTold r.1
    → (IsTold r.1 → IsTold (f r.1).1)
    → IsTold (continue r.0 (λ _. f) r.1).1
continue-IsTold (ok done, p) f h k = k h
continue-IsTold (err why, p) f h k = h

observe-IsTold : (now : ℕ) (i : ContainerInfo) (p : Poll) → IsTold p → IsTold (observe now i p).1
unfolding observe remember
observe-IsTold now i p h =
    let (state, status) = map_docker_list_state i.state i.status in
    elim (Bool-cases (is_ours i)) [
      | inr e ↦ rw e h
      | inl e ↦ elim (Bool-cases (state == "")) [
        | inl f ↦ rw (e, f) h
        | inr f ↦ elim (Bool-cases (is_unchanged state (lookup i.docker_id p.last_state))) [
          | inl g ↦ rw (e, f, g) h
          | inr g ↦ rw (e, f, g) (push-IsTold now i state status (remember i p) h)
        ]
      ]
    ]

drop-IsTold : (id : String) (p : Poll) → IsTold p → IsTold (drop id p)
unfolding drop
drop-IsTold d p h id s = rw (lookup-delete d id p.last_state) (λ e. ground (arith, h id s))

not_dropped :
    (d : String) (p : Poll)
    → IsTold p
    → (id s : String) → lookup id (drop d p).last_state ≡ some s
    → (if d == id then some "exited" else told id (drop d p).agent.sent) ≡ some s
unfolding drop
not_dropped d p h id s = rw (lookup-delete d id p.last_state) (λ e. ground (arith, h id s))

-- The send that reports a container gone.
reported_gone-IsTold :
    (now : ℕ) (d c : String) (p : Poll) → IsTold p → IsTold (destroyed now d (some c) (drop d p)).1
unfolding destroyed
reported_gone-IsTold now d c p h id s =
    let message = report now c d "destroy" "exited" "exited" in
    elim (send-cases message (drop d p).agent) [
      | inr (why, r, sent) ↦ rw sent (drop-IsTold d p h id s)
      | inl (r, sent) ↦
          rw (sent, told-report id now c d "destroy" "exited" "exited" (drop d p).agent.sent)
            (not_dropped d p h id s)
    ]

destroyed-IsTold :
    (now : ℕ) (d : String) (c : Option String) (p : Poll)
    → IsTold p
    → IsTold (destroyed now d c (drop d p)).1
unfolding destroyed
destroyed-IsTold now d none p h = drop-IsTold d p h
destroyed-IsTold now d (some c) p h = reported_gone-IsTold now d c p h

sweep-IsTold :
    (now : ℕ) (infos : List ContainerInfo) (id prev : String) (p : Poll)
    → IsTold p
    → IsTold (sweep now infos id prev p).1
unfolding sweep
sweep-IsTold now infos id prev p h = elim (Bool-cases (sees id infos)) [
  | inl e ↦ rw e h
  | inr e ↦ elim (Bool-cases (prev == "exited" || prev == "removed")) [
    | inl f ↦ rw (e, f) (drop-IsTold id p h)
    | inr f ↦ rw (e, f) (destroyed-IsTold now id (container_reverse_id id p.agent) p h)
  ]
]

observe_all-IsTold :
    (now : ℕ) (infos : List ContainerInfo) (p : Poll)
    → IsTold p
    → IsTold (observe_all now infos p).1
unfolding observe_all
observe_all-IsTold now [] p h = h
observe_all-IsTold now (i ∷ is) p h =
    continue-IsTold (observe now i p) (observe_all now is) (observe-IsTold now i p h)
      (observe_all-IsTold now is (observe now i p).1)

sweep_all-IsTold :
    (now : ℕ) (infos : List ContainerInfo) (es : Dict String) (p : Poll)
    → IsTold p
    → IsTold (sweep_all now infos es p).1
unfolding sweep_all
sweep_all-IsTold now infos [] p h = h
sweep_all-IsTold now infos ((id, prev) ∷ es) p h =
    continue-IsTold (sweep now infos id prev p) (sweep_all now infos es)
      (sweep-IsTold now infos id prev p h)
      (sweep_all-IsTold now infos es (sweep now infos id prev p).1)

tick-IsTold :
    (order : Dict String → Dict String) (now : ℕ) (listing : Result String (List ContainerInfo))
    (p : Poll)
    → IsTold p
    → IsTold (tick order now listing p).1
unfolding tick
tick-IsTold order now (err why) p h = h
tick-IsTold order now (ok infos) p h =
    let p' = (observe_all now infos p).1 in
    continue-IsTold (observe_all now infos p) (sweep_all now infos (order p'.last_state))
      (observe_all-IsTold now infos p h) (sweep_all-IsTold now infos (order p'.last_state) p')

container_poll_loop-IsTold :
    (order : Dict String → Dict String) (ticks : List (ℕ × Result String (List ContainerInfo)))
    (p : Poll)
    → IsTold p
    → IsTold (container_poll_loop order ticks p).1
unfolding container_poll_loop
container_poll_loop-IsTold order [] p h = h
container_poll_loop-IsTold order ((now, listing) ∷ ticks) p h =
    continue-IsTold (tick order now listing p) (container_poll_loop order ticks)
      (tick-IsTold order now listing p h)
      (container_poll_loop-IsTold order ticks (tick order now listing p).1)

fresh : (a : Agent) → IsTold (record { agent = a; last_state = [] })
unfolding lookup
fresh a k s e = absurd (ground (arith, e))

-- The loop and its variables after the ticks, from the start of the loop.
abbrev pub polled :
    (Dict String → Dict String) → List (ℕ × Result String (List ContainerInfo)) → Agent → Poll
polled order ticks a = (container_poll_loop order ticks (record { agent = a; last_state = [] })).1

-- Whatever the listings are, in whatever order the maps are visited, and whichever sends fail, a
-- state that the poll loop remembers of a container is the one that the last message sent about the
-- container carried, so that a change which it could not send is not taken for one that it sent.
pub container_poll_loop-told :
    (order : Dict String → Dict String) (ticks : List (ℕ × Result String (List ContainerInfo)))
    (a : Agent) (id state : String)
    → lookup id (polled order ticks a).last_state ≡ some state
    → told id (polled order ticks a).agent.sent ≡ some state
container_poll_loop-told order ticks a id state =
    container_poll_loop-IsTold order ticks (record { agent = a; last_state = [] }) (fresh a) id
      state
