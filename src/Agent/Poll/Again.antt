-- ===== src/Agent/Poll/Again.antt =====
-- A tick of the poll loop that finds what the tick before found.
use pumpkin_pie.Prelude.{
  ◌≡◌, refl, sym, subst, ◌∙◌, ℕ, String, Bool, true, false, ◌==◌, Option, none, some, List, [], ◌∷◌,
  any, All, if◌then◌else◌, Bool-cases, inl, inr, arith, eq_iff, eq_refl,
}
use pumpkin_pie.Prelude.Rows.{Distinct, any_weaken, All-mono, All-both}
use pumpkin_pie.Prelude.Dicts.{Dict, lookup}
use pumpkin_pie.Exec.{Result, ok, err, continue}
use pumpkin_pie.AgentMgr.Messages.{ContainerInfo}
use pumpkin_pie.Agent.Sends.{IsUp}
use pumpkin_pie.Agent.Poll.{
  Poll, Polled, is_ours, sees, remember, is_unchanged, observe, observe_all, sweep, sweep_all, tick,
}
use pumpkin_pie.Agent.Poll.Observed.{state_of, shows, listed}
use pumpkin_pie.Agent.Poll.Truth.{truth, VisitsAll, tick-Leaves}

-- A step that succeeds, sends nothing and leaves the cache.
abbrev pub IsQuiet : Poll → Result String Unit × Poll → Type 0
IsQuiet p r = (r.0 ≡ ok tt) × (r.1.last_state ≡ p.last_state) × (r.1.agent.sent ≡ p.agent.sent)

-- The cache has the state that the entry shows.
abbrev pub Has : Dict String → ContainerInfo → Type 0
Has cache i = shows i.docker_id i ≡ true → lookup i.docker_id cache ≡ some (state_of i)

unfoldable pub same_container : ContainerInfo → ContainerInfo → Bool
same_container i j = i.docker_id == j.docker_id

continue-IsQuiet :
    (p : Poll) (r : Result String Unit × Poll) (f : Polled)
    → IsQuiet p r
    → IsQuiet r.1 (f r.1)
    → IsQuiet p (continue r.0 (λ _. f) r.1)
continue-IsQuiet p (ok done, q) f (e, c, s) (e', c', s') = (e', c' ∙ c, s' ∙ s)
continue-IsQuiet p (err why, q) f (e, c, s) next = absurd (ground (arith, e))

pub observe-IsQuiet :
    (now : ℕ) (i : ContainerInfo) (p : Poll) → Has p.last_state i → IsQuiet p (observe now i p)
unfolding observe remember shows state_of is_unchanged
observe-IsQuiet now i p has = elim (Bool-cases (is_ours i)) [
  | inr e ↦ rw e (refl, refl, refl)
  | inl e ↦ elim (Bool-cases (state_of i == "")) [
    | inl f ↦ rw (e, f) (refl, refl, refl)
    | inr f ↦
        rw (e, f, has (rw (e, f, eq_refl i.docker_id) refl), eq_refl (state_of i))
          (refl, refl, refl)
  ]
]

observe_all-IsQuiet :
    (now : ℕ) (infos : List ContainerInfo) (p : Poll)
    → All (Has p.last_state) infos
    → IsQuiet p (observe_all now infos p)
unfolding observe_all
observe_all-IsQuiet now [] p has = (refl, refl, refl)
observe_all-IsQuiet now (i ∷ is) p (h, hs) =
    let here = observe-IsQuiet now i p h in
    let next = (observe now i p).1 in
    continue-IsQuiet p (observe now i p) (observe_all now is) here
      (observe_all-IsQuiet now is next (subst (λ c. All (Has c) is) (sym here.1) hs))

sweep_all-IsQuiet :
    (now : ℕ) (infos : List ContainerInfo) (es : Dict String) (p : Poll)
    → All (λ e. sees e.0 infos ≡ true) es
    → IsQuiet p (sweep_all now infos es p)
unfolding sweep_all sweep
sweep_all-IsQuiet now infos [] p seen = (refl, refl, refl)
sweep_all-IsQuiet now infos ((d, prev) ∷ es) p (s, ss) = rw s (sweep_all-IsQuiet now infos es p ss)

-- A later entry shows another container, so that it does not change what is known.
listed_other :
    (id : String) (is : List ContainerInfo) (prev : Option String)
    → any (shows id) is ≡ false
    → listed id is prev ≡ prev
unfolding listed any
listed_other id [] prev h = refl
listed_other id (i ∷ is) prev h = elim (Bool-cases (shows id i)) [
  | inl e ↦ absurd (ground (arith, e, h))
  | inr e ↦ rw e (listed_other id is prev (ground (arith, e, h)))
]

shows_same : (i j : ContainerInfo) → shows i.docker_id j ≡ true → same_container i j ≡ true
unfolding shows same_container
shows_same i j h = ground (arith, eq_iff i.docker_id j.docker_id, eq_iff j.docker_id i.docker_id, h)

abbrev pub Listed : List ContainerInfo → ContainerInfo → Type 0
Listed infos i =
    shows i.docker_id i ≡ true
    → (prev : Option String) → listed i.docker_id infos prev ≡ some (state_of i)

Listed-Distinct :
    (infos : List ContainerInfo) → Distinct same_container infos → All (Listed infos) infos
unfolding listed
Listed-Distinct [] d = tt
Listed-Distinct (i ∷ is) (here, later) = (
  (λ h prev. rw h (
      listed_other i.docker_id is (some (state_of i))
        (any_weaken (shows i.docker_id) (same_container i) is (shows_same i) here))),
  All-mono (Listed is) (Listed (i ∷ is)) is
      (λ j l h prev. l h (if shows j.docker_id i then some (state_of i) else prev))
      (Listed-Distinct is later),
)

sees_of_shows :
    (id : String) (i : ContainerInfo) (is : List ContainerInfo)
    → shows id i ≡ true
    → sees id (i ∷ is) ≡ true
unfolding shows sees any
sees_of_shows id i is h = ground (arith, h)

sees-later :
    (id : String) (i : ContainerInfo) (is : List ContainerInfo)
    → sees id is ≡ true
    → sees id (i ∷ is) ≡ true
unfolding sees any
sees-later id i is h = ground (arith, h)

abbrev pub Seen : List ContainerInfo → ContainerInfo → Type 0
Seen infos i = shows i.docker_id i ≡ true → sees i.docker_id infos ≡ true

sees-every : (infos : List ContainerInfo) → All (Seen infos) infos
sees-every [] = tt
sees-every (i ∷ is) = (
  sees_of_shows i.docker_id i is,
  All-mono (Seen is) (Seen (i ∷ is)) is (λ j s h. sees-later j.docker_id i is (s h))
      (sees-every is),
)

present : (id : String) (m : Dict String) → lookup id m ≡ none → any (λ e. e.0 == id) m ≡ false
unfolding lookup any
present id [] h = refl
present id ((j, v) ∷ m) h = ground (arith, present id m)

All-keys :
    (P : String → Type 0) (m : Dict String)
    → ((id : String) → any (λ e. e.0 == id) m ≡ true → P id)
    → All (λ e. P e.0) m
unfolding any
All-keys P [] f = tt
All-keys P ((j, v) ∷ m) f =
    (f j (rw (eq_refl j) refl), All-keys P m (λ id h. f id (ground (arith, h))))

truth-Has :
    (infos : List ContainerInfo) (i : ContainerInfo) (cache cache' : Dict String)
    → ((id : String) → lookup id cache' ≡ truth id infos (lookup id cache))
    → Listed infos i
    → Seen infos i
    → Has cache' i
unfolding truth
truth-Has infos i cache cache' at l s h = at i.docker_id ∙ rw (s h) (l h (lookup i.docker_id cache))

truth-seen :
    (infos : List ContainerInfo) (id : String) (cache cache' : Dict String)
    → ((id : String) → lookup id cache' ≡ truth id infos (lookup id cache))
    → any (λ e. e.0 == id) cache' ≡ true
    → sees id infos ≡ true
unfolding truth
truth-seen infos id cache cache' at h = elim (Bool-cases (sees id infos)) [
  | inl e ↦ e
  | inr e ↦
      let out : any (λ e. e.0 == id) cache' ≡ false = present id cache' (at id ∙ rw e refl) in
      absurd (ground (arith, h, out))
]

-- After a tick, the cache has the state of every container listed, and no entry of another.
pub tick-Agrees :
    (order : Dict String → Dict String) (now : ℕ) (infos : List ContainerInfo) (p : Poll)
    → VisitsAll order
    → Distinct same_container infos
    → IsUp p.agent
    → let q = (tick order now (ok infos) p).1 in
      All (Has q.last_state) infos × All (λ e. sees e.0 infos ≡ true) (order q.last_state)
tick-Agrees order now infos p visits distinct up =
    let q = (tick order now (ok infos) p).1 in
    let at = (tick-Leaves order now infos p visits up).2 in
    (
      All-both (Listed infos) (Seen infos) (Has q.last_state) infos
          (λ i. truth-Has infos i p.last_state q.last_state at) (Listed-Distinct infos distinct)
          (sees-every infos),
      All-keys (λ id. sees id infos ≡ true) (order q.last_state)
          (λ id h.
            truth-seen infos id p.last_state q.last_state at (sym (visits id q.last_state) ∙ h)),
    )

-- Where the stream takes every send and Docker lists no container twice, a tick that finds the same
-- list as the tick before it sends nothing and leaves the cache as it is.
pub tick-again :
    (order : Dict String → Dict String) (now later : ℕ) (infos : List ContainerInfo) (p : Poll)
    → VisitsAll order
    → Distinct same_container infos
    → IsUp p.agent
    → let q = (tick order now (ok infos) p).1 in IsQuiet q (tick order later (ok infos) q)
unfolding tick
tick-again order now later infos p visits distinct up =
    let q = (tick order now (ok infos) p).1 in
    let (has, seen) = tick-Agrees order now infos p visits distinct up in
    let first = observe_all-IsQuiet later infos q has in
    let next = (observe_all later infos q).1 in
    continue-IsQuiet q (observe_all later infos q) (sweep_all later infos (order next.last_state))
      first
      (sweep_all-IsQuiet later infos (order next.last_state) next
        (subst (λ m. All (λ e. sees e.0 infos ≡ true) (order m)) (sym first.1) seen))
