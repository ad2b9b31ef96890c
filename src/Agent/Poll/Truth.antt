-- ===== src/Agent/Poll/Truth.antt =====
-- The cache of the poll loop against the list of containers that Docker returned.
use pumpkin_pie.Prelude.{
  ◌≡◌, refl, text-cases, ◌∙◌, ℕ, String, Bool, true, false, not, ◌==◌, ◌&&◌, ◌||◌, Option, none,
  some, List, [], ◌∷◌, any, if◌then◌else◌, Bool-cases, inl, inr, arith,
}
use pumpkin_pie.Prelude.Dicts.{Dict, lookup, lookup-delete}
use pumpkin_pie.Exec.{ok}
use pumpkin_pie.AgentMgr.Messages.{ContainerInfo}
use pumpkin_pie.Agent.Sends.{IsUp, send-IsUp}
use pumpkin_pie.Agent.Poll.Observed.{listed, Leaves, continue-Leaves, as_cache, observe_all-Leaves}
use pumpkin_pie.Agent.Poll.{
  Poll, sees, report, drop, observe_all, container_reverse_id, destroyed, sweep, sweep_all, tick,
}

-- The state of a container by a list of Docker's: none if it is not listed, and the one it had
-- before if Docker's word for its state is none that the master has.
unfoldable pub truth : String → List ContainerInfo → Option String → Option String
unfolding sees listed
truth id infos prev = if sees id infos then listed id infos prev else none

-- The loop over the cache comes to the container, which the list does not show.
unfoldable pub is_gone : List ContainerInfo → String → String × String → Bool
is_gone infos id e = e.0 == id && not (sees id infos)

drop-cache :
    (d id : String) (p : Poll)
    → lookup id (drop d p).last_state ≡ (if d == id then none else lookup id p.last_state)
unfolding drop
drop-cache d id p = lookup-delete d id p.last_state

destroyed-Leaves :
    (now : ℕ) (d : String) (c : Option String) (p : Poll)
    → IsUp p.agent
    → Leaves (destroyed now d c p) (λ id. lookup id p.last_state)
unfolding destroyed
destroyed-Leaves now d none p up = (refl, up, λ id. refl)
destroyed-Leaves now d (some c) p up =
    let (r, after) = send-IsUp (report now c d "destroy" "exited" "exited") p.agent up in
    (r, after, λ id. refl)

spared :
    (infos : List ContainerInfo) (d id : String) (m : Dict String)
    → sees d infos ≡ true
    → lookup id m ≡ (if is_gone infos id (d, "") then none else lookup id m)
unfolding is_gone
spared infos d id m e = elim (text-cases d id) [
  | inr f ↦ rw f refl
  | inl f ↦ let same : sees id infos ≡ true = cc (f, e) in rw same (ground arith)
]

dropped :
    (infos : List ContainerInfo) (d id : String) (m : Dict String)
    → sees d infos ≡ false
    → (if d == id then none else lookup id m)
      ≡ (if is_gone infos id (d, "") then none else lookup id m)
unfolding is_gone
dropped infos d id m e = elim (text-cases d id) [
  | inr f ↦ rw f refl
  | inl f ↦ let same : sees id infos ≡ false = cc (f, e) in rw same (ground arith)
]

sweep-Leaves :
    (now : ℕ) (infos : List ContainerInfo) (d prev : String) (p : Poll)
    → IsUp p.agent
    → Leaves
        (sweep now infos d prev p)
        (λ id. if is_gone infos id (d, prev) then none else lookup id p.last_state)
unfolding sweep is_gone
sweep-Leaves now infos d prev p up = elim (Bool-cases (sees d infos)) [
  | inl e ↦ rw e (refl, up, λ id. spared infos d id p.last_state e)
  | inr e ↦ elim (Bool-cases (prev == "exited" || prev == "removed")) [
    | inl f ↦ rw (e, f) (refl, up, λ id. drop-cache d id p ∙ dropped infos d id p.last_state e)
    | inr f ↦
        let gone = destroyed-Leaves now d (container_reverse_id d p.agent) (drop d p) up in
        rw (e, f)
          (gone.0, gone.1, λ id. gone.2 id ∙ drop-cache d id p ∙ dropped infos d id p.last_state e)
  ]
]

sweep_all-Leaves :
    (now : ℕ) (infos : List ContainerInfo) (es : Dict String) (p : Poll)
    → IsUp p.agent
    → Leaves
        (sweep_all now infos es p)
        (λ id. if any (is_gone infos id) es then none else lookup id p.last_state)
unfolding sweep_all any
sweep_all-Leaves now infos [] p up = (refl, up, λ id. refl)
sweep_all-Leaves now infos ((d, prev) ∷ es) p up =
    let here = sweep-Leaves now infos d prev p up in
    let next = (sweep now infos d prev p).1 in
    let cache' : String → Option String =
      λ id. if any (is_gone infos id) ((d, prev) ∷ es) then none else lookup id p.last_state in
    continue-Leaves (sweep now infos d prev p) (sweep_all now infos es)
      (λ id. if is_gone infos id (d, prev) then none else lookup id p.last_state) cache' here
      (λ up'.
        as_cache (sweep_all now infos es next)
          (λ id. if any (is_gone infos id) es then none else lookup id next.last_state) cache'
          (sweep_all-Leaves now infos es next up')
          (λ id. rw (here.2 id) (
            either (is_gone infos id (d, prev)) (any (is_gone infos id) es)
              (lookup id p.last_state))))
  where
    either :
        (b c : Bool) (x : Option String)
        → (if c then none else if b then none else x) ≡ (if b || c then none else x)
    either b c x = ground arith

-- Where `range` visits every key of the map, whatever the order.
abbrev pub VisitsAll : (Dict String → Dict String) → Type 0
VisitsAll order =
    (id : String) (m : Dict String) → any (λ e. e.0 == id) (order m) ≡ any (λ e. e.0 == id) m

gone_entries :
    (infos : List ContainerInfo) (id : String) (m : Dict String)
    → any (is_gone infos id) m ≡ (if sees id infos then false else any (λ e. e.0 == id) m)
unfolding is_gone any
gone_entries infos id [] = ground arith
gone_entries infos id (e ∷ es) = ground (arith, gone_entries infos id es)

lookup_absent :
    (id : String) (m : Dict String) → any (λ e. e.0 == id) m ≡ false → lookup id m ≡ none
unfolding lookup any
lookup_absent id [] h = refl
lookup_absent id ((j, v) ∷ m) h = ground (arith, lookup_absent id m)

pub tick-Leaves :
    (order : Dict String → Dict String) (now : ℕ) (infos : List ContainerInfo) (p : Poll)
    → VisitsAll order
    → IsUp p.agent
    → Leaves (tick order now (ok infos) p) (λ id. truth id infos (lookup id p.last_state))
unfolding tick truth
tick-Leaves order now infos p visits up =
    let here = observe_all-Leaves now infos p up in
    let next = (observe_all now infos p).1 in
    let cache' : String → Option String = λ id. truth id infos (lookup id p.last_state) in
    continue-Leaves (observe_all now infos p) (sweep_all now infos (order next.last_state))
      (λ id. listed id infos (lookup id p.last_state)) cache' here
      (λ up'.
        as_cache (sweep_all now infos (order next.last_state) next)
          (λ id.
            if any (is_gone infos id) (order next.last_state)
            then none
            else lookup id next.last_state)
          cache' (sweep_all-Leaves now infos (order next.last_state) next up')
          (λ id.
            rw
              (
                gone_entries infos id (order next.last_state),
                visits id next.last_state,
                ← here.2 id,
              )
              (settle id next.last_state)))
  where
    settle :
        (id : String) (m : Dict String)
        → (if (if sees id infos then false else any (λ e. e.0 == id) m) then none else lookup id m)
          ≡ (if sees id infos then lookup id m else none)
    settle id m = elim (Bool-cases (sees id infos)) [
      | inl e ↦ rw e refl
      | inr e ↦ elim (Bool-cases (any (λ e. e.0 == id) m)) [
        | inl f ↦ rw (e, f) refl
        | inr f ↦ rw (e, f) (lookup_absent id m f)
      ]
    ]

-- Where the stream takes every send, a tick succeeds, and leaves in the cache what Docker's list
-- says of every container: the master's word for its state, and nothing of one that is not listed.
-- A container whose state has no such word keeps its entry.
pub tick-truth :
    (order : Dict String → Dict String) (now : ℕ) (infos : List ContainerInfo) (p : Poll)
    (id : String)
    → VisitsAll order
    → IsUp p.agent
    → ((tick order now (ok infos) p).0 ≡ ok tt)
      × (lookup id (tick order now (ok infos) p).1.last_state
          ≡ truth id infos (lookup id p.last_state))
tick-truth order now infos p id visits up =
    let (done, after, cache) = tick-Leaves order now infos p visits up in (done, cache id)
