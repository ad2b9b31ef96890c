-- ===== src/Agent/Poll/Observed.antt =====
-- The cache after the containers of a list are observed.
use pumpkin_pie.Prelude.{
  ◌≡◌, refl, ap, ◌∙◌, ℕ, String, Bool, true, false, not, ◌==◌, ◌&&◌, Option, some, List, [], ◌∷◌,
  if◌then◌else◌, Bool-cases, inl, inr, arith, eq_iff, Option-cases,
}
use pumpkin_pie.Prelude.Dicts.{Dict, lookup, lookup-insert}
use pumpkin_pie.Exec.{Result, ok, err, continue}
use pumpkin_pie.AgentMgr.Messages.{ContainerInfo}
use pumpkin_pie.Agent.Sends.{IsUp, send-IsUp}
use pumpkin_pie.Agent.States.{map_docker_list_state}
use pumpkin_pie.Agent.Poll.{
  Poll, Polled, is_ours, report, remember, is_unchanged, or_forget, push, observe, observe_all,
}

unfoldable pub state_of : ContainerInfo → String
state_of i = (map_docker_list_state i.state i.status).0

-- The entry says in which of the master's states the container is.
unfoldable pub shows : String → ContainerInfo → Bool
unfolding is_ours state_of
shows id i = is_ours i && i.docker_id == id && not (state_of i == "")

unfoldable pub listed : String → List ContainerInfo → Option String → Option String
unfolding shows state_of
listed id [] prev = prev
listed id (i ∷ is) prev = listed id is (if shows id i then some (state_of i) else prev)

-- The step succeeds, and leaves the cache `cache`.
abbrev pub Leaves : Result String Unit × Poll → (String → Option String) → Type 0
Leaves r cache =
    (r.0 ≡ ok tt) × IsUp r.1.agent × ((id : String) → lookup id r.1.last_state ≡ cache id)

push-Leaves :
    (now : ℕ) (i : ContainerInfo) (state status : String) (p : Poll)
    → IsUp p.agent
    → Leaves
        (push now i state status p)
        (λ id. if i.docker_id == id then some state else lookup id p.last_state)
unfolding push or_forget
push-Leaves now i state status p up =
    let message = report now i.container_id i.docker_id "poll" state status in
    let (r, after) = send-IsUp message p.agent up in
    (rw r refl, rw r after, λ id. rw r (lookup-insert i.docker_id id state p.last_state))

shown : (b : Bool) (x y : Option String) → (if b then x else y) ≡ (if b && true then x else y)
shown b x y = ground arith

not_shown : (b : Bool) (x y : Option String) → y ≡ (if b && false then x else y)
not_shown b x y = ground arith

kept :
    (d id state : String) (m : Dict String)
    → is_unchanged state (lookup d m) ≡ true
    → lookup id m ≡ (if d == id && true then some state else lookup id m)
unfolding is_unchanged
kept d id state m g = elim (Bool-cases (d == id)) [
  | inr e ↦ rw e refl
  | inl e ↦ elim (Option-cases (lookup d m)) [
    | inl n ↦ absurd (ground (arith, n, g))
    | inr (prev, n) ↦ ground (arith, eq_iff d id, eq_iff prev state, n, g, e)
  ]
]

pub observe-Leaves :
    (now : ℕ) (i : ContainerInfo) (p : Poll)
    → IsUp p.agent
    → Leaves
        (observe now i p)
        (λ id. if shows id i then some (state_of i) else lookup id p.last_state)
unfolding observe remember shows state_of
observe-Leaves now i p up =
    let (state, status) = map_docker_list_state i.state i.status in
    elim (Bool-cases (is_ours i)) [
      | inr e ↦ rw e (refl, up, λ id. refl)
      | inl e ↦ elim (Bool-cases (state == "")) [
        | inl f ↦
            rw (e, f)
              (refl, up, λ id. not_shown (i.docker_id == id) (some state) (lookup id p.last_state))
        | inr f ↦ elim (Bool-cases (is_unchanged state (lookup i.docker_id p.last_state))) [
          | inl g ↦ rw (e, f, g) (refl, up, λ id. kept i.docker_id id state p.last_state g)
          | inr g ↦
              let (done, after, cache) = push-Leaves now i state status (remember i p) up in
              rw (e, f, g)
                (
                  done,
                  after,
                  λ id. cache id ∙ shown (i.docker_id == id) (some state) (lookup id p.last_state),
                )
        ]
      ]
    ]

-- A step that succeeds, and one after it.
pub continue-Leaves :
    (r : Result String Unit × Poll) (f : Polled) (cache cache' : String → Option String)
    → Leaves r cache
    → (IsUp r.1.agent → Leaves (f r.1) cache')
    → Leaves (continue r.0 (λ _. f) r.1) cache'
continue-Leaves (ok done, p) f cache cache' (e, up, at) next = next up
continue-Leaves (err why, p) f cache cache' (e, up, at) next = absurd (ground (arith, e))

-- The cache that a step leaves, told in another way.
pub as_cache :
    (r : Result String Unit × Poll) (cache cache' : String → Option String)
    → Leaves r cache
    → ((id : String) → cache id ≡ cache' id)
    → Leaves r cache'
as_cache r cache cache' (e, up, at) same = (e, up, λ id. at id ∙ same id)

pub observe_all-Leaves :
    (now : ℕ) (infos : List ContainerInfo) (p : Poll)
    → IsUp p.agent
    → Leaves (observe_all now infos p) (λ id. listed id infos (lookup id p.last_state))
unfolding observe_all listed
observe_all-Leaves now [] p up = (refl, up, λ id. refl)
observe_all-Leaves now (i ∷ is) p up =
    let here = observe-Leaves now i p up in
    let next = (observe now i p).1 in
    continue-Leaves (observe now i p) (observe_all now is)
      (λ id. if shows id i then some (state_of i) else lookup id p.last_state)
      (λ id. listed id is (if shows id i then some (state_of i) else lookup id p.last_state)) here
      (λ up'.
        as_cache (observe_all now is next) (λ id. listed id is (lookup id next.last_state))
          (λ id. listed id is (if shows id i then some (state_of i) else lookup id p.last_state))
          (observe_all-Leaves now is next up') (λ id. ap (listed id is) (here.2 id)))
