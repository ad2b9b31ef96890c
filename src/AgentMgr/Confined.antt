-- ===== src/AgentMgr/Confined.antt =====
-- What a lifecycle event can change in the tables, whatever the driver fails of it.
use pumpkin_pie.Prelude.{
  ◌≡◌, refl, sym, subst, ap, ◌∙◌, ◌⊎◌, inl, inr, String, Bool, true, false, not, ◌||◌, ◌==◌, none,
  some, change, keep, eq_iff, Bool-cases, List-cases,
}
use pumpkin_pie.Exec.{Result, ok, err}
use pumpkin_pie.Store.Tables.{Tables, Db, Time, Error}
use pumpkin_pie.Store.Sql.{Statement, exec, query, next_fault, attempt, settle}
use pumpkin_pie.Store.Statements.{has_container}
use pumpkin_pie.Store.Containers.{
  set_state, update_container, update_container_state, container_exists,
}
use pumpkin_pie.Store.Gpus.{free_gpus}
use pumpkin_pie.AgentMgr.Messages.{ContainerStateChanged}
use pumpkin_pie.AgentMgr.State.{Session, Manager, ignoring, publish}
use pumpkin_pie.AgentMgr.Handlers.{
  is_terminal_gpu_action, apply_change, handle_container_state_changed,
}

-- The actions after which a container has no process.
abbrev pub HasEnded : String → Type 0
HasEnded action = (action ≡ "die") ⊎ (action ≡ "stop") ⊎ (action ≡ "kill") ⊎ (action ≡ "destroy")

-- A statement without a result takes effect, or the driver fails it and the tables stay.
exec-tables :
    (statement : Statement Unit) (db : Db) (after : Tables)
    → statement db.tables ≡ ok (tt, after)
    → ((exec statement db).1.tables ≡ db.tables) ⊎ ((exec statement db).1.tables ≡ after)
unfolding exec next_fault attempt settle
exec-tables statement db after e = elim (List-cases db.faults) [
  | inl f ↦ rw (f, e) (inr refl)
  | inr (none, fs, f) ↦ rw (f, e) (inr refl)
  | inr (some why, fs, f) ↦ rw f (inl refl)
]

-- What may differ in the tables after a state change: the one row, set to what was reported, and, only
-- after the end of its process, the GPUs of the container, which are released together.
abbrev pub IsConfined : Time → ContainerStateChanged → Tables → Tables → Type 0
IsConfined now c t t' =
    (t'.nodes ≡ t.nodes)
    × (t'.port_alloc ≡ t.port_alloc)
    × ((t'.containers ≡ t.containers)
        ⊎ ((has_container c.container_id t ≡ true)
            × (t'.containers
                ≡ change (λ k. k.id == c.container_id) (set_state now c.docker_id c.state c.status)
                    t.containers)))
    × ((t'.gpu_alloc ≡ t.gpu_alloc)
        ⊎ (HasEnded c.action
            × (has_container c.container_id t ≡ true)
            × (t'.gpu_alloc ≡ keep (λ r. not (r.container_id == c.container_id)) t.gpu_alloc)))

is_terminal-HasEnded : (action : String) → is_terminal_gpu_action action ≡ true → HasEnded action
unfolding is_terminal_gpu_action
is_terminal-HasEnded action h = elim (Bool-cases (action == "die")) [
  | inl e ↦ inl ((eq_iff action "die").0 e)
  | inr e ↦ elim (Bool-cases (action == "stop")) [
    | inl f ↦ inr (inl ((eq_iff action "stop").0 f))
    | inr f ↦ elim (Bool-cases (action == "kill")) [
      | inl g ↦ inr (inr (inl ((eq_iff action "kill").0 g)))
      | inr g ↦ inr (inr (inr ((eq_iff action "destroy").0 (rw (e, f, g) at h))))
    ]
  ]
]

module _ (now : Time) (s : Session) (c : ContainerStateChanged) (t : Tables) where
  abbrev changed : Tables
  changed = record t {
    containers =
        change (λ k. k.id == c.container_id) (set_state now c.docker_id c.state c.status)
          t.containers;
  }

  abbrev freed : Tables → Tables
  freed u = record u { gpu_alloc = keep (λ r. not (r.container_id == c.container_id)) u.gpu_alloc }

  -- What the update of the row may leave.
  abbrev IsUpdated : Tables → Type 0
  IsUpdated u = (u ≡ t) ⊎ (u ≡ changed)

  updated-IsConfined :
      (u : Tables) → has_container c.container_id t ≡ true → IsUpdated u → IsConfined now c t u
  updated-IsConfined u h (inl e) =
      subst (IsConfined now c t) (sym e) (refl, refl, inl refl, inl refl)
  updated-IsConfined u h (inr e) =
      subst (IsConfined now c t) (sym e) (refl, refl, inr (h, refl), inl refl)

  freed-IsConfined :
      (u : Tables)
      → has_container c.container_id t ≡ true
      → HasEnded c.action
      → IsUpdated u
      → IsConfined now c t (freed u)
  freed-IsConfined u h ended (inl e) =
      subst (λ x. IsConfined now c t (freed x)) (sym e) (refl, refl, inl refl, inr (ended, h, refl))
  freed-IsConfined u h ended (inr e) =
      subst (λ x. IsConfined now c t (freed x)) (sym e)
        (refl, refl, inr (h, refl), inr (ended, h, refl))

  update-IsUpdated :
      (m : Manager)
      → m.db.tables ≡ t
      → IsUpdated
          (ignoring
            (update_container_state now c.container_id c.docker_id c.state c.status)
            m).db.tables
  unfolding ignoring update_container_state update_container
  update-IsUpdated m e = elim (exec-tables _ m.db _ refl) [
    | inl f ↦ inl (f ∙ e)
    | inr f ↦ inr (
        f
        ∙ ap
            (λ (x : Tables). record x {
              containers =
                  change (λ k. k.id == c.container_id) (set_state now c.docker_id c.state c.status)
                    x.containers;
            })
            e)
  ]

  free-IsConfined :
      (m : Manager)
      → has_container c.container_id t ≡ true
      → HasEnded c.action
      → IsUpdated m.db.tables
      → IsConfined now c t (ignoring (free_gpus c.container_id) m).db.tables
  unfolding ignoring free_gpus
  free-IsConfined m h ended u = elim (exec-tables _ m.db _ refl) [
    | inl f ↦ subst (IsConfined now c t) (sym f) (updated-IsConfined m.db.tables h u)
    | inr f ↦ subst (IsConfined now c t) (sym f) (freed-IsConfined m.db.tables h ended u)
  ]

  apply_change-IsConfined :
      (r : Result Error Bool) (m : Manager)
      → m.db.tables ≡ t
      → (r ≡ ok true → has_container c.container_id t ≡ true)
      → IsConfined now c t (apply_change now s c r m).db.tables
  unfolding apply_change publish
  apply_change-IsConfined (err e) m same has =
      subst (IsConfined now c t) (sym same) (refl, refl, inl refl, inl refl)
  apply_change-IsConfined (ok false) m same has =
      subst (IsConfined now c t) (sym same) (refl, refl, inl refl, inl refl)
  apply_change-IsConfined (ok true) m same has =
      let m' =
        ignoring (update_container_state now c.container_id c.docker_id c.state c.status) m in
      let u = update-IsUpdated m same in
      elim (Bool-cases (is_terminal_gpu_action c.action)) [
        | inl e ↦ rw e (free-IsConfined m' (has refl) (is_terminal-HasEnded c.action e) u)
        | inr e ↦ rw e (updated-IsConfined m'.db.tables (has refl) u)
      ]

exists-tables :
    (id : String) (db : Db)
    → ((container_exists id db).1.tables ≡ db.tables)
      × ((container_exists id db).0 ≡ ok true → has_container id db.tables ≡ true)
unfolding container_exists query exec next_fault attempt settle
exists-tables id db = elim (List-cases db.faults) [
  | inl f ↦ rw f (refl, λ h. cc h)
  | inr (none, fs, f) ↦ rw f (refl, λ h. cc h)
  | inr (some why, fs, f) ↦ rw f (refl, λ h. absurd (cc h))
]

-- Whatever the driver fails of it, a state change leaves the nodes and the ports as they are. Of the
-- containers it changes at most the row that it names, to the state and status reported. It releases
-- GPUs only where the container has a row and the action is die, stop, kill or destroy, and then
-- those of this container and no others.
pub handle_container_state_changed-IsConfined :
    (now : Time) (s : Session) (c : ContainerStateChanged) (m : Manager)
    → IsConfined now c m.db.tables (handle_container_state_changed now s c m).db.tables
unfolding handle_container_state_changed
handle_container_state_changed-IsConfined now s c m =
    let (same, has) = exists-tables c.container_id m.db in
    let (r, db) = container_exists c.container_id m.db in
    elim (Bool-cases (c.container_id == "" || c.state == "")) [
      | inl e ↦ rw e (refl, refl, inl refl, inl refl)
      | inr e ↦ rw e (apply_change-IsConfined now s c m.db.tables r (record m { db = db }) same has)
    ]
