-- ===== src/AgentMgr/Reverting.antt =====
-- What the end of a stream leaves behind.
use pumpkin_pie.Prelude.{
  ◌≡◌, refl, ◌∙◌, String, true, false, Bool, not, ◌&&◌, ◌<>◌, ◌==◌, List, [], ◌∷◌, All, any,
  any-sort_desc, sym, change, sort_desc, if◌then◌else◌, Bool-cases, inl, inr, arith, eq_iff,
  eq_refl, text-cases,
}
use pumpkin_pie.Prelude.Rows.{All-every, All-both, All-keep_test, All-mono}
use pumpkin_pie.Store.Tables.{Container, GpuRow, Tables, Time, calm}
use pumpkin_pie.Store.Containers.{set_state, list_containers}
use pumpkin_pie.Store.Nodes.{update_node_state}
use pumpkin_pie.AgentMgr.State.{Manager, ignoring, publish, get, close_found, drop_session}
use pumpkin_pie.AgentMgr.Disconnect.{
  is_transient, revert_one, revert_all, revert_listed, revert_transient_on_disconnect,
  handle_disconnect,
}
use pumpkin_pie.AgentMgr.Soundness.{close_found-db}
use pumpkin_pie.AgentMgr.Lifecycle.{stated, released}

-- The tables after a container was looked at, and after all were.
unfoldable pub reverted : Time → String → String → Container → Tables → Tables
unfolding stated released
reverted now node status c t =
    if is_transient node c then released c.id (stated now c.id c.docker_id "error" status t) else t

unfoldable pub all_reverted : Time → String → String → List Container → Tables → Tables
unfolding reverted
all_reverted now node status [] t = t
all_reverted now node status (c ∷ cs) t =
    all_reverted now node status cs (reverted now node status c t)

revert_one-tables :
    (now : Time) (node status : String) (c : Container) (m : Manager) (t : Tables)
    → m.db ≡ calm t
    → (revert_one now node status c m).db ≡ calm (reverted now node status c t)
unfolding revert_one reverted
revert_one-tables now node status c m t e = elim (Bool-cases (is_transient node c)) [
  | inl f ↦ rw (f, e) refl
  | inr f ↦ rw (f, e) refl
]

revert_all-tables :
    (now : Time) (node status : String) (cs : List Container) (m : Manager) (t : Tables)
    → m.db ≡ calm t
    → (revert_all now node status cs m).db ≡ calm (all_reverted now node status cs t)
unfolding revert_all all_reverted
revert_all-tables now node status [] m t e = e
revert_all-tables now node status (c ∷ cs) m t e =
    revert_all-tables now node status cs (revert_one now node status c m) _
      (revert_one-tables now node status c m t e)

-- Among these containers a transient one has the id.
abbrev pub listed : String → String → List Container → Bool
listed node id cs = any (λ d. d.id == id && is_transient node d) cs

-- Every transient row is still to come.
abbrev Pending : String → List Container → List Container → Type 0
Pending node cs rows = All (λ c. is_transient node c ≡ true → listed node c.id cs ≡ true) rows

Pending-step :
    (now : Time) (node status : String) (d : Container) (cs rows : List Container)
    → is_transient node d ≡ true
    → Pending node (d ∷ cs) rows
    → Pending node cs (change (λ c. c.id == d.id) (set_state now d.docker_id "error" status) rows)
unfolding change set_state is_transient any
Pending-step now node status d cs [] f p = tt
Pending-step now node status d cs (c ∷ rows) f p =
    let rest = Pending-step now node status d cs rows f p.1 in
    elim (text-cases c.id d.id) [
      | inl same ↦ rw (same, eq_refl d.id) ((λ h. absurd (ground (arith, h))), rest)
      | inr other ↦
          rw other ((λ h. ground (arith, p.0 h, eq_iff d.id c.id, eq_iff c.id d.id)), rest)
    ]

Pending-skip :
    (node : String) (d : Container) (cs rows : List Container)
    → is_transient node d ≡ false
    → Pending node (d ∷ cs) rows
    → Pending node cs rows
unfolding any
Pending-skip node d cs rows f p = All-mono _ _ rows (λ c k h. ground (arith, f, k h)) p

-- In the end no row of the node is in a transient state.
all_reverted-settled :
    (now : Time) (node status : String) (cs : List Container) (t : Tables)
    → Pending node cs t.containers
    → All (λ c. is_transient node c ≡ false) (all_reverted now node status cs t).containers
unfolding all_reverted reverted any
all_reverted-settled now node status [] t p =
    All-mono _ _ t.containers
      (λ c k. elim (Bool-cases (is_transient node c)) [ inl e ↦ absurd (cc (k e)) | inr e ↦ e ]) p
all_reverted-settled now node status (d ∷ cs) t p = elim (Bool-cases (is_transient node d)) [
  | inl f ↦
      rw (f, all_reverted)
        (all_reverted-settled now node status cs
          (released d.id (stated now d.id d.docker_id "error" status t))
          (Pending-step now node status d cs t.containers f p))
  | inr f ↦
      rw (f, all_reverted)
        (all_reverted-settled now node status cs t (Pending-skip node d cs t.containers f p))
]

-- What was said of the rows of `gpu_alloc` stays said of those that are left.
all_reverted-All :
    (P : GpuRow → Type 0) (now : Time) (node status : String) (cs : List Container) (t : Tables)
    → All P t.gpu_alloc
    → All P (all_reverted now node status cs t).gpu_alloc
unfolding all_reverted reverted
all_reverted-All P now node status [] t h = h
all_reverted-All P now node status (d ∷ cs) t h = elim (Bool-cases (is_transient node d)) [
  | inl f ↦
      rw (f, all_reverted)
        (all_reverted-All P now node status cs
          (released d.id (stated now d.id d.docker_id "error" status t))
          (All-keep_test P P _ t.gpu_alloc (λ r _ k. k) h))
  | inr f ↦ rw (f, all_reverted) (all_reverted-All P now node status cs t h)
]

-- No GPU is left with a container that was listed in a transient state.
all_reverted-freed :
    (now : Time) (node status : String) (cs : List Container) (t : Tables)
    → All (λ r. listed node r.container_id cs ≡ false) (all_reverted now node status cs t).gpu_alloc
unfolding any all_reverted reverted stated released
all_reverted-freed now node status [] t = All-every _ t.gpu_alloc (λ r. refl)
all_reverted-freed now node status (d ∷ cs) t = elim (Bool-cases (is_transient node d)) [
  | inl f ↦
      let t' = released d.id (stated now d.id d.docker_id "error" status t) in
      rw (f, all_reverted)
        (All-both (λ r. (r.container_id == d.id) ≡ false) _ _ _
          (λ r k l. ground (arith, k, l, eq_iff d.id r.container_id, eq_iff r.container_id d.id))
          (all_reverted-All (λ r. (r.container_id == d.id) ≡ false) now node status cs t'
            (All-keep_test (λ r. Unit {0}) _ (λ r. not (r.container_id == d.id)) t.gpu_alloc
              (λ r k _. ground (arith, k)) (All-every _ t.gpu_alloc (λ r. tt))))
          (all_reverted-freed now node status cs t'))
  | inr f ↦
      rw (f, all_reverted)
        (All-mono _ _ (all_reverted now node status cs t).gpu_alloc (λ r k. ground (arith, k))
          (all_reverted-freed now node status cs t))
]

Pending-all : (node : String) (rows : List Container) → Pending node rows rows
unfolding any
Pending-all node [] = tt
Pending-all node (c ∷ rows) = (
  (λ h. ground (arith, h, eq_refl c.id)),
  All-mono _ _ rows (λ x k h. ground (arith, k h)) (Pending-all node rows),
)

revert_transient-tables :
    (now : Time) (node reason : String) (m : Manager) (t : Tables)
    → m.db ≡ calm t
    → (revert_transient_on_disconnect now node reason m).db
      ≡ calm (
          all_reverted now node
            ("agent disconnected: " <> reason)
            (sort_desc (λ c. c.created_at) t.containers)
            t)
unfolding revert_transient_on_disconnect list_containers revert_listed
revert_transient-tables now node reason m t e = rw e (
    revert_all-tables now node ("agent disconnected: " <> reason)
      (sort_desc (λ c. c.created_at) t.containers) (record m { db = calm t }) t refl)

abbrev offline : Time → String → Tables → Tables
offline now node t = record t {
  nodes =
      change (λ n. n.id == node) (λ n. record n { state = "offline"; last_heartbeat = now })
        t.nodes;
}

offline-tables :
    (now : Time) (node : String) (m : Manager) (t : Tables)
    → m.db ≡ calm t
    → (ignoring (update_node_state now node "offline") m).db ≡ calm (offline now node t)
unfolding ignoring update_node_state
offline-tables now node m t e = rw e refl

handle_disconnect-tables :
    (now : Time) (node why : String) (m : Manager) (t : Tables)
    → (handle_disconnect now node why (record m { db = calm t })).db
      ≡ calm (
          all_reverted now node
            ("agent disconnected: " <> why)
            (sort_desc (λ c. c.created_at) t.containers)
            (offline now node t))
unfolding handle_disconnect publish drop_session
handle_disconnect-tables now node why m t =
    let before = drop_session node (record m { db = calm t }) in
    let found = get node (record m { db = calm t }) in
    revert_transient-tables now node why _ (offline now node t)
      (offline-tables now node (close_found found before) t (close_found-db found before))

-- After a disconnect where the driver fails nothing, no container of the node is starting or
-- stopping, and no GPU is reserved for a container that was.
pub handle_disconnect-settled :
    (now : Time) (node why : String) (m : Manager) (t : Tables)
    → All
        (λ c. is_transient node c ≡ false)
        (handle_disconnect now node why (record m { db = calm t })).db.tables.containers
      × All
          (λ r. listed node r.container_id t.containers ≡ false)
          (handle_disconnect now node why (record m { db = calm t })).db.tables.gpu_alloc
unfolding handle_disconnect
handle_disconnect-settled now node why m t = rw (handle_disconnect-tables now node why m t) (
    let cs = sort_desc (λ c. c.created_at) t.containers in
    (
      all_reverted-settled now node _ cs (offline now node t) (
          All-mono _ _ t.containers
            (λ c k h. any-sort_desc _ (λ c. c.created_at) t.containers ∙ k h)
            (Pending-all node t.containers)),
      All-mono _ _ _ (λ r k. sym (any-sort_desc _ (λ c. c.created_at) t.containers) ∙ k)
          (all_reverted-freed now node _ cs (offline now node t)),
    ))
