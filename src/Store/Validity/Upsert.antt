-- ===== src/Store/Validity/Upsert.antt =====
-- The upsert of a node keeps the constraints, the unique index on machine_id among them.
use pumpkin_pie.Prelude.{
  ◌≡◌, refl, ◌∙◌, true, false, not, ◌&&◌, String, ◌==◌, List, [], ◌∷◌, change, any, arith, eq_iff,
  ◌⊎◌, inl, inr, Bool-cases, text-cases,
}
use pumpkin_pie.Prelude.Rows.{
  Distinct, any-change, any-change_none, change_none, All-mono, Distinct-change,
}
use pumpkin_pie.Store.Tables.{Node, Tables}
use pumpkin_pie.Store.Statements.{
  has_node, has_container, new_row, refresh_row, machine_clash, upsert_row,
}
use pumpkin_pie.Store.Sql.Keeps.{Preserves, After}
use pumpkin_pie.Store.Validity.{IsValid, same_node, same_machine}

-- No row of another node has the machine of `n`.
abbrev IsFreeFor : Node → List Node → Type 0
IsFreeFor n ns =
    (not (n.machine_id == "") && any (λ m. m.machine_id == n.machine_id && not (m.id == n.id)) ns)
    ≡ false

-- With no row of its id and no clash, no row has the machine of `n`.
machine_is_new :
    (n : Node) (ns : List Node)
    → any (λ m. m.id == n.id) ns ≡ false
    → IsFreeFor n ns
    → any (same_machine n) ns ≡ false
unfolding any
machine_is_new n [] e h = refl
machine_is_new n (m ∷ ns) e h = ground (
  arith,
  machine_is_new n ns,
  eq_iff m.machine_id n.machine_id,
  eq_iff m.machine_id "",
  eq_iff n.machine_id "",
)

tail-IsFreeFor : (n m : Node) (ns : List Node) → IsFreeFor n (m ∷ ns) → IsFreeFor n ns
unfolding any
tail-IsFreeFor n m ns h = ground arith

-- A row of another node does not have the machine that `n` brings.
head-ne-machine :
    (n m : Node) (ns : List Node)
    → IsFreeFor n (m ∷ ns)
    → (m.id == n.id) ≡ false
    → (y : Node) → same_machine m (refresh_row n y) ≡ false
unfolding any refresh_row
head-ne-machine n m ns h e y =
    ground (arith, eq_iff m.machine_id n.machine_id, eq_iff n.machine_id m.machine_id)

refreshed-machines :
    (n : Node) (ns : List Node)
    → Distinct same_node ns
    → Distinct same_machine ns
    → IsFreeFor n ns
    → Distinct same_machine (change (λ m. m.id == n.id) (refresh_row n) ns)
unfolding change refresh_row
refreshed-machines n [] d ms h = tt
refreshed-machines n (m ∷ ns) d ms h = elim (text-cases m.id n.id) [
  | inl e ↦
      let none_left : any (λ x. x.id == n.id) ns ≡ false = rw e at d.0 in
      rw ((eq_iff m.id n.id).1 e, change_none _ (refresh_row n) ns none_left)
        (machine_is_new n ns none_left (tail-IsFreeFor n m ns h), ms.1)
  | inr e ↦ rw e (
    any-change_none (same_machine m) _ (refresh_row n) ns (head-ne-machine n m ns h e) ms.0,
    refreshed-machines n ns d.1 ms.1 (tail-IsFreeFor n m ns h),
  )
]

upsert_new-IsValid :
    (n : Node) (t : Tables)
    → IsValid t
    → machine_clash n t ≡ false
    → has_node n.id t ≡ false
    → IsValid (record t { nodes = new_row n ∷ t.nodes })
unfolding machine_clash has_node has_container new_row any
upsert_new-IsValid n t v free new = record {
  node_ids = (new, v.node_ids);
  machines = (machine_is_new n t.nodes new free, v.machines);
  container_ids = v.container_ids;
  slots = v.slots;
  ports = v.ports;
  placed = All-mono _ _ t.containers (λ c h. ground arith) v.placed;
  held = All-mono _ _ t.gpu_alloc (λ r h. (h.0, ground arith)) v.held;
}

upsert_old-IsValid :
    (n : Node) (t : Tables)
    → IsValid t
    → machine_clash n t ≡ false
    → IsValid (record t { nodes = change (λ m. m.id == n.id) (refresh_row n) t.nodes })
unfolding machine_clash has_node has_container refresh_row
upsert_old-IsValid n t v free = record {
  node_ids = Distinct-change same_node _ _ t.nodes (λ x y. refl) (λ x y. refl) v.node_ids;
  machines = refreshed-machines n t.nodes v.node_ids v.machines free;
  container_ids = v.container_ids;
  slots = v.slots;
  ports = v.ports;
  placed = All-mono _ _ t.containers (λ c h. there c.node_id ∙ h) v.placed;
  held = All-mono _ _ t.gpu_alloc (λ r h. (h.0, there r.node_id ∙ h.1)) v.held;
}
  where
    there :
        (id : String)
        → any (λ m. m.id == id) (change (λ m. m.id == n.id) (refresh_row n) t.nodes)
          ≡ any (λ m. m.id == id) t.nodes
    there id = any-change (λ m. m.id == id) _ (refresh_row n) t.nodes (λ m _. refl)

pub upsert_row-IsValid : (n : Node) → Preserves IsValid (upsert_row n)
unfolding upsert_row
upsert_row-IsValid n = record {
  at = λ t v. checked t v (Bool-cases (machine_clash n t)) (Bool-cases (has_node n.id t));
}
  where
    checked :
        (t : Tables)
        → IsValid t
        → (machine_clash n t ≡ true) ⊎ (machine_clash n t ≡ false)
        → (has_node n.id t ≡ true) ⊎ (has_node n.id t ≡ false)
        → After IsValid (upsert_row n t)
    checked t v (inl e) h = rw (e, upsert_row) tt
    checked t v (inr e) (inl h) = rw (e, h, upsert_row) (upsert_old-IsValid n t v e)
    checked t v (inr e) (inr h) = rw (e, h, upsert_row) (upsert_new-IsValid n t v e h)
