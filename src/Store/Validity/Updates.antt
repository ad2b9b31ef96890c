-- ===== src/Store/Validity/Updates.antt =====
-- UPDATE statements that leave the key columns alone keep the constraints.
use pumpkin_pie.Prelude.{◌≡◌, ◌∙◌, Bool, String, ◌==◌, change, any}
use pumpkin_pie.Prelude.Rows.{Distinct-change, any-change, All-mono, All-change}
use pumpkin_pie.Store.Tables.{Node, Container, Tables}
use pumpkin_pie.Store.Statements.{has_node, has_container}
use pumpkin_pie.Store.Validity.{IsValid, same_node, same_machine, same_container}

-- An update of node rows that keeps their ids and machines.
module _ (p : Node → Bool) (f : Node → Node) (ids : (n : Node) → (f n).id ≡ n.id)
    (machines : (n : Node) → (f n).machine_id ≡ n.machine_id) where
  pub change_nodes-IsValid :
      (t : Tables) → IsValid t → IsValid (record t { nodes = change p f t.nodes })
  unfolding has_node has_container
  change_nodes-IsValid t v = record {
    node_ids =
        Distinct-change same_node p f t.nodes (λ x y. rw (ids x)) (λ x y. rw (ids y)) v.node_ids;
    machines =
        Distinct-change same_machine p f t.nodes (λ x y. rw (machines x)) (λ x y. rw (machines y))
          v.machines;
    container_ids = v.container_ids;
    slots = v.slots;
    ports = v.ports;
    placed = All-mono _ _ t.containers (λ c h. there c.node_id ∙ h) v.placed;
    held = All-mono _ _ t.gpu_alloc (λ r h. (h.0, there r.node_id ∙ h.1)) v.held;
  }
    where
      there :
          (id : String) → any (λ n. n.id == id) (change p f t.nodes) ≡ any (λ n. n.id == id) t.nodes
      there id = any-change (λ n. n.id == id) p f t.nodes (λ n _. rw (ids n))

-- An update of container rows that keeps their ids and nodes.
module _ (p : Container → Bool) (f : Container → Container)
    (ids : (c : Container) → (f c).id ≡ c.id)
    (nodes : (c : Container) → (f c).node_id ≡ c.node_id) where
  pub change_containers-IsValid :
      (t : Tables) → IsValid t → IsValid (record t { containers = change p f t.containers })
  unfolding has_node has_container
  change_containers-IsValid t v = record {
    node_ids = v.node_ids;
    machines = v.machines;
    container_ids =
        Distinct-change same_container p f t.containers (λ x y. rw (ids x)) (λ x y. rw (ids y))
          v.container_ids;
    slots = v.slots;
    ports = v.ports;
    placed = All-change _ p f t.containers (λ c h. rw (nodes c) h) v.placed;
    held = All-mono _ _ t.gpu_alloc (λ r h. (there r.container_id ∙ h.0, h.1)) v.held;
  }
    where
      there :
          (id : String)
          → any (λ c. c.id == id) (change p f t.containers) ≡ any (λ c. c.id == id) t.containers
      there id = any-change (λ c. c.id == id) p f t.containers (λ c _. rw (ids c))
