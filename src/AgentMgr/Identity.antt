-- ===== src/AgentMgr/Identity.antt =====
-- A machine keeps its node id: what resolveNodeID answers where the driver fails nothing.
use pumpkin_pie.Prelude.{
  ◌≡◌, refl, sym, subst, ◌∙◌, String, true, false, not, ◌&&◌, ◌==◌, some, List, [], ◌∷◌, any, find,
  change, arith, eq_iff, eq_refl, inl, inr, text-cases,
}
use pumpkin_pie.Prelude.Rows.{Distinct, find-head, find-tail, any_weaken, any-at_found, any_of_find}
use pumpkin_pie.Exec.{Result, ok, pure, ◌>>=◌}
use pumpkin_pie.Store.Tables.{Node, Tables, Time, calm}
use pumpkin_pie.Store.Sql.{exec, query}
use pumpkin_pie.Store.Statements.{has_node, machine_clash, refresh_row, upsert_row}
use pumpkin_pie.Store.Nodes.{
  registered, upsert_node, or_no_rows, node_by_machine, get_node_by_machine_id,
}
use pumpkin_pie.Store.Validity.{IsValid, same_machine}
use pumpkin_pie.AgentMgr.Messages.{RegisterRequest}
use pumpkin_pie.AgentMgr.State.{Manager, on_store, or_fail}
use pumpkin_pie.AgentMgr.Register.{refreshed, save_node, register_found, resolve_node_id}

-- Where machine ids are distinct, only the row found has the machine, so no other clashes with it.
found_unique :
    (machine : String) (ns : List Node) (n : Node)
    → (machine == "") ≡ false
    → Distinct same_machine ns
    → find (λ k. k.machine_id == machine) ns ≡ some n
    → any (λ k. k.machine_id == machine && not (k.id == n.id)) ns ≡ false
unfolding find any
found_unique machine [] n e d h = refl
found_unique machine (k ∷ ks) n e d h = elim (text-cases k.machine_id machine) [
  | inl same ↦
      let found : some k ≡ some n =
        sym (
          find-head (λ k. k.machine_id == machine) k ks
            (ground (arith, eq_iff k.machine_id machine)))
        ∙ h in
      first same (cc found)
  | inr other ↦ ground (
    arith,
    found_unique machine ks n e d.1 (sym (find-tail (λ k. k.machine_id == machine) k ks other) ∙ h),
  )
]
  where
    first :
        k.machine_id ≡ machine
        → k ≡ n
        → any (λ k. k.machine_id == machine && not (k.id == n.id)) (k ∷ ks) ≡ false
    first same here =
        subst (λ r. any (λ x. x.machine_id == machine && not (x.id == r.id)) (k ∷ ks) ≡ false) here
          (ground (
            arith,
            eq_refl k.id,
            any_weaken (λ x. x.machine_id == machine && not (x.id == k.id)) (same_machine k) ks
                (λ x b. ground (
                  arith,
                  b,
                  e,
                  same,
                  eq_iff x.machine_id machine,
                  eq_iff x.machine_id "",
                  eq_iff machine "",
                  eq_iff x.machine_id k.machine_id,
                ))
                d.0,
          ))

calm_upsert :
    (now : Time) (n : Node) (t : Tables)
    → machine_clash n t ≡ false
    → has_node n.id t ≡ true
    → upsert_node now n (calm t)
      ≡ (ok tt, calm (record t { nodes = change (λ k. k.id == n.id) (refresh_row n) t.nodes }))
unfolding upsert_node upsert_row registered machine_clash has_node refresh_row
calm_upsert now n t c e = rw (c, e) refl

calm_lookup :
    (machine : String) (t : Tables) (n : Node)
    → (machine == "") ≡ false
    → node_by_machine machine t ≡ some n
    → get_node_by_machine_id machine (calm t) ≡ (ok n, calm t)
unfolding get_node_by_machine_id ◌>>=◌ or_no_rows query exec
calm_lookup machine t n e h = rw (e, h) refl

calm_save :
    (now : Time) (n : Node) (m : Manager) (t : Tables)
    → machine_clash n t ≡ false
    → has_node n.id t ≡ true
    → save_node now n (record m { db = calm t }) ≡ (
      ok n.id,
      record m {
        db = calm (record t { nodes = change (λ k. k.id == n.id) (refresh_row n) t.nodes });
      },
    )
unfolding save_node on_store or_fail pure
calm_save now n m t c e = rw (calm_upsert now n t c e) refl

refreshed-no_clash :
    (now : Time) (reg : RegisterRequest) (t : Tables) (n : Node)
    → IsValid t
    → (reg.machine_id == "") ≡ false
    → node_by_machine reg.machine_id t ≡ some n
    → machine_clash (refreshed now reg n) t ≡ false
unfolding machine_clash node_by_machine refreshed
refreshed-no_clash now reg t n v e h =
    let same : n.machine_id ≡ reg.machine_id =
      (eq_iff n.machine_id reg.machine_id).0
        (any_of_find (λ k. k.machine_id == reg.machine_id) t.nodes n h).1 in
    rw (same, found_unique reg.machine_id t.nodes n e v.machines h, e) refl

-- Where the driver fails nothing and the tables meet their constraints, an agent that registers from a
-- machine that has a row gets that row's id, whatever name or host it registers with; the row is
-- refreshed, and no row is added.
pub resolve_node_id-known :
    (now : Time) (reg : RegisterRequest) (random : Result String String) (m : Manager) (t : Tables)
    (n : Node)
    → IsValid t
    → (reg.machine_id == "") ≡ false
    → node_by_machine reg.machine_id t ≡ some n
    → resolve_node_id now reg random (record m { db = calm t }) ≡ (
      ok n.id,
      record m {
        db = calm (record t {
          nodes = change (λ k. k.id == n.id) (refresh_row (refreshed now reg n)) t.nodes;
        });
      },
    )
unfolding resolve_node_id on_store register_found refreshed node_by_machine has_node
resolve_node_id-known now reg random m t n v e h =
    rw (e, calm_lookup reg.machine_id t n e h)
      (calm_save now (refreshed now reg n) m t (refreshed-no_clash now reg t n v e h) (
        any-at_found (λ k. k.machine_id == reg.machine_id) (λ k. k.id == n.id) t.nodes n h
          (eq_refl n.id)))
