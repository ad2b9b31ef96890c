-- ===== src/Store/Ledger/Held.antt =====
-- A reservation lasts until its container gives it up: from the ledger's contracts alone.
use pumpkin_pie.Prelude.{
  ℕ, ◌≡◌, refl, not, ap, ◌∙◌, true, false, String, ◌==◌, some, List, [], ◌∷◌, any, inl, inr,
  Bool-cases, nat_eq, All, arith, eq_iff,
}
use pumpkin_pie.Store.Tables.{Db}
use pumpkin_pie.Store.Calls.{
  Call, upserts_node, updates_node_state, updates_node_metrics, inserts_container,
  updates_container_state, updates_external_port, updates_gpu_indices, deletes_container,
  allocates_port, frees_port, allocates_gpus, allocates_specific_gpus, frees_gpus, run_call,
  run_calls,
}
use pumpkin_pie.Store.Validity.{IsValid}
use pumpkin_pie.Store.Ledger.{
  Ledger, ledger, grant, release, without, AreFree, returned, failed, Effect, Follows, spares,
}
use pumpkin_pie.Store.Ledger.Refined.{run_calls-Follows}

module _ (holder node : String) (i : ℕ) where
  abbrev Holds : Ledger → Type 0
  Holds l = l node i ≡ some holder

  moved : (l l' : Ledger) → l' ≡ l → Holds l → Holds l'
  moved l l' e h = ap (λ (m : Ledger). m node i) e ∙ h

  not_granted : (is : List ℕ) (l : Ledger) → AreFree node is l → Holds l → any (nat_eq i) is ≡ false
  unfolding any
  not_granted [] l free h = refl
  not_granted (j ∷ is) l free h = elim (Bool-cases (nat_eq i j)) [
    | inl same ↦ let at : i ≡ j = ground arith in absurd (cc (ap (l node) at, free.0, h))
    | inr other ↦ rw (other, not_granted is l free.1 h) refl
  ]

  Holds-grant :
      (n container : String) (is : List ℕ) (l : Ledger)
      → AreFree n is l
      → Holds l
      → Holds (grant n container is l)
  unfolding grant
  Holds-grant n container is l free h = ground (arith, not_granted is l, eq_iff node n)

  Holds-release :
      (container : String) (l : Ledger)
      → not (container == holder) ≡ true
      → Holds l
      → Holds (release container l)
  unfolding release without
  Holds-release container l other h =
      rw h (ground (arith, eq_iff holder container, eq_iff container holder))

  -- One call.
  Holds-Effect :
      (c : Call) (db : Db) (l l' : Ledger)
      → Effect c db l l'
      → spares holder c ≡ true
      → Holds l
      → Holds l'
  unfolding spares
  Holds-Effect (allocates_gpus now n container count total) db l l' (returned got r d) s h =
      moved _ l' d.2 (Holds-grant n container got l d.1 h)
  Holds-Effect (allocates_gpus now n container count total) db l l' (failed e r u) s h =
      moved l l' u h
  Holds-Effect (allocates_specific_gpus now n container is) db l l' (returned a r d) s h =
      moved _ l' d.1 (Holds-grant n container is l d.0 h)
  Holds-Effect (allocates_specific_gpus now n container is) db l l' (failed e r u) s h =
      moved l l' u h
  Holds-Effect (frees_gpus container) db l l' (returned a r d) s h =
      moved _ l' d (Holds-release container l s h)
  Holds-Effect (frees_gpus container) db l l' (failed e r u) s h = moved l l' u h
  Holds-Effect (deletes_container container) db l l' (returned a r d) s h =
      moved _ l' d (Holds-release container l s h)
  Holds-Effect (deletes_container container) db l l' (failed e r u) s h = moved l l' u h
  Holds-Effect (upserts_node now n) db l l' e s h = moved l l' e h
  Holds-Effect (updates_node_state now id state) db l l' e s h = moved l l' e h
  Holds-Effect (updates_node_metrics now n) db l l' e s h = moved l l' e h
  Holds-Effect (inserts_container now c) db l l' e s h = moved l l' e h
  Holds-Effect (updates_container_state now id docker_id state status) db l l' e s h =
      moved l l' e h
  Holds-Effect (updates_external_port now id port) db l l' e s h = moved l l' e h
  Holds-Effect (updates_gpu_indices now id json) db l l' e s h = moved l l' e h
  Holds-Effect (allocates_port start end container) db l l' e s h = moved l l' e h
  Holds-Effect (frees_port port) db l l' e s h = moved l l' e h

  Holds-Follows :
      (cs : List Call) (db : Db) (l l' : Ledger)
      → Follows cs db l l'
      → All (λ c. spares holder c ≡ true) cs
      → Holds l
      → Holds l'
  Holds-Follows [] db l l' f s h = moved l l' f h
  Holds-Follows (c ∷ cs) db l l' (next, e, f) s h =
      Holds-Follows cs (run_call c db) next l' f s.1 (Holds-Effect c db l next e s.0 h)

  -- A GPU that a container holds in valid tables is still that container's after any sequence of
  -- calls, whatever the driver fails in them and whatever they allocate for others, if none of
  -- them frees the GPUs of this container or deletes it.
  pub held-run_calls :
      (cs : List Call) (db : Db)
      → IsValid db.tables
      → All (λ c. spares holder c ≡ true) cs
      → ledger db.tables node i ≡ some holder
      → ledger (run_calls cs db).tables node i ≡ some holder
  held-run_calls cs db v s h = Holds-Follows cs db _ _ (run_calls-Follows cs db v) s h
