-- ===== src/Api/Reserved.antt =====
-- The GPUs that createContainer reserves are the container's.
use pumpkin_pie.Prelude.{
  ℕ, zero, suc, ◌≡◌, refl, sym, ap, subst, ◌∙◌, String, true, false, eq_refl, some, List, [], ◌∷◌,
  any, nat_eq, nat_eq_refl, All, Bool-cases, inl, inr, arith,
}
use pumpkin_pie.Exec.{Result, ok, err, pure, ◌>>=◌}
use pumpkin_pie.Exec.Inversion.{>>=-ok}
use pumpkin_pie.Store.Tables.{Node, GpuRow, Tables, Time, Error}
use pumpkin_pie.Store.Sql.{Sql}
use pumpkin_pie.Store.Containers.{update_container, update_container_gpu_indices}
use pumpkin_pie.Store.Gpus.{alloc_gpus, alloc_specific_gpus}
use pumpkin_pie.Store.Gpus.Booking.{booked}
use pumpkin_pie.Store.Gpus.Laws.{alloc_gpus-ok, alloc_specific_gpus-ok}
use pumpkin_pie.Store.Ledger.{Ledger, ledger, owner, grant}
use pumpkin_pie.Store.Ledger.Owners.{owner-book}
use pumpkin_pie.Store.Ledger.Kept.{exec-kept}
use pumpkin_pie.Api.State.{Master, Refusal, refusal, Api, Codec, while_doing, answered, on_store}
use pumpkin_pie.Api.Checks.{CreateContainerReq, is_empty}
use pumpkin_pie.Api.Create.{gpu_refusal, persist_indices, reserve_gpus}

-- The container holds these GPUs of the node.
abbrev pub Holds : String → String → List ℕ → Tables → Type 0
Holds node container is t = All (λ i. ledger t node i ≡ some container) is

granted_at :
    (node container : String) (is : List ℕ) (l : Ledger) (i : ℕ)
    → any (nat_eq i) is ≡ true
    → grant node container is l node i ≡ some container
unfolding grant
granted_at node container is l i h = rw (eq_refl node, h) refl

grant-All :
    (node container : String) (l : Ledger) (js is : List ℕ)
    → ((i : ℕ) → any (nat_eq i) js ≡ true → any (nat_eq i) is ≡ true)
    → All (λ i. grant node container is l node i ≡ some container) js
unfolding any
grant-All node container l [] is h = tt
grant-All node container l (j ∷ js) is h = (
  granted_at node container is l j (h j (rw (nat_eq_refl j) refl)),
  grant-All node container l js is (λ i e. h i (ground (arith, e))),
)

module _ (now : Time) (node container : String) where
  booked-Holds :
      (is : List ℕ) (t : Tables) → Holds node container is (booked now node container is t)
  booked-Holds is t =
      subst (λ (l : Ledger). All (λ i. l node i ≡ some container) is)
        (sym (owner-book now node container is t.gpu_alloc))
        (grant-All node container (ledger t) is is (λ i e. e))

answered-ok :
    {A : Type 0} (refuse : Error → Refusal) (r : Result Error A) (s : Master) (a : A)
    → (answered refuse r s).0 ≡ ok a
    → (r ≡ ok a) × ((answered refuse r s).1 ≡ s)
unfolding answered
answered-ok refuse (ok b) s a h = (cc h, refl)
answered-ok refuse (err e) s a h = absurd (cc h)

on_store-ok :
    {A : Type 0} (refuse : Error → Refusal) (call : Sql A) (s : Master) (a : A)
    → (on_store refuse call s).0 ≡ ok a
    → ((call s.manager.db).0 ≡ ok a)
      × ((on_store refuse call s).1.manager.db ≡ (call s.manager.db).1)
unfolding on_store
on_store-ok refuse call s a h =
    let (r, db) = call s.manager.db in
    let (e, same) =
      answered-ok refuse r (record s { manager = record s.manager { db = db } }) a h in
    (e, ap (λ x. x.manager.db) same)

-- The indices that are persisted are those that were reserved, and no reservation changes.
persist_indices-ok :
    (codec : Codec) (now : Time) (id : String) (is got : List ℕ) (s : Master)
    → (persist_indices codec now id is s).0 ≡ ok got
    → (is ≡ got)
      × ((persist_indices codec now id is s).1.manager.db.tables.gpu_alloc
          ≡ s.manager.db.tables.gpu_alloc)
unfolding persist_indices pure update_container_gpu_indices update_container
persist_indices-ok codec now id [] got s h = (cc h, refl)
persist_indices-ok codec now id (i ∷ is) got s h =
    let call = update_container_gpu_indices now id (codec.indices (i ∷ is)) in
    let refuse : Error → Refusal = λ e. refusal 500 (while_doing "persist gpu indices: " e) in
    let (u, ran, e) = >>=-ok (on_store refuse call) (λ _. pure (i ∷ is)) s got h in
    let (done, db) = on_store-ok refuse call s u ran in
    let same : ◌≡◌ {A = Result Refusal (List ℕ)} (ok (i ∷ is)) (ok got) =
      sym (ap (λ x. x.0) e) ∙ h in
    (
      cc same,
      ap (λ x. x.1.manager.db.tables.gpu_alloc) e
          ∙ ap (λ d. d.tables.gpu_alloc) db
          ∙ exec-kept _ (λ t. refl) s.manager.db,
    )

module _ (codec : Codec) (now : Time) (req : CreateContainerReq) (n : Node) (id : String) where
  -- A reservation, and then the indices in the row.
  persisted-Holds :
      (reserve : Api (List ℕ)) (s : Master) (got : List ℕ)
      → ((is : List ℕ) → (reserve s).0 ≡ ok is → Holds n.id id is (reserve s).1.manager.db.tables)
      → ((reserve >>= persist_indices codec now id) s).0 ≡ ok got
      → Holds n.id id got ((reserve >>= persist_indices codec now id) s).1.manager.db.tables
  persisted-Holds reserve s got holds h =
      let (is, ran, e) = >>=-ok reserve (persist_indices codec now id) s got h in
      let (same, kept) =
        persist_indices-ok codec now id is got (reserve s).1 (sym (ap (λ x. x.0) e) ∙ h) in
      let rows = ap (λ x. x.1.manager.db.tables.gpu_alloc) e ∙ kept in
      let after = ((reserve >>= persist_indices codec now id) s).1 in
      subst (λ (k : List ℕ). Holds n.id id k after.manager.db.tables) same
        (subst (λ (l : Ledger). All (λ i. l n.id i ≡ some id) is)
          (ap (λ (g : List GpuRow). owner g) (sym rows)) (holds is ran))

  any_free-Holds :
      (count : ℕ) (s : Master) (is : List ℕ)
      → nat_eq count 0 ≡ false
      → (on_store gpu_refusal (alloc_gpus now n.id id count n.gpu_count) s).0 ≡ ok is
      → Holds n.id id is
          (on_store gpu_refusal (alloc_gpus now n.id id count n.gpu_count) s).1.manager.db.tables
  any_free-Holds zero s is e h = absurd (cc e)
  any_free-Holds (suc k) s is e h =
      let call = alloc_gpus now n.id id (suc k) n.gpu_count in
      let (ran, db) = on_store-ok gpu_refusal call s is h in
      let (lowest, count, rows) = alloc_gpus-ok now n.id id k n.gpu_count is s.manager.db ran in
      subst (Holds n.id id is) (sym (ap (λ d. d.tables) db ∙ rows))
        (booked-Holds now n.id id is s.manager.db.tables)

  pinned-Holds :
      (pins : List ℕ) (s : Master) (is : List ℕ)
      → ((on_store gpu_refusal (alloc_specific_gpus now n.id id pins) >>= λ _. pure pins) s).0
        ≡ ok is
      → Holds n.id id is
          ((on_store gpu_refusal (alloc_specific_gpus now n.id id pins) >>= λ _. pure pins)
            s).1.manager.db.tables
  unfolding pure
  pinned-Holds pins s is h =
      let call = alloc_specific_gpus now n.id id pins in
      let (u, ran, e) = >>=-ok (on_store gpu_refusal call) (λ _. pure pins) s is h in
      let (done, db) = on_store-ok gpu_refusal call s u ran in
      let (free, rows) = alloc_specific_gpus-ok now n.id id pins s.manager.db done in
      let same : ◌≡◌ {A = Result Refusal (List ℕ)} (ok pins) (ok is) = sym (ap (λ x. x.0) e) ∙ h in
      let pinned : pins ≡ is = cc same in
      let after = ((on_store gpu_refusal call >>= λ _. pure pins) s).1 in
      subst (λ (k : List ℕ). Holds n.id id k after.manager.db.tables) pinned
        (subst (Holds n.id id pins)
          (sym (ap (λ x. x.1.manager.db.tables) e ∙ ap (λ d. d.tables) db ∙ rows))
          (booked-Holds now n.id id pins s.manager.db.tables))

  pub reserve_gpus-Holds :
      (s : Master) (got : List ℕ)
      → (reserve_gpus codec now req n id s).0 ≡ ok got
      → Holds n.id id got (reserve_gpus codec now req n id s).1.manager.db.tables
  unfolding reserve_gpus pure
  reserve_gpus-Holds s got h = elim (Bool-cases (nat_eq req.gpu_count 0)) [
    | inl e ↦
        let same : ◌≡◌ {A = Result Refusal (List ℕ)} (ok []) (ok got) = rw e at h in
        let nothing : [] ≡ got = cc same in
        let after = (reserve_gpus codec now req n id s).1 in
        subst (λ (k : List ℕ). Holds n.id id k after.manager.db.tables) nothing tt
    | inr e ↦ elim (Bool-cases (is_empty req.gpu_indices)) [
      | inl f ↦
          rw (e, f)
            (persisted-Holds
              (on_store gpu_refusal (alloc_gpus now n.id id req.gpu_count n.gpu_count)) s got
              (λ is. any_free-Holds req.gpu_count s is e) (rw (e, f) at h))
      | inr f ↦
          rw (e, f)
            (persisted-Holds
              (on_store gpu_refusal (alloc_specific_gpus now n.id id req.gpu_indices) >>= λ _.
                pure req.gpu_indices)
              s got (λ is. pinned-Holds req.gpu_indices s is) (rw (e, f) at h))
    ]
  ]
