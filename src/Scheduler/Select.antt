-- ===== src/Scheduler/Select.antt =====
-- Select of internal/master/scheduler/scheduler.go on the store, and the allocation of GPUs
-- (internal/master/store/store.go) that follows it.
use mathlib.Core.List.{Memᴰ}
use pumpkin_pie.Prelude.{
  ℕ, zero, suc, ◌+◌, ◌≤◌, ◌<◌, ◌≡◌, refl, sym, ap, subst, ◌∙◌, inl, inr, Bool, true, false, not,
  ◌||◌, String, ◌==◌, List, [], ◌∷◌, nat_eq, arith, All, Bool-cases, any, keep, upto, length,
  sort_desc, take,
}
use pumpkin_pie.Exec.{Result, ok, err, Exec, with_error, map_err, ◌>>=◌}
use pumpkin_pie.Exec.Inversion.{>>=-ok}
use pumpkin_pie.Store.Tables.{Node, GpuRow, Tables, Db, calm, Time}
use pumpkin_pie.Store.Sql.Inversion.{query-ok}
use pumpkin_pie.Store.Statements.{is_slot, has_node, has_container}
use pumpkin_pie.Store.Nodes.{list_nodes}
use pumpkin_pie.Store.Gpus.{gpu_usage, gpu_usage_by_node, alloc_gpus}
use pumpkin_pie.Store.Gpus.Choice.{free_indices, keep-ext}
use pumpkin_pie.Store.Gpus.Booking.{booked}
use pumpkin_pie.Store.Gpus.Totality.{length-take_of_le, alloc_gpus-calm}
use pumpkin_pie.Float.{FloatOps, IsStrict}
use pumpkin_pie.Scheduler.{ResourceRequest, SelectError, store_error, choose_node, select, score}
use pumpkin_pie.Scheduler.Rounds.{Fits}
use pumpkin_pie.Scheduler.Best.{choose_node-best}

with_error-ok {ℓ} :
    {S E E' A : Type ℓ} (f : E → E') (m : Exec S E A) (s : S) (a : A)
    → (with_error f m s).0 ≡ ok a
    → ((m s).0 ≡ ok a) × ((with_error f m s).1 ≡ (m s).1)
unfolding with_error
with_error-ok {S = S} {E = E} {A = A} f m s a h = mapped (m s).0 (m s).1 h
  where
    mapped :
        (r : Result E A) (t : S)
        → (map_err f (r, t)).0 ≡ ok a
        → (r ≡ ok a) × ((map_err f (r, t)).1 ≡ t)
    mapped (ok b) t h = (cc h, refl)
    mapped (err e) t h = absurd (cc h)

module _ (ops : FloatOps) (strict : IsStrict ops) (req : ResourceRequest) where
  -- Select returns a node that ListNodes lists and that fits the request under the reservations in
  -- the tables, such that no listed node that fits has a lower score; it changes no table.
  pub select-best :
      (db : Db) (n : Node)
      → (select ops req db).0 ≡ ok n
      → let listed = sort_desc (λ (m : Node). m.registered_at) db.tables.nodes in
        let used = gpu_usage db.tables in
        Memᴰ n listed
        × Fits ops req used n
        × All (λ m. Fits ops req used m → ops.lt (score ops m) (score ops n) ≡ false) listed
        × ((select ops req db).1.tables ≡ db.tables)
  unfolding select list_nodes gpu_usage_by_node
  select-best db n h =
      let nodes_read = with_error store_error list_nodes in
      let usage_read = with_error store_error gpu_usage_by_node in
      let decide : List Node → (String → ℕ) → Exec Db SelectError Node =
        λ nodes used d. (choose_node ops req used nodes, d) in
      let (nodes, got, e) = >>=-ok nodes_read (λ nodes. usage_read >>= decide nodes) db n h in
      let db1 = (nodes_read db).1 in
      let h1 : ((usage_read >>= decide nodes) db1).0 ≡ ok n =
        sym (ap (λ (p : Result SelectError Node × Db). p.0) e) ∙ h in
      let (used, got', e') = >>=-ok usage_read (decide nodes) db1 n h1 in
      let (read, same) = with_error-ok store_error list_nodes db nodes got in
      let (read', same') = with_error-ok store_error gpu_usage_by_node db1 used got' in
      let (listed, kept) = query-ok _ db nodes read in
      let (counted, kept') = query-ok _ db1 used read' in
      let before : db1.tables ≡ db.tables = ap (λ (d : Db). d.tables) same ∙ kept in
      let picked : choose_node ops req used nodes ≡ ok n =
        sym (ap (λ (p : Result SelectError Node × Db). p.0) e') ∙ h1 in
      let usage : gpu_usage db.tables ≡ used = ap gpu_usage (sym before) ∙ counted in
      let best = choose_node-best ops req used strict nodes n picked in
      let lower : (String → ℕ) → Node → Type 0 =
        λ u m. Fits ops req u m → ops.lt (score ops m) (score ops n) ≡ false in
      (
        subst (Memᴰ n) (sym listed) best.0,
        subst (λ u. Fits ops req u n) (sym usage) best.1,
        subst (All (lower (gpu_usage db.tables))) (sym listed)
            (subst (λ u. All (lower u) nodes) (sym usage) best.2),
        ap (λ (p : Result SelectError Node × Db). p.1.tables) (e ∙ e')
            ∙ ap (λ (d : Db). d.tables) same'
            ∙ kept'
            ∙ before,
      )

-- One more number to avoid costs at most one number of a range.
keep_above :
    (p : ℕ → Bool) (k i n : ℕ)
    → k < i
    → keep (λ j. not (nat_eq k j || not (p j))) (upto i n) ≡ keep p (upto i n)
unfolding keep upto
keep_above p k i zero h = refl
keep_above p k i (suc n) h = ground (arith, keep_above p k (i + 1) n (omega arith))

keep_above-length :
    (p : ℕ → Bool) (k i n : ℕ)
    → k < i
    → length (keep (λ j. not (nat_eq k j || not (p j))) (upto i n)) ≡ length (keep p (upto i n))
keep_above-length p k i n h = ap length (keep_above p k i n h)

keep-cost :
    (p : ℕ → Bool) (k i n : ℕ)
    → length (keep p (upto i n))
      ≤ suc (length (keep (λ j. not (nat_eq k j || not (p j))) (upto i n)))
unfolding keep upto
keep-cost p k i zero = omega arith
keep-cost p k i (suc n) = ground (arith, keep-cost p k (i + 1) n, keep_above-length p k (i + 1) n)

length-upto :
    (node : String) (i n : ℕ) → length (keep (λ j. not (any (is_slot node j) [])) (upto i n)) ≡ n
unfolding any keep upto
length-upto node i zero = refl
length-upto node i (suc n) = omega (arith, length-upto node (i + 1) n)

-- One more reservation leaves at most one index fewer.
free_indices-cons :
    (node : String) (total : ℕ) (r : GpuRow) (rows : List GpuRow)
    → (r.node_id == node) ≡ true
    → length (keep (λ i. not (any (is_slot node i) rows)) (upto 0 total))
      ≤ suc (length (keep (λ i. not (any (is_slot node i) (r ∷ rows))) (upto 0 total)))
unfolding any is_slot
free_indices-cons node total r rows e =
    let p : ℕ → Bool = λ i. not (any (is_slot node i) rows) in
    let same =
      keep-ext (λ i. not (any (is_slot node i) (r ∷ rows)))
        (λ i. not (nat_eq r.gpu_index i || not (p i))) (upto 0 total) (λ i. ground arith) in
    omega (arith, keep-cost p r.gpu_index 0 total, ap length same)

free_indices-other :
    (node : String) (total : ℕ) (r : GpuRow) (rows : List GpuRow)
    → (r.node_id == node) ≡ false
    → keep (λ i. not (any (is_slot node i) (r ∷ rows))) (upto 0 total)
      ≡ keep (λ i. not (any (is_slot node i) rows)) (upto 0 total)
unfolding any is_slot
free_indices-other node total r rows e = keep-ext _ _ (upto 0 total) (λ i. ground arith)

-- The free indices of a node and its reservations are together at least its GPUs.
free_indices-usage :
    (node : String) (total : ℕ) (rows : List GpuRow)
    → total
      ≤ length (keep (λ i. not (any (is_slot node i) rows)) (upto 0 total))
        + length (keep (λ r. r.node_id == node) rows)
unfolding keep
free_indices-usage node total [] = omega (arith, length-upto node 0 total)
free_indices-usage node total (r ∷ rows) = elim (Bool-cases (r.node_id == node)) [
  | inl e ↦
      rw e
        (omega (arith, free_indices-usage node total rows, free_indices-cons node total r rows e))
  | inr e ↦ rw e (rw (free_indices-other node total r rows e) (free_indices-usage node total rows))
]

-- A node that fits a request for GPUs, under the reservations in the tables, is one where AllocGPUs
-- grants the request at once: it returns the lowest free indices, where the driver fails nothing
-- and the container and the node are in the tables.
pub alloc_gpus-Fits :
    (ops : FloatOps) (req : ResourceRequest) (now : Time) (container : String) (k : ℕ) (n : Node)
    (t : Tables)
    → req.gpu_count ≡ suc k
    → Fits ops req (gpu_usage t) n
    → has_container container t ≡ true
    → has_node n.id t ≡ true
    → let lowest = take (suc k) (free_indices n.id n.gpu_count t) in
      (length lowest ≡ req.gpu_count)
      × (alloc_gpus now n.id container (suc k) n.gpu_count (calm t)
          ≡ (ok lowest, calm (booked now n.id container lowest t)))
unfolding free_indices gpu_usage
alloc_gpus-Fits ops req now container k n t count fits c h =
    let room = free_indices-usage n.id n.gpu_count t.gpu_alloc in
    let gpus = fits.gpus in
    let enough : suc k ≤ length (free_indices n.id n.gpu_count t) = omega arith in
    (
      length-take_of_le (suc k) (free_indices n.id n.gpu_count t) enough ∙ sym count,
      alloc_gpus-calm now n.id container k n.gpu_count t c h enough,
    )
