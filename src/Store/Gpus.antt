-- ===== src/Store/Gpus.antt =====
-- internal/master/store/store.go, the section "GPU allocation". `now` is what time.Now returns.
pub mod Choice
pub mod Booking
pub mod Calm
pub mod Laws
pub mod Totality
use pumpkin_pie.Prelude.{
  ℕ, zero, suc, ◌+◌, not, String, ◌==◌, none, some, List, [], ◌∷◌, map, any, find, keep, length,
  ltb, nat_eq, if◌then◌else◌, Bool, ◌||◌, ◌≡◌, refl, ap, ◌∙◌, arith,
}
use pumpkin_pie.Exec.{Result, ok, err, pure, raise, ◌>>=◌, ◌>>◌}
use pumpkin_pie.Store.Tables.{GpuRow, Tables, Time, Error, insufficient_gpus, gpu_taken, Db}
use pumpkin_pie.Store.Sql.{Sql, exec, query, transaction, is_unique_violation}
use pumpkin_pie.Store.Statements.{insert_gpu_row}

-- readUsedIndices: SELECT gpu_index FROM gpu_alloc WHERE node_id=?
unfoldable pub used_indices : String → Tables → List ℕ
used_indices node t = map (λ r. r.gpu_index) (keep (λ r. r.node_id == node) t.gpu_alloc)

-- for i := 0; i < total && len(chosen) < count; i++, from `i` on with `rounds` the rounds left up
-- to `total` and `missing` the indices still to choose.
unfoldable pub choose : List ℕ → ℕ → ℕ → ℕ → List ℕ
choose used i zero missing = []
choose used i (suc rounds) zero = []
choose used i (suc rounds) (suc missing) =
    let skip = choose used (i + 1) rounds (suc missing) in
    let take = i ∷ choose used (i + 1) rounds missing in if any (nat_eq i) used then skip else take

-- What the INSERT loops make of a failed insert.
unfoldable pub taken_or : String → ℕ → Error → Error
unfolding is_unique_violation
taken_or node index e = if is_unique_violation e then gpu_taken index node else e

unfoldable pub map_error :
    {A : Type 0} → (Error → Error) → Result Error A × Db → Result Error A × Db
map_error f (ok a, db) = (ok a, db)
map_error f (err e, db) = (err (f e), db)

unfoldable pub gpu_row : Time → String → String → ℕ → GpuRow
gpu_row now node container index = record {
  node_id = node;
  gpu_index = index;
  container_id = container;
  allocated_at = now;
}

unfoldable pub reserve_one : Time → String → String → ℕ → Sql Unit
unfolding exec insert_gpu_row map_error taken_or gpu_row
reserve_one now node container index db =
    map_error (taken_or node index) (exec (insert_gpu_row (gpu_row now node container index)) db)

-- for _, idx := range chosen
unfoldable pub reserve : Time → String → String → List ℕ → Sql Unit
unfolding reserve_one ◌>>=◌
reserve now node container [] = pure tt
reserve now node container (index ∷ rest) =
    reserve_one now node container index >> reserve now node container rest

-- What follows the choice: too few are an error, and otherwise the inserts.
unfoldable pub reserve_chosen : Time → String → String → ℕ → ℕ → List ℕ → Sql (List ℕ)
unfolding reserve ◌>>=◌
reserve_chosen now node container count total chosen =
    if ltb (length chosen) count
    then raise (insufficient_gpus count (length chosen) total)
    else (reserve now node container chosen >> pure chosen)

unfoldable pub alloc_gpus : Time → String → String → ℕ → ℕ → Sql (List ℕ)
unfolding transaction query used_indices choose reserve_chosen
alloc_gpus now node container zero total = pure []
alloc_gpus now node container (suc n) total = transaction (
    query (used_indices node) >>= λ used.
    reserve_chosen now node container (suc n) total (choose used 0 total (suc n)))

unfoldable pub alloc_specific_gpus : Time → String → String → List ℕ → Sql Unit
unfolding transaction reserve
alloc_specific_gpus now node container [] = pure tt
alloc_specific_gpus now node container (index ∷ rest) =
    transaction (reserve now node container (index ∷ rest))

unfoldable pub free_gpus : String → Sql Unit
unfolding exec
free_gpus container =
    exec λ t.
      ok (tt, record t { gpu_alloc = keep (λ r. not (r.container_id == container)) t.gpu_alloc })

-- ORDER BY, ascending
insert_asc {ℓ} : {A : Type ℓ} → (A → ℕ) → A → List A → List A
insert_asc key x [] = x ∷ []
insert_asc key x (y ∷ ys) =
    let rest = insert_asc key x ys in if ltb (key y) (key x) then y ∷ rest else x ∷ y ∷ ys

unfoldable pub sort_asc {ℓ} : {A : Type ℓ} → (A → ℕ) → List A → List A
unfolding insert_asc
sort_asc key [] = []
sort_asc key (x ∷ xs) = insert_asc key x (sort_asc key xs)

any-insert_asc {ℓ} :
    {A : Type ℓ} (q : A → Bool) (key : A → ℕ) (x : A) (ys : List A)
    → any q (insert_asc key x ys) ≡ q x || any q ys
unfolding insert_asc any
any-insert_asc q key x [] = refl
any-insert_asc q key x (y ∷ ys) = ground (arith, any-insert_asc q key x ys)

pub any-sort_asc {ℓ} :
    {A : Type ℓ} (q : A → Bool) (key : A → ℕ) (xs : List A) → any q (sort_asc key xs) ≡ any q xs
unfolding sort_asc any
any-sort_asc q key [] = refl
any-sort_asc q key (x ∷ xs) =
    any-insert_asc q key x (sort_asc key xs) ∙ ap (λ b. q x || b) (any-sort_asc q key xs)

unfoldable pub indices_of : String → Tables → List ℕ
unfolding sort_asc
indices_of container t =
    sort_asc (λ i. i) (map (λ r. r.gpu_index) (keep (λ r. r.container_id == container) t.gpu_alloc))

unfoldable pub get_container_gpus : String → Sql (List ℕ)
unfolding query indices_of
get_container_gpus container = query (indices_of container)

-- SELECT COUNT(*) … GROUP BY node_id, at one node; a node with no row is missing from the map, and
-- Go reads 0 there.
unfoldable pub gpu_usage : Tables → String → ℕ
gpu_usage t node = length (keep (λ r. r.node_id == node) t.gpu_alloc)

unfoldable pub gpu_usage_by_node : Sql (String → ℕ)
unfolding query gpu_usage
gpu_usage_by_node = query gpu_usage

pub record GpuAlloc : Type 0 where
  pub index : ℕ
  pub container_id : String
  pub container_name : String

-- LEFT JOIN containers c ON c.id = g.container_id, COALESCE(c.name, '')
unfoldable pub joined : Tables → GpuRow → GpuAlloc
joined t r = record {
  index = r.gpu_index;
  container_id = r.container_id;
  container_name = elim (find (λ c. c.id == r.container_id) t.containers) [
    | none ↦ ""
    | some c ↦ c.name
  ];
}

unfoldable pub gpu_allocs : String → Tables → List GpuAlloc
unfolding sort_asc joined
gpu_allocs node t =
    sort_asc (λ a. a.index) (map (joined t) (keep (λ r. r.node_id == node) t.gpu_alloc))

unfoldable pub list_gpu_allocs_for_node : String → Sql (List GpuAlloc)
unfolding query gpu_allocs
list_gpu_allocs_for_node node = query (gpu_allocs node)
