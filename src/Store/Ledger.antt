-- ===== src/Store/Ledger.antt =====
-- The reservations of GPUs as a client of internal/master/store/store.go understands them: who holds
-- which GPU of which node. Rows, their order and their times are forgotten.
pub mod Owners
pub mod Kept
pub mod Refined
pub mod Held
use pumpkin_pie.Prelude.{
  ℕ, ◌≡◌, Bool, true, not, ◌&&◌, String, ◌==◌, Option, none, some, List, [], ◌∷◌, any, find, length,
  nat_eq, if◌then◌else◌, All,
}
use mathlib.Core.Option
use pumpkin_pie.Exec.{Result, ok, err}
use pumpkin_pie.Store.Tables.{GpuRow, Tables, Db, Error}
use pumpkin_pie.Store.Statements.{is_slot}
use pumpkin_pie.Store.Containers.{delete_container}
use pumpkin_pie.Store.Gpus.{alloc_gpus, alloc_specific_gpus, free_gpus}
use pumpkin_pie.Store.Calls.{
  Call, upserts_node, updates_node_state, updates_node_metrics, inserts_container,
  updates_container_state, updates_external_port, updates_gpu_indices, deletes_container,
  allocates_port, frees_port, allocates_gpus, allocates_specific_gpus, frees_gpus, run_call,
}

-- The container that holds a GPU of a node.
abbrev pub Ledger : Type 0
Ledger = String → ℕ → Option String

unfoldable pub owner : List GpuRow → Ledger
unfolding find is_slot
owner rows node index = Option.map (λ r. r.container_id) (find (is_slot node index) rows)

-- What the tables say.
abbrev pub ledger : Tables → Ledger
ledger t = owner t.gpu_alloc

unfoldable pub grant : String → String → List ℕ → Ledger → Ledger
unfolding any
grant node container is l n i = if n == node && any (nat_eq i) is then some container else l n i

unfoldable pub without : String → Option String → Option String
without container none = none
without container (some c) = if c == container then none else some c

unfoldable pub release : String → Ledger → Ledger
unfolding without
release container l n i = without container (l n i)

abbrev pub AreFree : String → List ℕ → Ledger → Type 0
AreFree node is l = All (λ i. l node i ≡ none) is

-- A call that returned did what `Done` says of its result, and one that failed what `Undone` says.
pub data Outcome {A : Type 0} (r : Result Error A) (Done : A → Type 0) (Undone : Type 0)
    : Type 0 where
  returned : (a : A) → r ≡ ok a → Done a → Outcome r Done Undone
  failed : (e : Error) → r ≡ err e → Undone → Outcome r Done Undone

-- The contract of each call, from the ledger before it to the ledger after it.
abbrev pub Effect : Call → Db → Ledger → Ledger → Type 0
Effect (allocates_gpus now node container count total) db l l' =
    Outcome (alloc_gpus now node container count total db).0
      (λ got. (length got ≡ count) × AreFree node got l × (l' ≡ grant node container got l))
      (l' ≡ l)
Effect (allocates_specific_gpus now node container is) db l l' =
    Outcome (alloc_specific_gpus now node container is db).0
      (λ _. AreFree node is l × (l' ≡ grant node container is l)) (l' ≡ l)
Effect (frees_gpus container) db l l' =
    Outcome (free_gpus container db).0 (λ _. l' ≡ release container l) (l' ≡ l)
Effect (deletes_container container) db l l' =
    Outcome (delete_container container db).0 (λ _. l' ≡ release container l) (l' ≡ l)
Effect (upserts_node now n) db l l' = l' ≡ l
Effect (updates_node_state now id state) db l l' = l' ≡ l
Effect (updates_node_metrics now n) db l l' = l' ≡ l
Effect (inserts_container now c) db l l' = l' ≡ l
Effect (updates_container_state now id docker_id state status) db l l' = l' ≡ l
Effect (updates_external_port now id port) db l l' = l' ≡ l
Effect (updates_gpu_indices now id json) db l l' = l' ≡ l
Effect (allocates_port start end container) db l l' = l' ≡ l
Effect (frees_port port) db l l' = l' ≡ l

-- A sequence of calls, each meeting its contract.
abbrev pub Follows : List Call → Db → Ledger → Ledger → Type 0
Follows [] db l l' = l' ≡ l
Follows (c ∷ cs) db l l' = (next : Ledger) × Effect c db l next × Follows cs (run_call c db) next l'

-- The call takes nothing from the container.
unfoldable pub spares : String → Call → Bool
spares container (frees_gpus other) = not (other == container)
spares container (deletes_container other) = not (other == container)
spares container (upserts_node now n) = true
spares container (updates_node_state now id state) = true
spares container (updates_node_metrics now n) = true
spares container (inserts_container now c) = true
spares container (updates_container_state now id docker_id state status) = true
spares container (updates_external_port now id port) = true
spares container (updates_gpu_indices now id json) = true
spares container (allocates_port start end other) = true
spares container (frees_port port) = true
spares container (allocates_gpus now node other count total) = true
spares container (allocates_specific_gpus now node other is) = true
