-- ===== src/Api/Placement.antt =====
-- internal/master/api/api.go: the node that createContainer picks.
use pumpkin_pie.Prelude.{
  ℕ, String, ◌&&◌, ◌==◌, Option, none, some, List, [], ◌∷◌, ltb, leb, ◌+◌, if◌then◌else◌,
}
use pumpkin_pie.Exec.{Result, ok, err, pure, raise, ◌>>=◌, ◌>>◌}
use pumpkin_pie.Float.{FloatOps}
use pumpkin_pie.Store.Tables.{Node}
use pumpkin_pie.Store.Nodes.{get_node}
use pumpkin_pie.Store.Gpus.{gpu_usage_by_node}
use pumpkin_pie.Scheduler.{SelectError, free_gpus_on, select}
use pumpkin_pie.Api.State.{
  Refusal, refusal, Api, says, of_store, out_of_range, few_free, of_select, on_store,
}
use pumpkin_pie.Api.Checks.{CreateContainerReq, is_empty}

unfoldable pub settled : {A : Type 0} → Result Refusal A → Api A
settled r s = (r, s)

-- The first index that the node does not have, with its position.
unfoldable pub first_outside : ℕ → ℕ → List ℕ → Option (ℕ × ℕ)
first_outside total i [] = none
first_outside total i (x ∷ xs) =
    let rest = first_outside total (i + 1) xs in if leb total x then some (i, x) else rest

unfoldable pub check_range : Node → Option (ℕ × ℕ) → Api Unit
unfolding pure raise
check_range n none = pure tt
check_range n (some (i, x)) = raise (refusal 400 (out_of_range i x n.id n.gpu_count))

unfoldable pub check_free : CreateContainerReq → Node → (String → ℕ) → Api Unit
unfolding pure raise free_gpus_on
check_free req n used =
    let free = free_gpus_on n used in
    if ltb free req.gpu_count
    then raise (refusal 409 (few_free n.id free req.gpu_count))
    else pure tt

-- The checks on a node that the request names.
unfoldable pub check_node : CreateContainerReq → Node → Api Node
unfolding first_outside check_range check_free is_empty on_store ◌>>=◌
check_node req n =
    let count =
      if ltb 0 req.gpu_count && is_empty req.gpu_indices
      then (on_store (λ e. refusal 500 (of_store e)) gpu_usage_by_node >>= check_free req n)
      else pure tt in
    check_range n (first_outside n.gpu_count 0 req.gpu_indices) >> (count >> pure n)

unfoldable pub selected : Result SelectError Node → Api Node
selected (ok n) s = (ok n, s)
selected (err why) s = (err (refusal 409 (of_select why)), s)

unfoldable pub select_node : FloatOps → CreateContainerReq → Api Node
unfolding select selected
select_node ops req s =
    let (r, db) =
      select ops
        (record {
          cpu_cores = req.cpu_cores;
          memory_bytes = req.memory_bytes;
          gpu_count = req.gpu_count;
        })
        s.manager.db in
    selected r (record s { manager = record s.manager { db = db } })

-- Pick a node
unfoldable pub pick_node : FloatOps → CreateContainerReq → Api Node
unfolding check_node select_node on_store ◌>>=◌
pick_node ops req =
    if req.node_id == ""
    then select_node ops req
    else (on_store (λ e. refusal 400 (says "node_id not found")) (get_node req.node_id)
        >>= check_node req)
