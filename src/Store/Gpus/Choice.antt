-- ===== src/Store/Gpus/Choice.antt =====
-- The loop of AllocGPUs (internal/master/store/store.go) against the list of the free indices.
use pumpkin_pie.Prelude.{
  ℕ, zero, suc, ◌+◌, ◌≡◌, refl, ap, Bool, not, String, ◌==◌, List, [], ◌∷◌, map, any, keep, take,
  upto, nat_eq, arith,
}
use pumpkin_pie.Store.Tables.{GpuRow, Tables}
use pumpkin_pie.Store.Statements.{is_slot}
use pumpkin_pie.Store.Gpus.{used_indices, choose}

-- The indices below `total` that no row of the node holds, in ascending order.
unfoldable pub free_indices : String → ℕ → Tables → List ℕ
unfolding keep any upto is_slot
free_indices node total t = keep (λ i. not (any (is_slot node i) t.gpu_alloc)) (upto 0 total)

choose-take :
    (used : List ℕ) (i rounds missing : ℕ)
    → choose used i rounds missing
      ≡ take missing (keep (λ j. not (any (nat_eq j) used)) (upto i rounds))
unfolding choose take keep upto
choose-take used i zero zero = refl
choose-take used i zero (suc missing) = refl
choose-take used i (suc rounds) zero = refl
choose-take used i (suc rounds) (suc missing) =
    ground (
      arith,
      choose-take used (i + 1) rounds (suc missing),
      choose-take used (i + 1) rounds missing,
    )

used-slot :
    (node : String) (rows : List GpuRow) (i : ℕ)
    → any (nat_eq i) (map (λ r. r.gpu_index) (keep (λ r. r.node_id == node) rows))
      ≡ any (is_slot node i) rows
unfolding any keep is_slot
used-slot node [] i = refl
used-slot node (r ∷ rows) i = ground (arith, used-slot node rows i)

pub keep-ext {ℓ} :
    {A : Type ℓ} (p q : A → Bool) (xs : List A) → ((x : A) → p x ≡ q x) → keep p xs ≡ keep q xs
unfolding keep
keep-ext p q [] h = refl
keep-ext p q (x ∷ xs) h = ground (arith, keep-ext p q xs h, h x)

-- The loop takes the lowest free indices, as many as are asked for or there are.
pub choose-free_indices :
    (node : String) (total count : ℕ) (t : Tables)
    → choose (used_indices node t) 0 total count ≡ take count (free_indices node total t)
unfolding used_indices free_indices
choose-free_indices node total count t =
    rw (choose-take (used_indices node t) 0 total count)
      (ap (take count) (keep-ext _ _ (upto 0 total) (λ i. ap not (used-slot node t.gpu_alloc i))))
