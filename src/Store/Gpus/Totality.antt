-- ===== src/Store/Gpus/Totality.antt =====
-- The GPU allocators of internal/master/store/store.go where the driver fails nothing: when they
-- return, what they refuse, and that FreeGPUs takes back what they gave.
use pumpkin_pie.Prelude.{
  ℕ, zero, suc, ◌+◌, ◌≤◌, ◌<◌, ◌≡◌, refl, ◌∙◌, Bool, true, false, not, String, ◌==◌, List, [], ◌∷◌,
  ◌++◌, any, keep, take, upto, length, ltb, nat_eq, arith, eq_refl, inl, inr, Bool-cases,
  if◌then◌else◌,
}
use pumpkin_pie.Exec.{ok, err, pure, raise}
use pumpkin_pie.Exec.Inversion.{>>=-step}
use pumpkin_pie.Store.Tables.{GpuRow, Tables, calm, Time, insufficient_gpus, gpu_taken}
use pumpkin_pie.Store.Statements.{has_node, has_container, is_slot}
use pumpkin_pie.Store.Gpus.{
  gpu_row, reserve, reserve_chosen, alloc_gpus, alloc_specific_gpus, free_gpus,
}
use pumpkin_pie.Store.Gpus.Choice.{free_indices, choose-free_indices}
use pumpkin_pie.Store.Gpus.Booking.{book, booked, IsBookable}
use pumpkin_pie.Store.Gpus.Calm.{reserve-bookable, reserve-taken}

take-all {ℓ} :
    {A : Type ℓ} (limit : ℕ) (rows : List A) → length rows ≤ limit → take limit rows ≡ rows
unfolding take
take-all zero [] enough = refl
take-all (suc limit) [] enough = refl
take-all zero (row ∷ rows) enough = absurd (ground arith)
take-all (suc limit) (row ∷ rows) enough = rw (take-all limit rows (ground arith)) refl

pub length-take_of_le {ℓ} :
    {A : Type ℓ} (n : ℕ) (xs : List A) → n ≤ length xs → length (take n xs) ≡ n
unfolding take
length-take_of_le zero xs h = refl
length-take_of_le (suc n) [] h = absurd (omega arith)
length-take_of_le (suc n) (x ∷ xs) h = omega (arith, length-take_of_le n xs)

-- An index below the first is not among the chosen ones.
below-take :
    (p : ℕ → Bool) (j i rounds m : ℕ)
    → j < i
    → any (nat_eq j) (take m (keep p (upto i rounds))) ≡ false
unfolding any take keep upto
below-take p j i zero zero h = refl
below-take p j i zero (suc m) h = refl
below-take p j i (suc rounds) zero h = below-zero (p i)
  where
    below-zero :
        (b : Bool)
        → any
            (nat_eq j)
            (take 0 (if b then i ∷ keep p (upto (i + 1) rounds) else keep p (upto (i + 1) rounds)))
          ≡ false
    below-zero b = refl
below-take p j i (suc rounds) (suc m) h = ground (
  arith,
  below-take p j (i + 1) rounds m (omega arith),
  below-take p j (i + 1) rounds (suc m) (omega arith),
)

module _ (now : Time) (node container : String) where
  IsBookable-take :
      (t : Tables) (i rounds m : ℕ)
      → IsBookable now node container
          (take m (keep (λ j. not (any (is_slot node j) t.gpu_alloc)) (upto i rounds)))
          t
  unfolding take keep upto
  IsBookable-take t i zero zero = tt
  IsBookable-take t i zero (suc m) = tt
  IsBookable-take t i (suc rounds) zero = tt
  IsBookable-take t i (suc rounds) (suc m) = elim (Bool-cases (any (is_slot node i) t.gpu_alloc)) [
    | inl e ↦ rw e (IsBookable-take t (i + 1) rounds (suc m))
    | inr e ↦
        rw e (e, below-take _ i (i + 1) rounds m (omega arith), IsBookable-take t (i + 1) rounds m)
  ]

  free-IsBookable :
      (t : Tables) (total m : ℕ)
      → IsBookable now node container (take m (free_indices node total t)) t
  unfolding free_indices
  free-IsBookable t total m = IsBookable-take t 0 total m

  reserve_chosen-enough :
      (count total : ℕ) (chosen : List ℕ) (t : Tables)
      → has_container container t ≡ true
      → has_node node t ≡ true
      → IsBookable now node container chosen t
      → count ≤ length chosen
      → reserve_chosen now node container count total chosen (calm t)
        ≡ (ok chosen, calm (booked now node container chosen t))
  unfolding reserve_chosen pure
  reserve_chosen-enough count total chosen t c h b enough =
      let test : ltb (length chosen) count ≡ false = ground arith in
      rw (test, reserve_chosen)
        (>>=-step (reserve now node container chosen) (λ _. pure chosen) (calm t) _ tt
          (reserve-bookable now node container chosen t b c h))

  reserve_chosen-few :
      (count total : ℕ) (chosen : List ℕ) (t : Tables)
      → length chosen < count
      → reserve_chosen now node container count total chosen (calm t)
        ≡ (err (insufficient_gpus count (length chosen) total), calm t)
  unfolding reserve_chosen raise
  reserve_chosen-few count total chosen t few =
      let test : ltb (length chosen) count ≡ true = ground arith in rw (test, reserve_chosen)

  -- Where the driver fails nothing and the container and the node are in the tables, a request for
  -- at least one and at most as many GPUs as are free on the node below the total is granted: the
  -- call returns the lowest free indices and books just these.
  pub alloc_gpus-calm :
      (n total : ℕ) (t : Tables)
      → has_container container t ≡ true
      → has_node node t ≡ true
      → suc n ≤ length (free_indices node total t)
      → let lowest = take (suc n) (free_indices node total t) in
        alloc_gpus now node container (suc n) total (calm t)
        ≡ (ok lowest, calm (booked now node container lowest t))
  unfolding alloc_gpus reserve_chosen
  alloc_gpus-calm n total t c h enough =
      let lowest = take (suc n) (free_indices node total t) in
      rw (
        choose-free_indices node total (suc n) t,
        reserve_chosen-enough (suc n) total lowest t c h (free-IsBookable t total (suc n))
            (omega (arith, length-take_of_le (suc n) (free_indices node total t) enough)),
      )

  -- A request for more than that is refused with the three numbers, and nothing is booked.
  pub alloc_gpus-insufficient :
      (n total : ℕ) (t : Tables)
      → length (free_indices node total t) < suc n
      → alloc_gpus now node container (suc n) total (calm t)
        ≡ (err (insufficient_gpus (suc n) (length (free_indices node total t)) total), calm t)
  unfolding alloc_gpus reserve_chosen
  alloc_gpus-insufficient n total t few = rw (
    choose-free_indices node total (suc n) t,
    take-all (suc n) (free_indices node total t) (omega arith),
    reserve_chosen-few (suc n) total (free_indices node total t) t few,
  )

  -- Where the driver fails nothing and the container and the node are there, indices that are free
  -- and all different are granted.
  pub alloc_specific_gpus-calm :
      (i : ℕ) (is : List ℕ) (t : Tables)
      → has_container container t ≡ true
      → has_node node t ≡ true
      → IsBookable now node container (i ∷ is) t
      → alloc_specific_gpus now node container (i ∷ is) (calm t)
        ≡ (ok tt, calm (booked now node container (i ∷ is) t))
  unfolding alloc_specific_gpus
  alloc_specific_gpus-calm i is t c h b = rw (reserve-bookable now node container (i ∷ is) t b c h)

  -- The first requested index that is held already, or that came before in the request, is named
  -- by the error, and none of the indices is booked.
  pub alloc_specific_gpus-taken :
      (is : List ℕ) (i : ℕ) (rest : List ℕ) (t : Tables)
      → has_container container t ≡ true
      → has_node node t ≡ true
      → IsBookable now node container is t
      → any (is_slot node i) (book now node container is t.gpu_alloc) ≡ true
      → alloc_specific_gpus now node container (is ++ i ∷ rest) (calm t)
        ≡ (err (gpu_taken i node), calm t)
  unfolding alloc_specific_gpus
  alloc_specific_gpus-taken [] i rest t c h b taken =
      rw (reserve-taken now node container [] i rest t b c h taken)
  alloc_specific_gpus-taken (j ∷ is) i rest t c h b taken =
      rw (reserve-taken now node container (j ∷ is) i rest t b c h taken)

  -- The rows of the container, and no others, are what a reservation adds.
  keep-book :
      (is : List ℕ) (rows : List GpuRow)
      → keep (λ r. not (r.container_id == container)) (book now node container is rows)
        ≡ keep (λ r. not (r.container_id == container)) rows
  unfolding book keep gpu_row
  keep-book [] rows = refl
  keep-book (i ∷ is) rows =
      keep-book is (gpu_row now node container i ∷ rows) ∙ rw (eq_refl container)

  keep_all :
      (rows : List GpuRow)
      → any (λ r. r.container_id == container) rows ≡ false
      → keep (λ r. not (r.container_id == container)) rows ≡ rows
  unfolding any keep
  keep_all [] h = refl
  keep_all (r ∷ rows) h = ground (arith, keep_all rows)

  -- FreeGPUs undoes a reservation for a container that held nothing before: afterwards the tables
  -- are the ones before the reservation.
  pub free_gpus-booked :
      (is : List ℕ) (t : Tables)
      → any (λ r. r.container_id == container) t.gpu_alloc ≡ false
      → free_gpus container (calm (booked now node container is t)) ≡ (ok tt, calm t)
  unfolding free_gpus
  free_gpus-booked is t none_held = rw (keep-book is t.gpu_alloc, keep_all t.gpu_alloc none_held)
