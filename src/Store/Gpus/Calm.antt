-- ===== src/Store/Gpus/Calm.antt =====
-- The INSERT loops of internal/master/store/store.go where the driver fails nothing: they finish
-- exactly when the indices are free, and name the first one that is not.
use pumpkin_pie.Prelude.{
  ℕ, ◌≡◌, refl, ◌∙◌, true, false, String, List, [], ◌∷◌, ◌++◌, any, nat_eq, arith,
}
use pumpkin_pie.Exec.{ok, err, pure}
use pumpkin_pie.Exec.Inversion.{>>=-step, >>=-fail}
use pumpkin_pie.Store.Tables.{Tables, calm, Time, gpu_taken}
use pumpkin_pie.Store.Statements.{has_node, has_container, is_slot}
use pumpkin_pie.Store.Gpus.{gpu_row, reserve_one, reserve}
use pumpkin_pie.Store.Gpus.Booking.{book, booked, IsBookable}

module _ (now : Time) (node container : String) where
  reserve_one-free :
      (i : ℕ) (t : Tables)
      → any (is_slot node i) t.gpu_alloc ≡ false
      → has_container container t ≡ true
      → has_node node t ≡ true
      → reserve_one now node container i (calm t)
        ≡ (ok tt, calm (record t { gpu_alloc = gpu_row now node container i ∷ t.gpu_alloc }))
  unfolding reserve_one
  reserve_one-free i t free c n = rw (free, c, n, reserve_one)

  reserve_one-taken :
      (i : ℕ) (t : Tables)
      → any (is_slot node i) t.gpu_alloc ≡ true
      → reserve_one now node container i (calm t) ≡ (err (gpu_taken i node), calm t)
  unfolding reserve_one
  reserve_one-taken i t taken = rw (taken, reserve_one)

  -- Bookable indices stay so after the first of them is booked.
  IsBookable-tail :
      (i : ℕ) (is : List ℕ) (t : Tables)
      → any (nat_eq i) is ≡ false
      → IsBookable now node container is t
      → IsBookable now node container is
          (record t { gpu_alloc = gpu_row now node container i ∷ t.gpu_alloc })
  unfolding any is_slot gpu_row
  IsBookable-tail i [] t fresh b = tt
  IsBookable-tail i (j ∷ is) t fresh b = ground (arith, IsBookable-tail i is t (ground arith) b.2)

  pub reserve-bookable :
      (is : List ℕ) (t : Tables)
      → IsBookable now node container is t
      → has_container container t ≡ true
      → has_node node t ≡ true
      → reserve now node container is (calm t) ≡ (ok tt, calm (booked now node container is t))
  unfolding reserve book pure has_container has_node
  reserve-bookable [] t b c n = refl
  reserve-bookable (i ∷ is) t b c n =
      let t' = record t { gpu_alloc = gpu_row now node container i ∷ t.gpu_alloc } in
      >>=-step (reserve_one now node container i) (λ _. reserve now node container is) (calm t)
        (calm t') tt (reserve_one-free i t b.0 c n)
      ∙ reserve-bookable is t' (IsBookable-tail i is t b.1 b.2) c n

  -- The first index that some row holds stops the loop, whatever stands behind it.
  pub reserve-taken :
      (is : List ℕ) (i : ℕ) (rest : List ℕ) (t : Tables)
      → IsBookable now node container is t
      → has_container container t ≡ true
      → has_node node t ≡ true
      → any (is_slot node i) (book now node container is t.gpu_alloc) ≡ true
      → reserve now node container (is ++ i ∷ rest) (calm t)
        ≡ (err (gpu_taken i node), calm (booked now node container is t))
  unfolding reserve book has_container has_node
  reserve-taken [] i rest t b c n taken =
      >>=-fail (reserve_one now node container i) (λ _. reserve now node container rest) (calm t)
        (calm t) (gpu_taken i node) (reserve_one-taken i t taken)
  reserve-taken (j ∷ is) i rest t b c n taken =
      let t' = record t { gpu_alloc = gpu_row now node container j ∷ t.gpu_alloc } in
      >>=-step (reserve_one now node container j) (λ _. reserve now node container (is ++ i ∷ rest))
        (calm t) (calm t') tt (reserve_one-free j t b.0 c n)
      ∙ reserve-taken is i rest t' (IsBookable-tail j is t b.1 b.2) c n taken
