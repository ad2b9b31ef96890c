-- ===== src/Store/Ledger/Owners.antt =====
-- What booking and deleting rows of `gpu_alloc` does to the ledger.
use pumpkin_pie.Prelude.{
  ℕ, zero, suc, ◌≡◌, refl, Bool, true, false, not, String, ◌==◌, none, some, List, [], ◌∷◌, any,
  keep, take, upto, if◌then◌else◌, arith, eq_iff, fun_ext, All,
}
use pumpkin_pie.Prelude.Rows.{Distinct, find-eq-none, any_weaken, All-keep_test, All-every}
use pumpkin_pie.Store.Tables.{GpuRow, Tables, Time}
use pumpkin_pie.Store.Statements.{is_slot}
use pumpkin_pie.Store.Gpus.{gpu_row}
use pumpkin_pie.Store.Gpus.Choice.{free_indices}
use pumpkin_pie.Store.Gpus.Booking.{book, IsBookable}
use pumpkin_pie.Store.Validity.{same_slot}
use pumpkin_pie.Store.Ledger.{Ledger, owner, grant, without, release, AreFree}

owner-none :
    (node : String) (i : ℕ) (rows : List GpuRow)
    → any (is_slot node i) rows ≡ false
    → owner rows node i ≡ none
unfolding owner
owner-none node i rows free = rw (find-eq-none (is_slot node i) rows free) refl

owner-cons :
    (r : GpuRow) (rows : List GpuRow) (n : String) (i : ℕ)
    → owner (r ∷ rows) n i ≡ (if is_slot n i r then some r.container_id else owner rows n i)
unfolding owner
owner-cons r rows n i = ground arith

pub grant-nil : (node container : String) (l : Ledger) → grant node container [] l ≡ l
unfolding grant any
grant-nil node container l = fun_ext (λ n. fun_ext (λ i. ground arith))

module _ (now : Time) (node container : String) where
  -- Booked rows grant their indices.
  owner-book_at :
      (is : List ℕ) (rows : List GpuRow) (n : String) (i : ℕ)
      → owner (book now node container is rows) n i ≡ grant node container is (owner rows) n i
  unfolding book grant gpu_row any is_slot
  owner-book_at [] rows n i = ground arith
  owner-book_at (j ∷ is) rows n i =
      let row = gpu_row now node container j in
      ground (
        arith,
        owner-book_at is (row ∷ rows) n i,
        owner-cons row rows n i,
        eq_iff n node,
        eq_iff node n,
      )

  pub owner-book :
      (is : List ℕ) (rows : List GpuRow)
      → owner (book now node container is rows) ≡ grant node container is (owner rows)
  owner-book is rows = fun_ext (λ n. fun_ext (λ i. owner-book_at is rows n i))

  pub IsBookable-AreFree :
      (is : List ℕ) (t : Tables)
      → IsBookable now node container is t
      → AreFree node is (owner t.gpu_alloc)
  IsBookable-AreFree [] t b = tt
  IsBookable-AreFree (i ∷ is) t b = (owner-none node i t.gpu_alloc b.0, IsBookable-AreFree is t b.2)

All-take {ℓ κ} :
    {A : Type ℓ} (P : A → Type κ) (limit : ℕ) (xs : List A) → All P xs → All P (take limit xs)
unfolding take
All-take P zero xs h = tt
All-take P (suc limit) [] h = tt
All-take P (suc limit) (x ∷ xs) h = (h.0, All-take P limit xs h.1)

-- A choice among the free indices is free.
pub AreFree-free_indices :
    (node : String) (total count : ℕ) (t : Tables)
    → AreFree node (take count (free_indices node total t)) (owner t.gpu_alloc)
unfolding free_indices
AreFree-free_indices node total count t = All-take _ count _ (
    All-keep_test (λ i. Unit {0}) _ _ (upto 0 total)
      (λ i passed _. owner-none node i t.gpu_alloc (not-true _ passed))
      (All-every _ (upto 0 total) (λ _. tt)))
  where
    not-true : (b : Bool) → not b ≡ true → b ≡ false
    not-true b h = ground arith

-- No later row names the GPU that a row names.
slot_taken :
    (r : GpuRow) (rows : List GpuRow) (n : String) (i : ℕ)
    → is_slot n i r ≡ true
    → any (same_slot r) rows ≡ false
    → any (is_slot n i) rows ≡ false
unfolding is_slot
slot_taken r rows n i here d =
    any_weaken _ _ rows
      (λ s h. ground (arith, eq_iff r.node_id n, eq_iff s.node_id n, eq_iff s.node_id r.node_id)) d

-- Deleting a container's rows releases what it holds, where no two rows name one GPU.
owner-keep_at :
    (container : String) (rows : List GpuRow) (n : String) (i : ℕ)
    → Distinct same_slot rows
    → owner (keep (λ r. not (r.container_id == container)) rows) n i
      ≡ release container (owner rows) n i
unfolding keep release without any
owner-keep_at container [] n i d = rw (owner-none n i [] refl) refl
owner-keep_at container (r ∷ rows) n i d =
    let kept = keep (λ s. not (s.container_id == container)) rows in
    ground (
      arith,
      owner-cons r rows n i,
      owner-cons r kept n i,
      owner-none n i rows,
      slot_taken r rows n i,
      owner-keep_at container rows n i,
    )

pub owner-keep :
    (container : String) (rows : List GpuRow)
    → Distinct same_slot rows
    → owner (keep (λ r. not (r.container_id == container)) rows) ≡ release container (owner rows)
owner-keep container rows d = fun_ext (λ n. fun_ext (λ i. owner-keep_at container rows n i d))
