-- ===== src/Prelude/Lists.antt =====
-- Lists measured by native numbers, and the row operations that the tables are built from:
-- `find` (SELECT of one row), `keep` (SELECT of many, and DELETE), `change` (UPDATE).
use Prim.Native.Nat.{ℕ, zero, suc, ◌+◌}
use mathlib.Core.Path.{◌≡◌, refl}
use mathlib.Core.Bool.{Bool, false, ◌||◌}
use mathlib.Core.List.{List, [], ◌∷◌, ◌++◌}
use mathlib.Core.Option.{Option, none, some}
use native.Mathlib.Omega.{arith}
use pumpkin_pie.Prelude.Tests.{if◌then◌else◌, ltb}

module _ {ℓ} {A : Type ℓ} where
  abbrev pub length : List A → ℕ
  length [] = 0
  length (row ∷ rows) = suc (length rows)

  pub length-append : (xs ys : List A) → length (xs ++ ys) ≡ length xs + length ys
  length-append [] ys = omega arith
  length-append (x ∷ xs) ys = omega (arith, length-append xs ys)

  unfoldable pub any : (A → Bool) → List A → Bool
  any p [] = false
  any p (x ∷ xs) = p x || any p xs

  unfoldable pub find : (A → Bool) → List A → Option A
  find p [] = none
  find p (x ∷ xs) = if p x then some x else find p xs

  unfoldable pub keep : (A → Bool) → List A → List A
  keep p [] = []
  keep p (x ∷ xs) = let rest = keep p xs in if p x then x ∷ rest else rest

  unfoldable pub change : (A → Bool) → (A → A) → List A → List A
  change p f [] = []
  change p f (x ∷ xs) = (if p x then f x else x) ∷ change p f xs

  abbrev pub All {κ} : (A → Type κ) → List A → Type κ
  All P [] = Unit
  All P (x ∷ xs) = P x × All P xs

  -- ORDER BY key DESC; rows with the same key stay in the order of the table.
  insert_desc : (A → ℕ) → A → List A → List A
  insert_desc key x [] = x ∷ []
  insert_desc key x (y ∷ ys) =
      let rest = insert_desc key x ys in if ltb (key y) (key x) then x ∷ y ∷ ys else y ∷ rest

  unfoldable pub sort_desc : (A → ℕ) → List A → List A
  unfolding insert_desc
  sort_desc key [] = []
  sort_desc key (x ∷ xs) = insert_desc key x (sort_desc key xs)

  any-insert_desc :
      (q : A → Bool) (key : A → ℕ) (x : A) (ys : List A)
      → any q (insert_desc key x ys) ≡ q x || any q ys
  unfolding insert_desc any
  any-insert_desc q key x [] = refl
  any-insert_desc q key x (y ∷ ys) = ground (arith, any-insert_desc q key x ys)

  pub any-sort_desc :
      (q : A → Bool) (key : A → ℕ) (xs : List A) → any q (sort_desc key xs) ≡ any q xs
  unfolding sort_desc any
  any-sort_desc q key [] = refl
  any-sort_desc q key (x ∷ xs) =
      ground (arith, any-insert_desc q key x (sort_desc key xs), any-sort_desc q key xs)

  unfoldable pub take : ℕ → List A → List A
  take zero rows = []
  take (suc limit) [] = []
  take (suc limit) (row ∷ rows) = row ∷ take limit rows

-- i, i + 1, …, as many numbers as the second argument says.
unfoldable pub upto : ℕ → ℕ → List ℕ
upto i zero = []
upto i (suc n) = i ∷ upto (i + 1) n
