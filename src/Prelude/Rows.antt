-- ===== src/Prelude/Rows.antt =====
-- Laws of the row operations, and rows that no two of which clash.
use mathlib.Core.Path.{◌≡◌, refl}
use mathlib.Core.Logic.{inl, inr}
use mathlib.Core.Bool.{Bool, true, false}
use mathlib.Core.List.{List, [], ◌∷◌}
use mathlib.Core.Option.{none, some}
use native.Mathlib.Omega.{arith}
use pumpkin_pie.Prelude.Tests.{if◌then◌else◌, Bool-cases}
use pumpkin_pie.Prelude.Lists.{any, find, keep, change, All}

module _ {ℓ} {A : Type ℓ} where
  -- No row clashes with a later one.
  abbrev pub Distinct : (A → A → Bool) → List A → Type 0
  Distinct clash [] = Unit
  Distinct clash (x ∷ xs) = (any (clash x) xs ≡ false) × Distinct clash xs

  pub any-keep_none : (q p : A → Bool) (xs : List A) → any q xs ≡ false → any q (keep p xs) ≡ false
  unfolding any keep
  any-keep_none q p [] h = refl
  any-keep_none q p (x ∷ xs) h = ground (arith, any-keep_none q p xs)

  -- A deletion that spares the rows looked for changes no answer.
  pub any-keep :
      (q p : A → Bool) (xs : List A)
      → ((x : A) → q x ≡ true → p x ≡ true)
      → any q (keep p xs) ≡ any q xs
  unfolding any keep
  any-keep q p [] h = refl
  any-keep q p (x ∷ xs) h = ground (arith, any-keep q p xs h, h x)

  pub any-change :
      (q p : A → Bool) (f : A → A) (xs : List A)
      → ((x : A) → p x ≡ true → q (f x) ≡ q x)
      → any q (change p f xs) ≡ any q xs
  unfolding any change
  any-change q p f [] h = refl
  any-change q p f (x ∷ xs) h = ground (arith, any-change q p f xs h, h x)

  pub find-change :
      (q p : A → Bool) (f : A → A) (xs : List A)
      → ((x : A) → p x ≡ true → q (f x) ≡ q x)
      → find q (change p f xs)
        ≡ elim (find q xs) [ none ↦ none | some x ↦ some (if p x then f x else x) ]
  unfolding find change
  find-change q p f [] h = refl
  find-change q p f (x ∷ xs) h = ground (arith, find-change q p f xs h, h x)

  pub find-eq-none : (q : A → Bool) (xs : List A) → any q xs ≡ false → find q xs ≡ none
  unfolding any find
  find-eq-none q [] h = refl
  find-eq-none q (x ∷ xs) h = ground (arith, find-eq-none q xs)

  pub any_of_find :
      (q : A → Bool) (xs : List A) (y : A) → find q xs ≡ some y → (any q xs ≡ true) × (q y ≡ true)
  unfolding any find
  any_of_find q [] y h = absurd (ground arith)
  any_of_find q (x ∷ xs) y h = ground (arith, any_of_find q xs y)

  -- The row found passes whatever other test it passes.
  pub any-at_found :
      (q p : A → Bool) (xs : List A) (y : A) → find q xs ≡ some y → p y ≡ true → any p xs ≡ true
  unfolding any find
  any-at_found q p [] y h e = absurd (ground arith)
  any-at_found q p (x ∷ xs) y h e = elim (Bool-cases (q x)) [
    | inl f ↦
        let same : some x ≡ some y = cc (find_first x xs f, h) in
        let here : x ≡ y = cc same in rw (here, e) refl
    | inr f ↦ ground (arith, any-at_found q p xs y (cc (find_later x xs f, h)) e)
  ]
    where
      find_first : (x : A) (xs : List A) → q x ≡ true → find q (x ∷ xs) ≡ some x
      find_first x xs f = rw f

      find_later : (x : A) (xs : List A) → q x ≡ false → find q (x ∷ xs) ≡ find q xs
      find_later x xs f = rw f

  pub find_of_any : (q : A → Bool) (xs : List A) → any q xs ≡ true → (x : A) × (find q xs ≡ some x)
  unfolding any find
  find_of_any q [] h = absurd (ground arith)
  find_of_any q (x ∷ xs) h = elim (Bool-cases (q x)) [
    | inl e ↦ (x, ground arith)
    | inr e ↦ let (y, found) = find_of_any q xs (ground arith) in (y, ground arith)
  ]

  pub any-change_none :
      (q p : A → Bool) (f : A → A) (xs : List A)
      → ((x : A) → q (f x) ≡ false)
      → any q xs ≡ false
      → any q (change p f xs) ≡ false
  unfolding any change
  any-change_none q p f [] h e = refl
  any-change_none q p f (x ∷ xs) h e = ground (arith, any-change_none q p f xs h, h x)

  -- An update that concerns no row.
  pub change_none : (p : A → Bool) (f : A → A) (xs : List A) → any p xs ≡ false → change p f xs ≡ xs
  unfolding any change
  change_none p f [] e = refl
  change_none p f (x ∷ xs) e = ground (arith, change_none p f xs)

  pub Distinct-keep :
      (clash : A → A → Bool) (p : A → Bool) (xs : List A)
      → Distinct clash xs
      → Distinct clash (keep p xs)
  unfolding keep
  Distinct-keep clash p [] d = tt
  Distinct-keep clash p (x ∷ xs) d =
      ground (arith, Distinct-keep clash p xs, any-keep_none (clash x) p xs)

  pub any_ext : (q q' : A → Bool) (xs : List A) → ((x : A) → q x ≡ q' x) → any q xs ≡ any q' xs
  unfolding any
  any_ext q q' [] h = refl
  any_ext q q' (x ∷ xs) h = ground (arith, any_ext q q' xs h, h x)

  pub find-head : (q : A → Bool) (x : A) (xs : List A) → q x ≡ true → find q (x ∷ xs) ≡ some x
  unfolding find
  find-head q x xs e = rw e

  pub find-tail : (q : A → Bool) (x : A) (xs : List A) → q x ≡ false → find q (x ∷ xs) ≡ find q xs
  unfolding find
  find-tail q x xs e = rw e

  pub any_weaken :
      (q p : A → Bool) (xs : List A)
      → ((x : A) → q x ≡ true → p x ≡ true)
      → any p xs ≡ false
      → any q xs ≡ false
  unfolding any
  any_weaken q p [] h e = refl
  any_weaken q p (x ∷ xs) h e = ground (arith, any_weaken q p xs h, h x)

  -- An update that leaves the columns of the key alone.
  pub Distinct-change :
      (clash : A → A → Bool) (p : A → Bool) (f : A → A) (xs : List A)
      → ((x y : A) → clash (f x) y ≡ clash x y)
      → ((x y : A) → clash x (f y) ≡ clash x y)
      → Distinct clash xs
      → Distinct clash (change p f xs)
  unfolding change
  Distinct-change clash p f [] l r d = tt
  Distinct-change clash p f (x ∷ xs) l r d = ground (
    arith,
    Distinct-change clash p f xs l r,
    any-change (clash x) p f xs (λ y _. r x y),
    any-change (clash (f x)) p f xs (λ y _. r (f x) y),
    any_ext (clash (f x)) (clash x) xs (l x),
  )

  -- What holds of the rows kept after a change of the predicate.
  pub All-mono {κ κ'} :
      (P : A → Type κ) (Q : A → Type κ') (xs : List A) → ((x : A) → P x → Q x) → All P xs → All Q xs
  All-mono P Q [] f h = tt
  All-mono P Q (x ∷ xs) f h = (f x h.0, All-mono P Q xs f h.1)

  pub All-every {κ} : (P : A → Type κ) (xs : List A) → ((x : A) → P x) → All P xs
  All-every P [] f = tt
  All-every P (x ∷ xs) f = (f x, All-every P xs f)

  pub All-both {κ κ' κ''} :
      (P : A → Type κ) (Q : A → Type κ') (R : A → Type κ'') (xs : List A)
      → ((x : A) → P x → Q x → R x)
      → All P xs
      → All Q xs
      → All R xs
  All-both P Q R [] f h k = tt
  All-both P Q R (x ∷ xs) f h k = (f x h.0 k.0, All-both P Q R xs f h.1 k.1)

  -- The rows that pass the test of a deletion satisfy it, beside what they satisfied before.
  pub All-keep_test {κ κ'} :
      (P : A → Type κ) (Q : A → Type κ') (p : A → Bool) (xs : List A)
      → ((x : A) → p x ≡ true → P x → Q x)
      → All P xs
      → All Q (keep p xs)
  unfolding keep
  All-keep_test P Q p [] f h = tt
  All-keep_test P Q p (x ∷ xs) f h = elim (Bool-cases (p x)) [
    | inl e ↦ rw e (f x e h.0, All-keep_test P Q p xs f h.1)
    | inr e ↦ rw e (All-keep_test P Q p xs f h.1)
  ]

  pub All-change {κ} :
      (P : A → Type κ) (p : A → Bool) (f : A → A) (xs : List A)
      → ((x : A) → P x → P (f x))
      → All P xs
      → All P (change p f xs)
  unfolding change
  All-change P p f [] k h = tt
  All-change P p f (x ∷ xs) k h = elim (Bool-cases (p x)) [
    | inl e ↦ rw e (k x h.0, All-change P p f xs k h.1)
    | inr e ↦ rw e (h.0, All-change P p f xs k h.1)
  ]
