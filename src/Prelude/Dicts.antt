-- ===== src/Prelude/Dicts.antt =====
-- Go maps with string keys, as lists in which a lookup sees the first entry of a key.
use Prim.Native.String.{String}
use mathlib.Core.Path.{◌≡◌, refl}
use mathlib.Core.List.{List, [], ◌∷◌}
use mathlib.Core.Option.{Option, none, some}
use native.Mathlib.Omega.{arith}
use text.Mathlib.Text.{◌==◌}
use text.Mathlib.TextEquality.{eq_iff}
use pumpkin_pie.Prelude.Tests.{if◌then◌else◌}

abbrev pub Dict : Type 0 → Type 0
Dict V = List (String × V)

module _ {V : Type 0} where
  -- v, ok := m[k]
  unfoldable pub lookup : String → Dict V → Option V
  lookup key [] = none
  lookup key ((other, value) ∷ rest) = if other == key then some value else lookup key rest

  -- m[k] = v
  unfoldable pub insert : String → V → Dict V → Dict V
  insert key value [] = (key, value) ∷ []
  insert key value ((other, old) ∷ rest) =
      if other == key then (key, value) ∷ rest else (other, old) ∷ insert key value rest

  -- delete(m, k)
  unfoldable pub delete : String → Dict V → Dict V
  delete key [] = []
  delete key ((other, old) ∷ rest) =
      let left = delete key rest in if other == key then left else (other, old) ∷ left

  pub lookup-delete :
      (key asked : String) (dict : Dict V)
      → lookup asked (delete key dict) ≡ (if key == asked then none else lookup asked dict)
  unfolding lookup delete
  lookup-delete key asked [] = ground arith
  lookup-delete key asked ((other, old) ∷ rest) =
      ground (
        arith,
        lookup-delete key asked rest,
        eq_iff key asked,
        eq_iff other asked,
        eq_iff other key,
      )

  pub lookup-insert :
      (key asked : String) (value : V) (dict : Dict V)
      → lookup asked (insert key value dict)
        ≡ (if key == asked then some value else lookup asked dict)
  unfolding insert lookup
  lookup-insert key asked value [] = refl
  lookup-insert key asked value ((other, old) ∷ rest) = ground (
    arith,
    lookup-insert key asked value rest,
    eq_iff key asked,
    eq_iff other asked,
    eq_iff other key,
  )
