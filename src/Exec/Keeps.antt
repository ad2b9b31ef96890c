-- ===== src/Exec/Keeps.antt =====
-- Invariants of actions, one rule for each way to build an action.
use pumpkin_pie.Prelude.{◌≡◌, refl, Bool, true, false, if◌then◌else◌}
use pumpkin_pie.Exec.{Result, ok, err, Exec, pure, raise, gets, ◌>>=◌}

-- `m` keeps `P`, whether it returns or fails.
pub record Keeps {ℓ} {S E A : Type ℓ} (P : S → Type ℓ) (m : Exec S E A) : Type ℓ where
  pub at : (s : S) → P s → P (m s).1

module _ {ℓ} {S E A : Type ℓ} {P : S → Type ℓ} where
  pub Keeps-pure : (a : A) → Keeps P (pure {E = E} a)
  unfolding pure
  Keeps-pure a = record { at = λ s h. h }

  pub Keeps-raise : (e : E) → Keeps P (raise {A = A} e)
  unfolding raise
  Keeps-raise e = record { at = λ s h. h }

  pub Keeps-gets : (f : S → A) → Keeps P (gets {E = E} f)
  unfolding gets
  Keeps-gets f = record { at = λ s h. h }

  pub Keeps-if :
      (test : Bool) (yes_part no_part : Exec S E A)
      → (test ≡ true → Keeps P yes_part)
      → (test ≡ false → Keeps P no_part)
      → Keeps P (if test then yes_part else no_part)
  Keeps-if true yes_part no_part taken other = taken refl
  Keeps-if false yes_part no_part taken other = other refl

module _ {ℓ} {S E A B : Type ℓ} {P : S → Type ℓ} where
  Keeps-continue :
      (r : Result E A) (f : A → Exec S E B) (s : S)
      → ((a : A) → Keeps P (f a))
      → P s
      → P (◌>>=◌ (λ t. (r, t)) f s).1
  unfolding ◌>>=◌
  Keeps-continue (ok a) f s kf h = (kf a).at s h
  Keeps-continue (err e) f s kf h = h

  pub Keeps-bind :
      (m : Exec S E A) (f : A → Exec S E B)
      → Keeps P m
      → ((returned : A) → Keeps P (f returned))
      → Keeps P (m >>= f)
  unfolding ◌>>=◌
  Keeps-bind m f first next = record {
    at = λ before holds.
        let (r, after) = m before in Keeps-continue r f after next (first.at before holds);
  }

pub ruleset keeps_rules = (Keeps-pure, Keeps-raise, Keeps-gets, Keeps-if, Keeps-bind)
