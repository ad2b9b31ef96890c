-- ===== src/Exec.antt =====
-- Go functions that change state and may return early with an error: what was written before the
-- error stays written, so the state comes back beside the error too.
pub mod Keeps
pub mod Inversion

pub data Result {ℓ} (E A : Type ℓ) : Type ℓ where
  ok : A → Result E A
  err : E → Result E A

abbrev pub Exec {ℓ} : Type ℓ → Type ℓ → Type ℓ → Type ℓ
Exec S E A = S → Result E A × S

module _ {ℓ} {S E A : Type ℓ} where
  unfoldable pub pure : A → Exec S E A
  pure a s = (ok a, s)

  unfoldable pub raise : E → Exec S E A
  raise e s = (err e, s)

  unfoldable pub gets : (S → A) → Exec S E A
  gets f s = (ok (f s), s)

module _ {ℓ} {S E A B : Type ℓ} where
  abbrev pub continue : Result E A → (A → Exec S E B) → Exec S E B
  continue (ok a) f s = f a s
  continue (err e) f s = (err e, s)

  infixl 10 ◌>>=◌ ◌>>◌
  -- opening this opens `pure`, `raise` and `gets` too
  unfoldable pub ◌>>=◌ : Exec S E A → (A → Exec S E B) → Exec S E B
  unfolding pure raise gets
  ◌>>=◌ m f s = let (r, s') = m s in continue r f s'

  abbrev pub ◌>>◌ : Exec S E A → Exec S E B → Exec S E B
  m >> n = m >>= λ _. n

-- The error of a callee, wrapped or turned into another.
module _ {ℓ} {S E E' A : Type ℓ} where
  unfoldable pub map_err : (E → E') → Result E A × S → Result E' A × S
  map_err f (ok a, s) = (ok a, s)
  map_err f (err e, s) = (err (f e), s)

  unfoldable pub with_error : (E → E') → Exec S E A → Exec S E' A
  unfolding map_err
  with_error f m s = map_err f (m s)
