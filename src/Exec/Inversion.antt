-- ===== src/Exec/Inversion.antt =====
-- What a successful sequence says of its parts.
use pumpkin_pie.Prelude.{◌≡◌, refl, ◌⊎◌, inl, inr}
use pumpkin_pie.Exec.{Result, ok, err, Exec, ◌>>=◌}

pub Result-cases {ℓ} :
    {E A : Type ℓ} (r : Result E A) → ((a : A) × (r ≡ ok a)) ⊎ ((e : E) × (r ≡ err e))
Result-cases (ok a) = inl (a, refl)
Result-cases (err e) = inr (e, refl)

module _ {ℓ} {S E A B : Type ℓ} where
  continue-ok :
      (r : Result E A) (f : A → Exec S E B) (s : S) (b : B)
      → (◌>>=◌ (λ t. (r, t)) f s).0 ≡ ok b
      → (a : A) × (r ≡ ok a) × (◌>>=◌ (λ t. (r, t)) f s ≡ f a s)
  unfolding ◌>>=◌
  continue-ok (ok a) f s b h = (a, refl, refl)
  continue-ok (err e) f s b h = absurd (cc)

  pub >>=-ok :
      (m : Exec S E A) (f : A → Exec S E B) (s : S) (b : B)
      → ((m >>= f) s).0 ≡ ok b
      → (a : A) × ((m s).0 ≡ ok a) × ((m >>= f) s ≡ f a (m s).1)
  unfolding ◌>>=◌
  >>=-ok m f s b h = let (r, s') = m s in continue-ok r f s' b h

  -- The other way round: a first part that is known to return.
  pub >>=-step :
      (m : Exec S E A) (f : A → Exec S E B) (s t : S) (a : A)
      → m s ≡ (ok a, t)
      → (m >>= f) s ≡ f a t
  unfolding ◌>>=◌
  >>=-step m f s t a h = rw h

  pub >>=-fail :
      (m : Exec S E A) (f : A → Exec S E B) (s t : S) (e : E)
      → m s ≡ (err e, t)
      → (m >>= f) s ≡ (err e, t)
  unfolding ◌>>=◌
  >>=-fail m f s t e h = rw h
