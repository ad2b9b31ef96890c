-- ===== src/Store/Gpus/Laws.antt =====
-- What AllocGPUs, AllocSpecificGPUs and FreeGPUs of internal/master/store/store.go promise.
use pumpkin_pie.Prelude.{
  ℕ, zero, suc, ◌≤◌, ◌≡◌, refl, sym, ap, ap₂, subst, ◌∙◌, String, List, [], ◌∷◌, take, length, ltb,
  arith, inl, inr, Bool-cases,
}
use pumpkin_pie.Exec.{Result, ok, err, pure, raise, ◌>>=◌, ◌>>◌}
use pumpkin_pie.Exec.Inversion.{>>=-ok}
use pumpkin_pie.Store.Tables.{Db, Time, Error}
use pumpkin_pie.Store.Sql.{query}
use pumpkin_pie.Store.Sql.Keeps.{transaction-unchanged}
use pumpkin_pie.Store.Sql.Inversion.{transaction-ok, query-ok}
use pumpkin_pie.Store.Gpus.{
  used_indices, choose, reserve, reserve_chosen, alloc_gpus, alloc_specific_gpus,
}
use pumpkin_pie.Store.Gpus.Choice.{free_indices, choose-free_indices}
use pumpkin_pie.Store.Gpus.Booking.{book, booked, IsBookable, reserve-Reserved}

length-take-le {ℓ} : {A : Type ℓ} (n : ℕ) (xs : List A) → length (take n xs) ≤ n
unfolding take
length-take-le zero xs = omega arith
length-take-le (suc n) [] = omega arith
length-take-le (suc n) (x ∷ xs) = omega (arith, length-take-le n xs)

module _ (now : Time) (node container : String) where
  -- A call of AllocGPUs that fails, at any point, has changed no table.
  pub alloc_gpus-unchanged :
      (count total : ℕ) (db : Db) (e : Error)
      → (alloc_gpus now node container count total db).0 ≡ err e
      → (alloc_gpus now node container count total db).1.tables ≡ db.tables
  unfolding alloc_gpus pure
  alloc_gpus-unchanged zero total db e h = refl
  alloc_gpus-unchanged (suc n) total db e h = transaction-unchanged _ db e h

  -- A call of AllocSpecificGPUs that fails, at any point, has changed no table.
  pub alloc_specific_gpus-unchanged :
      (indices : List ℕ) (db : Db) (e : Error)
      → (alloc_specific_gpus now node container indices db).0 ≡ err e
      → (alloc_specific_gpus now node container indices db).1.tables ≡ db.tables
  unfolding alloc_specific_gpus pure
  alloc_specific_gpus-unchanged [] db e h = refl
  alloc_specific_gpus-unchanged (i ∷ is) db e h = transaction-unchanged _ db e h

  -- AllocSpecificGPUs returns only if every index was free on the node and none came twice, and
  -- then exactly these indices are booked for the container, and nothing else has changed.
  pub alloc_specific_gpus-ok :
      (indices : List ℕ) (db : Db)
      → (alloc_specific_gpus now node container indices db).0 ≡ ok tt
      → IsBookable now node container indices db.tables
        × ((alloc_specific_gpus now node container indices db).1.tables
            ≡ booked now node container indices db.tables)
  unfolding alloc_specific_gpus pure book
  alloc_specific_gpus-ok [] db h = (tt, refl)
  alloc_specific_gpus-ok (i ∷ is) db h =
      let (start, same, ran, left) = transaction-ok (reserve now node container (i ∷ is)) db tt h in
      let r = reserve-Reserved now node container (i ∷ is) start ran in
      (
        subst (IsBookable now node container (i ∷ is)) same r.bookable,
        left ∙ r.rows ∙ ap (booked now node container (i ∷ is)) same,
      )

  inserted-ok :
      (chosen got : List ℕ) (db : Db)
      → ((reserve now node container chosen >> pure chosen) db).0 ≡ ok got
      → (got ≡ chosen)
        × (((reserve now node container chosen >> pure chosen) db).1.tables
            ≡ booked now node container chosen db.tables)
  unfolding pure
  inserted-ok chosen got db h =
      let loop = reserve now node container chosen in
      let (u, finished, e) = >>=-ok loop (λ _. pure chosen) db got h in
      let r = reserve-Reserved now node container chosen db finished in
      (cc (h, e), ap (λ (p : Result Error (List ℕ) × Db). p.1.tables) e ∙ r.rows)

  reserve_chosen-ok :
      (count total : ℕ) (chosen got : List ℕ) (db : Db)
      → (reserve_chosen now node container count total chosen db).0 ≡ ok got
      → (count ≤ length chosen)
        × (got ≡ chosen)
        × ((reserve_chosen now node container count total chosen db).1.tables
            ≡ booked now node container chosen db.tables)
  unfolding reserve_chosen raise
  reserve_chosen-ok count total chosen got db h = elim (Bool-cases (ltb (length chosen) count)) [
    | inl few ↦ absurd (cc (rw (few, reserve_chosen) at h))
    | inr enough ↦
        let h' : ((reserve now node container chosen >> pure chosen) db).0 ≡ ok got =
          rw (enough, reserve_chosen) at h in
        let (same, tables) = inserted-ok chosen got db h' in
        (ground arith, same, rw (enough, reserve_chosen) tables)
  ]

  -- AllocGPUs with a positive count returns only the lowest free indices of the node below the
  -- total, exactly as many as asked for and in ascending order; they are then booked for the
  -- container, and nothing else has changed.
  pub alloc_gpus-ok :
      (n total : ℕ) (got : List ℕ) (db : Db)
      → (alloc_gpus now node container (suc n) total db).0 ≡ ok got
      → (got ≡ take (suc n) (free_indices node total db.tables))
        × (length got ≡ suc n)
        × ((alloc_gpus now node container (suc n) total db).1.tables
            ≡ booked now node container got db.tables)
  unfolding alloc_gpus
  alloc_gpus-ok n total got db h =
      let read = query (used_indices node) in
      let body = λ (used : List ℕ).
        reserve_chosen now node container (suc n) total (choose used 0 total (suc n)) in
      let (start, same, ran, left) = transaction-ok (read >>= body) db got h in
      let (used, answered, e) = >>=-ok read body start got ran in
      let (columns, kept) = query-ok (used_indices node) start used answered in
      let chosen = choose used 0 total (suc n) in
      let ran' : (body used (read start).1).0 ≡ ok got =
        ap (λ (p : Result Error (List ℕ) × Db). p.0) (sym e) ∙ ran in
      let (enough, picked, tables) =
        reserve_chosen-ok (suc n) total chosen got (read start).1 ran' in
      let lowest : chosen ≡ take (suc n) (free_indices node total db.tables) =
        ap (λ (u : List ℕ). choose u 0 total (suc n)) (sym columns ∙ ap (used_indices node) same)
        ∙ choose-free_indices node total (suc n) db.tables in
      (
        picked ∙ lowest,
        omega (
          arith,
          ap length picked,
          ap length lowest,
          length-take-le (suc n) (free_indices node total db.tables),
        ),
        left
            ∙ ap (λ (p : Result Error (List ℕ) × Db). p.1.tables) e
            ∙ tables
            ∙ ap₂ (booked now node container) (sym picked) (kept ∙ same),
      )
