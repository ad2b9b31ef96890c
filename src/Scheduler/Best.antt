-- ===== src/Scheduler/Best.antt =====
-- Select of internal/master/scheduler/scheduler.go returns a node that fits with the lowest score.
use mathlib.Core.List.{Memᴰ}
use pumpkin_pie.Prelude.{
  ℕ, ◌≡◌, ◌↔◌, refl, sym, subst, ◌∙◌, ◌⊎◌, inl, inr, true, false, String, some, List, [], ◌∷◌,
  arith, All, Bool-cases,
}
use pumpkin_pie.Exec.{ok, err}
use pumpkin_pie.Store.Tables.{Node, Float64}
use pumpkin_pie.Float.{FloatOps, IsStrict}
use pumpkin_pie.Scheduler.{
  ResourceRequest, SelectError, Search, score, start, visit, visit_all, settle_search, choose_node,
  rejection_error,
}
use pumpkin_pie.Scheduler.Rounds.{
  Fits, passes, Fits-of_passes, passes_of_Fits, Kept, Taken, visit-cases,
}

module _ (ops : FloatOps) (req : ResourceRequest) (gpu_used : String → ℕ) where
  open ops use {lt, infinity}

  module _ (strict : IsStrict ops) where
    -- What is not below the best score so far is not below a later one.
    lt_false_trans : (x a b : Float64) → lt b a ≡ true → lt x a ≡ false → lt x b ≡ false
    lt_false_trans x a b h k = elim (Bool-cases (lt x b)) [
      | inl l ↦ absurd (cc (strict.trans x b a l h, k))
      | inr l ↦ l
    ]

    visit-lowers :
        (n : Node) (s : Search ops) (x : Float64)
        → lt x s.best_score ≡ false
        → lt x (visit ops req gpu_used n s).best_score ≡ false
    visit-lowers n s x h = elim (visit-cases ops req gpu_used n s) [
      | inl ((_, same), _) ↦ rw same h
      | inr (_, lower, _, now) ↦ rw now (lt_false_trans x s.best_score (score ops n) lower h)
    ]

    visit-beats :
        (n : Node) (s : Search ops)
        → passes ops req gpu_used n ≡ true
        → lt (score ops n) (visit ops req gpu_used n s).best_score ≡ false
    visit-beats n s p = elim (visit-cases ops req gpu_used n s) [
      | inl ((_, same), worse) ↦ rw same (worse p)
      | inr (_, _, _, now) ↦ rw now (strict.irrefl (score ops n))
    ]

    lowers :
        (ns : List Node) (s : Search ops) (x : Float64)
        → lt x s.best_score ≡ false
        → lt x (visit_all ops req gpu_used ns s).best_score ≡ false
    unfolding visit_all
    lowers [] s x h = h
    lowers (n ∷ ns) s x h = lowers ns (visit ops req gpu_used n s) x (visit-lowers n s x h)

    beats-All :
        (ns : List Node) (s : Search ops)
        → All
            (λ m.
              Fits ops req gpu_used m
              → lt (score ops m) (visit_all ops req gpu_used ns s).best_score ≡ false)
            ns
    unfolding visit_all
    beats-All [] s = tt
    beats-All (n ∷ ns) s =
        let s' = visit ops req gpu_used n s in
        (
          λ f. lowers ns s' (score ops n) (visit-beats n s (passes_of_Fits ops req gpu_used n f)),
          beats-All ns s',
        )

    -- Where the best node comes from.
    abbrev Source : List Node → Search ops → Search ops → Type 0
    Source ns s s' =
        Kept ops req gpu_used s s'
        ⊎ ((n : Node) × Memᴰ n ns
            × Fits ops req gpu_used n
            × (lt (score ops n) s.best_score ≡ true)
            × (s'.best ≡ some n)
            × (s'.best_score ≡ score ops n))

    Source-cons :
        (n : Node) (ns : List Node) (s s' s'' : Search ops)
        → (Kept ops req gpu_used s s') ⊎ Taken ops req gpu_used n s s'
        → Source ns s' s''
        → Source (n ∷ ns) s s''
    Source-cons n ns s s' s'' (inl (b, c)) (inl (b', c')) = inl (b' ∙ b, c' ∙ c)
    Source-cons n ns s s' s'' (inl (b, c)) (inr (m, at, f, l, b', c')) =
        inr (m, Memᴰ.tail at, f, rw c at l, b', c')
    Source-cons n ns s s' s'' (inr (p, l, b, c)) (inl (b', c')) =
        inr (n, Memᴰ.head refl, Fits-of_passes ops req gpu_used n p, l, b' ∙ b, c' ∙ c)
    Source-cons n ns s s' s'' (inr (p, l, b, c)) (inr (m, at, f, l', b', c')) = inr (
      m,
      Memᴰ.tail at,
      f,
      strict.trans (score ops m) (score ops n) s.best_score (rw c at l') l,
      b',
      c',
    )

    round :
        (n : Node) (s : Search ops)
        → (Kept ops req gpu_used s (visit ops req gpu_used n s))
          ⊎ Taken ops req gpu_used n s (visit ops req gpu_used n s)
    round n s = elim (visit-cases ops req gpu_used n s) [ inl (k, _) ↦ inl k | inr t ↦ inr t ]

    source : (ns : List Node) (s : Search ops) → Source ns s (visit_all ops req gpu_used ns s)
    unfolding visit_all
    source [] s = inl (refl, refl)
    source (n ∷ ns) s =
        let s' = visit ops req gpu_used n s in
        Source-cons n ns s s' (visit_all ops req gpu_used ns s') (round n s) (source ns s')

    at_node :
        (m : Node) (ns : List Node)
        → Memᴰ m ns
        → All (λ k. Fits ops req gpu_used k → lt (score ops k) infinity ≡ false) ns
        → Fits ops req gpu_used m
        → lt (score ops m) infinity ≡ false
    at_node m [] at all f = elim at [ ]
    at_node m (n ∷ ns) (Memᴰ.head e) all f =
        subst (λ k. lt (score ops k) infinity ≡ false) (sym e)
          (all.0 (subst (Fits ops req gpu_used) e f))
    at_node m (n ∷ ns) (Memᴰ.tail at) all f = at_node m ns at all.1 f

    -- The loop returns a node of the list that fits the request, and no node of the list that fits
    -- has a lower score.
    pub choose_node-best :
        (ns : List Node) (n : Node)
        → choose_node ops req gpu_used ns ≡ ok n
        → Memᴰ n ns
          × Fits ops req gpu_used n
          × All (λ m. Fits ops req gpu_used m → lt (score ops m) (score ops n) ≡ false) ns
    unfolding choose_node settle_search start
    choose_node-best ns n h =
        let s = visit_all ops req gpu_used ns (start ops) in
        elim (source ns (start ops)) [
          | inl (b, _) ↦ absurd (ground arith)
          | inr (m, at, f, _, b, c) ↦
              let same : m ≡ n = ground arith in
              subst
                (λ (k : Node).
                  Memᴰ k ns
                  × Fits ops req gpu_used k
                  × All (λ x. Fits ops req gpu_used x → lt (score ops x) (score ops k) ≡ false) ns)
                same (at, f, rw c at (beats-All ns (start ops)))
        ]

    -- It fails exactly where no node of the list that fits has a score below +Inf.
    pub choose_node-none :
        (ns : List Node)
        → ((e : SelectError) × (choose_node ops req gpu_used ns ≡ err e))
          ↔ All (λ m. Fits ops req gpu_used m → lt (score ops m) infinity ≡ false) ns
    unfolding choose_node settle_search start
    choose_node-none ns = (refused, refuses)
      where
        refused :
            ((e : SelectError) × (choose_node ops req gpu_used ns ≡ err e))
            → All (λ m. Fits ops req gpu_used m → lt (score ops m) infinity ≡ false) ns
        refused (e, h) = elim (source ns (start ops)) [
          | inl (_, c) ↦ rw c at (beats-All ns (start ops))
          | inr (m, at, f, _, b, c) ↦ absurd (ground arith)
        ]

        refuses :
            All (λ m. Fits ops req gpu_used m → lt (score ops m) infinity ≡ false) ns
            → (e : SelectError) × (choose_node ops req gpu_used ns ≡ err e)
        refuses all = elim (source ns (start ops)) [
          | inl (b, _) ↦ (
            rejection_error ops req (visit_all ops req gpu_used ns (start ops)).stats,
            ground arith,
          )
          | inr (m, at, f, l, _, _) ↦ absurd (cc (l, at_node m ns at all f))
        ]
