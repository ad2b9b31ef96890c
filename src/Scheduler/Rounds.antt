-- ===== src/Scheduler/Rounds.antt =====
-- One round of the loop of Select in internal/master/scheduler/scheduler.go.
use pumpkin_pie.Prelude.{
  ℕ, ◌+◌, ◌≤◌, ◌≡◌, ◌⊎◌, inl, inr, Bool, true, false, not, ◌&&◌, String, ◌==◌, some, arith, eq_iff,
  Bool-cases,
}
use pumpkin_pie.Store.Tables.{Node}
use pumpkin_pie.Float.{FloatOps}
use pumpkin_pie.Scheduler.{
  ResourceRequest, Search, free_gpus_on, float_zero, score, lacks_gpus, lacks_cpu, lacks_memory,
  offer, visit,
}

module _ (ops : FloatOps) (req : ResourceRequest) (gpu_used : String → ℕ) where
  open ops use {lt, of_uint, infinity}

  -- A node that can take the request: it is online, it has that many GPUs without a reservation,
  -- and as far as it has reported them, enough cores and memory.
  pub record Fits (n : Node) : Type 0 where
    pub online : n.state ≡ "online"
    pub gpus : (req.gpu_count ≡ 0) ⊎ (req.gpu_count + gpu_used n.id ≤ n.gpu_count)
    pub cores :
        lt float_zero req.cpu_cores ≡ true
        → lt float_zero (of_uint n.cpu_cores) ≡ true
        → lt (of_uint n.cpu_cores) req.cpu_cores ≡ false
    pub memory : (n.mem_total_bytes ≡ 0) ⊎ (req.memory_bytes ≤ n.mem_total_bytes)

  -- The tests of the loop, all passed.
  unfoldable pub passes : Node → Bool
  unfolding lacks_gpus lacks_cpu lacks_memory
  passes n =
      n.state == "online"
      && (not (lacks_gpus ops req gpu_used n)
          && (not (lacks_cpu ops req n) && not (lacks_memory ops req n)))

  pub Fits-of_passes : (n : Node) → passes n ≡ true → Fits n
  unfolding passes free_gpus_on
  Fits-of_passes n h = record {
    online = ground (arith, eq_iff n.state "online");
    gpus = ground arith;
    cores = λ a b. ground arith;
    memory = ground arith;
  }

  pub passes_of_Fits : (n : Node) → Fits n → passes n ≡ true
  unfolding passes free_gpus_on
  passes_of_Fits n f = ground (arith, eq_iff n.state "online", f.cores)

  visit-passes :
      (n : Node) (s : Search ops)
      → passes n ≡ true
      → ((visit ops req gpu_used n s).best ≡ (offer ops n s).best)
        × ((visit ops req gpu_used n s).best_score ≡ (offer ops n s).best_score)
  unfolding passes visit offer
  visit-passes n s h = ground arith

  visit-fails :
      (n : Node) (s : Search ops)
      → passes n ≡ false
      → ((visit ops req gpu_used n s).best ≡ s.best)
        × ((visit ops req gpu_used n s).best_score ≡ s.best_score)
  unfolding passes visit
  visit-fails n s h = ground arith

  -- What one round does: nothing, or it takes a node that passes and has a lower score.
  abbrev pub Kept : Search ops → Search ops → Type 0
  Kept s s' = (s'.best ≡ s.best) × (s'.best_score ≡ s.best_score)

  abbrev pub Taken : Node → Search ops → Search ops → Type 0
  Taken n s s' =
      (passes n ≡ true)
      × (lt (score ops n) s.best_score ≡ true)
      × (s'.best ≡ some n)
      × (s'.best_score ≡ score ops n)

  pub visit-cases :
      (n : Node) (s : Search ops)
      → (Kept s (visit ops req gpu_used n s)
          × (passes n ≡ true → lt (score ops n) s.best_score ≡ false))
        ⊎ Taken n s (visit ops req gpu_used n s)
  unfolding offer
  visit-cases n s = elim (Bool-cases (passes n)) [
    | inl p ↦
        let (b, c) = visit-passes n s p in
        elim (Bool-cases (lt (score ops n) s.best_score)) [
          | inl l ↦ inr (p, l, rw l at b, rw l at c)
          | inr l ↦ inl ((rw l at b, rw l at c), λ _. l)
        ]
    | inr p ↦ inl (visit-fails n s p, λ q. absurd (cc (p, q)))
  ]
