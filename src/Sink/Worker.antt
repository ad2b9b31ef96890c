-- ===== src/Sink/Worker.antt =====
-- internal/master/agentmgr/manager.go: sinkLoop, which hands the queued metrics to the sink.
use pumpkin_pie.Prelude.{◌≡◌, refl, ℕ, zero, suc, List, [], ◌∷◌, take}
use pumpkin_pie.AgentMgr.State.{Metric, Manager}
use pumpkin_pie.Sink.{Sink, write_to}

module _ {T D : Type 0} (sink : Sink T D) (now : ℕ) where
  -- A round: the oldest metric is taken off the channel, and an error of its write is only logged.
  unfoldable pub sink_round : List Metric → Manager × D → Manager × D
  unfolding write_to
  sink_round [] (m, d) = (m, d)
  sink_round (metric ∷ waiting) (m, d) =
      (record m { sink_queue = waiting }, (write_to sink now metric d).1)

  -- The rounds until the context ends; an empty channel is waited on.
  unfoldable pub sink_loop : ℕ → Manager × D → Manager × D
  unfolding sink_round
  sink_loop zero s = s
  sink_loop (suc rounds) s = sink_loop rounds (sink_round s.0.sink_queue s)

  unfoldable pub write_all : List Metric → D → D
  unfolding write_to
  write_all [] d = d
  write_all (metric ∷ metrics) d = write_all metrics (write_to sink now metric d).1

  sink_loop-queue :
      (rounds : ℕ) (queue : List Metric) (m : Manager) (d : D)
      → (sink_loop rounds (record m { sink_queue = queue }, d)).1 ≡ write_all (take rounds queue) d
  unfolding sink_loop sink_round write_all take
  sink_loop-queue zero queue m d = refl
  sink_loop-queue (suc rounds) [] m d = idle rounds
    where
      idle : (k : ℕ) → (sink_loop k (record m { sink_queue = [] }, d)).1 ≡ d
      idle zero = refl
      idle (suc k) = idle k
  sink_loop-queue (suc rounds) (metric ∷ queue) m d =
      sink_loop-queue rounds queue m (write_to sink now metric d).1

  -- The metrics reach the sink in the order in which they were queued, each once, also behind one
  -- whose write failed.
  pub sink_loop-order :
      (rounds : ℕ) (m : Manager) (d : D)
      → (sink_loop rounds (m, d)).1 ≡ write_all (take rounds m.sink_queue) d
  sink_loop-order rounds m d = sink_loop-queue rounds m.sink_queue m d
