-- ===== src/Api/Websocket.antt =====
-- internal/master/api/api.go: the websockets of the dashboards, which read one channel of updates.
use pumpkin_pie.Prelude.{
  ◌≡◌, refl, sym, ap, ◌∙◌, ◌⊎◌, inl, inr, ℕ, suc, ◌≤◌, String, Bool, true, false, Option, none,
  some, List, [], ◌∷◌, ◌++◌, length, arith,
}
use pumpkin_pie.Store.Tables.{Node, Time, Float64}
use pumpkin_pie.AgentMgr.State.{NodeUpdate, Manager}

-- The "metrics" of a message.
pub record Shown : Type 0 where
  pub cpu_percent : Float64
  pub cpu_cores : ℕ
  pub mem_used_bytes : ℕ
  pub mem_total_bytes : ℕ
  pub load1 : Float64
  pub gpu_count : ℕ
  pub gpu_mem_used_bytes : ℕ
  pub gpu_mem_total_bytes : ℕ
  pub gpu_usage_percent : Float64

pub record Message : Type 0 where
  pub node_id : String
  pub kind : String
  pub at_time : Time
  pub metrics : Option Shown

unfoldable pub shown_of : Option Node → Option Shown
shown_of none = none
shown_of (some n) = some (record {
  cpu_percent = n.cpu_percent;
  cpu_cores = n.cpu_cores;
  mem_used_bytes = n.mem_used_bytes;
  mem_total_bytes = n.mem_total_bytes;
  load1 = n.load1;
  gpu_count = n.gpu_count;
  gpu_mem_used_bytes = n.gpu_mem_used;
  gpu_mem_total_bytes = n.gpu_mem_total;
  gpu_usage_percent = n.gpu_usage_avg;
})

unfoldable pub message_of : NodeUpdate → Message
unfolding shown_of
message_of u = record {
  node_id = u.node_id;
  kind = u.kind;
  at_time = u.at_time;
  metrics = shown_of u.snapshot;
}

-- The channel of the manager, and what was written on which connection, the newest first.
pub record Feed : Type 0 where
  pub manager : Manager
  pub written : List (ℕ × Message)

-- A round of the loop of one connection: the next update is taken off the channel, and written
-- unless WriteJSON fails. An empty channel is waited on.
unfoldable pub relay : List NodeUpdate → ℕ → Bool → Feed → Feed
unfolding message_of
relay [] connection fails s = s
relay (u ∷ us) connection true s = record s { manager = record s.manager { updates = us } }
relay (u ∷ us) connection false s = record {
  manager = record s.manager { updates = us };
  written = (connection, message_of u) ∷ s.written;
}

unfoldable pub relay_next : ℕ × Bool → Feed → Feed
unfolding relay
relay_next (connection, fails) s = relay s.manager.updates connection fails s

-- The rounds of all connections, in the order in which they happen.
unfoldable pub relay_all : List (ℕ × Bool) → Feed → Feed
unfolding relay_next
relay_all [] s = s
relay_all (r ∷ rs) s = relay_all rs (relay_next r s)

-- From one state of what was written to another, these updates were taken off the channel, in this
-- order: each was written once, on one connection, or was lost with a failing write, and `lost` of
-- them were.
pub data Shows
    : (lost : ℕ) (taken : List NodeUpdate) (before after : List (ℕ × Message)) → Type 0 where
  none_taken : (w : List (ℕ × Message)) → Shows 0 [] w w
  shown :
      (connection lost : ℕ) (u : NodeUpdate) (taken : List NodeUpdate)
      (before after : List (ℕ × Message))
      → Shows lost taken ((connection, message_of u) ∷ before) after
      → Shows lost (u ∷ taken) before after
  dropped :
      (lost : ℕ) (u : NodeUpdate) (taken : List NodeUpdate) (before after : List (ℕ × Message))
      → Shows lost taken before after
      → Shows (suc lost) (u ∷ taken) before after

-- How many of the rounds have a write that fails.
unfoldable pub failing : List (ℕ × Bool) → ℕ
failing [] = 0
failing ((connection, true) ∷ rounds) = suc (failing rounds)
failing ((connection, false) ∷ rounds) = failing rounds

-- What rounds do to the channel and the connections.
abbrev pub Relays : List (ℕ × Bool) → Feed → Feed → Type 0
Relays rounds s s' =
    (lost : ℕ) × (taken : List NodeUpdate) × (s.manager.updates ≡ taken ++ s'.manager.updates)
    × Shows lost taken s.written s'.written
    × (lost ≤ failing rounds)
    × ((length taken ≡ length rounds) ⊎ (s'.manager.updates ≡ []))

empty_behind : (taken rest : List NodeUpdate) → [] ≡ taken ++ rest → rest ≡ []
empty_behind [] rest e = sym e
empty_behind (u ∷ taken) rest e = absurd (cc e)

round-Relays :
    (connection : ℕ) (fails : Bool) (rounds : List (ℕ × Bool)) (us : List NodeUpdate)
    (s after : Feed)
    → s.manager.updates ≡ us
    → Relays rounds (relay us connection fails s) after
    → Relays ((connection, fails) ∷ rounds) s after
unfolding relay failing
round-Relays c true rounds [] s after e (lost, taken, split, shows, few, all) = (
  lost,
  taken,
  split,
  shows,
  omega arith,
  inr (empty_behind taken after.manager.updates (sym e ∙ split)),
)
round-Relays c false rounds [] s after e (lost, taken, split, shows, few, all) =
    (lost, taken, split, shows, few, inr (empty_behind taken after.manager.updates (sym e ∙ split)))
round-Relays c true rounds (u ∷ us) s after e (lost, taken, split, shows, few, all) = (
  suc lost,
  u ∷ taken,
  e ∙ ap (λ vs. u ∷ vs) split,
  dropped lost u taken s.written after.written shows,
  omega arith,
  elim all [ inl l ↦ inl (omega arith) | inr none_left ↦ inr none_left ],
)
round-Relays c false rounds (u ∷ us) s after e (lost, taken, split, shows, few, all) = (
  lost,
  u ∷ taken,
  e ∙ ap (λ vs. u ∷ vs) split,
  shown c lost u taken s.written after.written shows,
  few,
  elim all [ inl l ↦ inl (omega arith) | inr none_left ↦ inr none_left ],
)

-- However many dashboards are connected and in whatever order they read, the updates of the channel
-- are taken off it in their order, one in each round as long as there are any; each is written on one
-- connection, once, in that order, or is lost, and no more are lost than writes fail.
pub relay_all-Relays : (rounds : List (ℕ × Bool)) (s : Feed) → Relays rounds s (relay_all rounds s)
unfolding relay_all relay_next
relay_all-Relays [] s = (0, [], refl, none_taken s.written, omega arith, inl refl)
relay_all-Relays ((connection, fails) ∷ rounds) s =
    round-Relays connection fails rounds s.manager.updates s
      (relay_all rounds (relay s.manager.updates connection fails s)) refl
      (relay_all-Relays rounds (relay s.manager.updates connection fails s))
