-- ===== src/Agent/Run.antt =====
-- internal/agent/agent.go: Run, which reconnects with a delay, and parseDuration. A time.Duration is
-- its number of nanoseconds, as the 64-bit pattern.
use pumpkin_pie.Prelude.{
  ◌≡◌, refl, ℕ, ◌*◌, ◌^◌, String, Bool, true, Option, none, some, List, [], ◌∷◌, ◌<>◌, ◌==◌, any,
  All, nat_eq, ltb, if◌then◌else◌, Bool-cases, inl, inr, arith,
}
use pumpkin_pie.Prelude.Texts.{trim_prefix}
use pumpkin_pie.Exec.{Result, ok, err}

abbrev pub second : ℕ
second = 1000000000

-- defaultContainerPollInterval
abbrev pub default_container_poll_interval : ℕ
default_container_poll_interval = 10000000000

unfoldable pub checked_duration : String → Result String ℕ → Result String ℕ
checked_duration s (err why) = err why
checked_duration s (ok d) = if ltb d (2 ^ 63) then ok d else err ("must be non-negative, got " <> s)

-- parseDuration; `parse` is time.ParseDuration
unfoldable pub parse_duration : (String → Result String ℕ) → String → ℕ → Result String ℕ
unfolding checked_duration
parse_duration parse s default = if s == "" then ok default else checked_duration s (parse s)

-- normalizeAgentVersion
unfoldable pub normalize_agent_version : String → String
unfolding trim_prefix
normalize_agent_version v = trim_prefix v "v"

-- What a round of the loop of Run meets: the error of the context before it, the error with which
-- serve returned and whether that is context.Canceled, and the error of the context if it ends
-- before the delay is over.
pub record Round : Type 0 where
  pub ended : Option String
  pub served : String
  pub is_canceled : Bool
  pub ended_waiting : Option String

unfoldable pub next_backoff : ℕ → ℕ
next_backoff backoff = if ltb backoff (30 * second) then backoff * 2 else 5 * second

-- The delays of Run, with the error that it returned: none if the rounds go on.
abbrev pub Ran : Type 0
Ran = List ℕ × Option String

unfoldable pub after_delay : ℕ → Option String → Ran → Ran
after_delay backoff (some why) rest = (backoff ∷ [], some why)
after_delay backoff none rest = (backoff ∷ rest.0, rest.1)

unfoldable pub after_check : Option String → Round → ℕ → Ran → Ran
unfolding after_delay
after_check (some why) r backoff rest = ([], some why)
after_check none r backoff rest =
    if r.is_canceled then ([], some r.served) else after_delay backoff r.ended_waiting rest

unfoldable pub run_loop : ℕ → List Round → Ran
unfolding next_backoff after_check
run_loop backoff [] = ([], none)
run_loop backoff (r ∷ rs) =
    let rest = run_loop (next_backoff backoff) rs in after_check r.ended r backoff rest

-- Run, with the error of collector.HostInfo
unfoldable pub run : Option String → List Round → Ran
unfolding run_loop
run (some why) rounds = ([], some ("host info: " <> why))
run none rounds = run_loop second rounds

-- The delays that the doubling comes to, in seconds.
abbrev pub delays : List ℕ
delays = 1 ∷ 2 ∷ 4 ∷ 8 ∷ 16 ∷ 32 ∷ 5 ∷ 10 ∷ 20 ∷ 40 ∷ []

abbrev pub IsDelay : ℕ → Type 0
IsDelay d = any (λ n. nat_eq d (n * second)) delays ≡ true

next_backoff-IsDelay : (d : ℕ) → IsDelay d → IsDelay (next_backoff d)
unfolding next_backoff any
next_backoff-IsDelay d h = ground (arith, h)

after_check-IsDelay :
    (o : Option String) (r : Round) (d : ℕ) (rest : Ran)
    → IsDelay d
    → All IsDelay rest.0
    → All IsDelay (after_check o r d rest).0
unfolding after_check after_delay
after_check-IsDelay (some why) r d rest h hs = tt
after_check-IsDelay none r d rest h hs = elim (Bool-cases r.is_canceled) [
  | inl e ↦ rw e tt
  | inr e ↦ rw e (waited r.ended_waiting)
]
  where
    waited : (o : Option String) → All IsDelay (after_delay d o rest).0
    waited (some why) = (h, tt)
    waited none = (h, hs)

run_loop-IsDelay : (d : ℕ) (rs : List Round) → IsDelay d → All IsDelay (run_loop d rs).0
unfolding run_loop
run_loop-IsDelay d [] h = tt
run_loop-IsDelay d (r ∷ rs) h =
    after_check-IsDelay r.ended r d (run_loop (next_backoff d) rs) h
      (run_loop-IsDelay (next_backoff d) rs (next_backoff-IsDelay d h))

-- However serve fails and how often, Run waits before it connects again, for 1, 2, 4, 8, 16, 32, 5,
-- 10, 20 or 40 seconds each time: at least a second, and at most 40, not the 30 of the test.
pub run-IsDelay : (host : Option String) (rounds : List Round) → All IsDelay (run host rounds).0
unfolding run any
run-IsDelay (some why) rounds = tt
run-IsDelay none rounds = run_loop-IsDelay second rounds refl
