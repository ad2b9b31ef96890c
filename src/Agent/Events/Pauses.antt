-- ===== src/Agent/Events/Pauses.antt =====
-- The pauses between the calls of Events.
use pumpkin_pie.Prelude.{
  ◌≡◌, refl, length-append, ℕ, ◌*◌, ◌+◌, ◌≤◌, String, Bool, true, false, ◌⊎◌, inl, inr, List, [],
  ◌∷◌, Bool-cases, keep, length, arith, ltb, nat_eq, ◌==◌, ◌∙◌,
}
use pumpkin_pie.Exec.{Result, ok, err, continue}
use pumpkin_pie.Agent.Run.{second}
use pumpkin_pie.Agent.{send}
use pumpkin_pie.Agent.States.{map_docker_action_to_state}
use pumpkin_pie.Agent.Poll.{report}
use pumpkin_pie.Agent.Events.{
  unix_milli, Watch, Attempt, Watched, EventsRound, Subscription, ContainerEvent, refused, streamed,
  attempted, backoff_for, events_backoff, quiet_backoff, failed_at, note_events_failure, seen_at,
  or_leave, forward, forward_all, on_stream, on_refusal, subscribe, docker_events_loop,
}

-- How many calls in a row failed or closed, after one more; a stream that opens starts the count
-- again, with its own close as the first.
unfoldable pub streak : ℕ → Subscription → ℕ
streak n (refused now) = n + 1
streak n (streamed es now) = 1

-- The pause after a call: none where a stream opened; where the call was refused 2 seconds, or a
-- minute, the latter only from the third failure in a row on.
abbrev pub Pace : ℕ → Subscription → ℕ → Type 0
Pace n (refused now) pause =
    (pause ≡ 2 * second) ⊎ ((pause ≡ 60 * second) × (3 ≤ streak n (refused now)))
Pace n (streamed es now) pause = pause ≡ 0

-- The calls that were made, each with the pause after it, are those of the first rounds.
abbrev pub Paced : ℕ → List EventsRound → List Attempt → Type 0
Paced n rs [] = Unit
Paced n [] (a ∷ as') = ⊥
Paced n (r ∷ rs) (a ∷ as') = Pace n r.subscription a.pause × Paced (streak n r.subscription) rs as'

-- The loop's variables after this many failures in a row.
abbrev Counts : ℕ → Watch → Type 0
Counts n w = (length w.recent_fails ≤ n) × (w.quiet ≡ true → 3 ≤ n)

length-keep_le : {A : Type 0} (p : A → Bool) (xs : List A) → length (keep p xs) ≤ length xs
unfolding keep
length-keep_le p [] = omega arith
length-keep_le p (x ∷ xs) = ground (arith, length-keep_le p xs)

failed_at-Counts : (n now : ℕ) (w : Watch) → Counts n w → Counts (n + 1) (failed_at now w)
unfolding failed_at note_events_failure
failed_at-Counts n now w (few, quiet) =
    let fresh = keep (λ t. ltb now (t + 30000000000)) w.recent_fails in
    let fewer = length-keep_le (λ t. ltb now (t + 30000000000)) w.recent_fails in
    let one = length-append fresh (now ∷ []) in (omega arith, λ h. ground (arith, quiet, h))

-- The events of a stream leave the failures as they are.
abbrev Same : Watch → Watch → Type 0
Same w w' = (w'.recent_fails ≡ w.recent_fails) × (w'.quiet ≡ w.quiet)

or_leave-Same :
    (e : ContainerEvent) (r : Result String Unit) (w : Watch) → Same w (or_leave e r w).1
unfolding or_leave seen_at
or_leave-Same e (err why) w = (refl, refl)
or_leave-Same e (ok done) w = elim (Bool-cases (nat_eq e.at 0)) [
  | inl f ↦ rw f (refl, refl)
  | inr f ↦ rw f (refl, refl)
]

forward-Same : (e : ContainerEvent) (w : Watch) → Same w (forward e w).1
unfolding forward
forward-Same e w =
    let (state, status) = map_docker_action_to_state e.action in
    let message = report (unix_milli e.at) e.container_id e.id e.action state status in
    elim (Bool-cases (e.container_id == "")) [
      | inl f ↦ rw f (refl, refl)
      | inr f ↦ elim (Bool-cases (state == "")) [
        | inl g ↦ rw (f, g) (refl, refl)
        | inr g ↦
            rw (f, g)
              (or_leave-Same e (send message w.agent).0
                (record w { agent = (send message w.agent).1 }))
      ]
    ]

continue-Same :
    (r : Result String Unit) (es : List ContainerEvent) (w w' : Watch)
    → Same w w'
    → Same w' (forward_all es w').1
    → Same w (continue r (λ _. forward_all es) w').1
continue-Same (err why) es w w' h k = h
continue-Same (ok done) es w w' (a, b) (c, d) = (c ∙ a, d ∙ b)

forward_all-Same : (es : List ContainerEvent) (w : Watch) → Same w (forward_all es w).1
unfolding forward_all
forward_all-Same [] w = (refl, refl)
forward_all-Same (e ∷ es) w =
    continue-Same (forward e w).0 es w (forward e w).1 (forward-Same e w)
      (forward_all-Same es (forward e w).1)

backoff_for-Pace :
    (n now : ℕ) (quiet : Bool)
    → (quiet ≡ true → 3 ≤ n + 1)
    → Pace n (refused now) (backoff_for events_backoff quiet quiet_backoff)
unfolding backoff_for streak
backoff_for-Pace n now true h = inr (refl, h refl)
backoff_for-Pace n now false h = inl refl

-- What follows this many failures is paced.
abbrev Follows : ℕ → List EventsRound → (Watch → Watched) → Type 0
Follows n rs next = (w : Watch) → Counts n w → Paced n rs (next w).0

on_stream-Paced :
    (n now : ℕ) (es : List ContainerEvent) (ended ended_after : Bool) (rs : List EventsRound)
    (r : Result String Unit × Watch) (next : Watch → Watched) (w : Watch)
    → Counts 0 r.1
    → Follows 1 rs next
    → Paced n
        (record { ended = ended; subscription = streamed es now; ended_after = ended_after } ∷ rs)
        (on_stream now ended_after r next w).0
unfolding on_stream attempted streak
on_stream-Paced n now es ended stop rs (err why, w') next w h k = (refl, tt)
on_stream-Paced n now es ended true rs (ok done, w') next w h k = (refl, tt)
on_stream-Paced n now es ended false rs (ok done, w') next w h k =
    (refl, k (failed_at now w') (failed_at-Counts 0 now w' h))

subscribe-Paced :
    (n : ℕ) (ended ended_after : Bool) (s : Subscription) (rs : List EventsRound)
    (next : Watch → Watched) (w : Watch)
    → Counts n w
    → Follows (streak n s) rs next
    → Paced n
        (record { ended = ended; subscription = s; ended_after = ended_after } ∷ rs)
        (subscribe s ended_after next w).0
unfolding subscribe on_refusal attempted streak
subscribe-Paced n ended true (refused now) rs next w h k =
    let w' = failed_at now w in (backoff_for-Pace n now w'.quiet (failed_at-Counts n now w h).1, tt)
subscribe-Paced n ended false (refused now) rs next w h k =
    let w' = failed_at now w in
    let h' = failed_at-Counts n now w h in (backoff_for-Pace n now w'.quiet h'.1, k w' h')
subscribe-Paced n ended stop (streamed es now) rs next w h k =
    let opened = record w { recent_fails = []; quiet = false } in
    let (none_failed, loud) = forward_all-Same es opened in
    on_stream-Paced n now es ended stop rs (forward_all es opened) next w
      (rw none_failed (omega arith), λ q. absurd (cc (loud, q))) k

loop-Paced : (rs : List EventsRound) (n : ℕ) → Follows n rs (docker_events_loop rs)
unfolding docker_events_loop
loop-Paced [] n w h = tt
loop-Paced (r ∷ rs) n w h = elim (Bool-cases r.ended) [
  | inl e ↦ rw e tt
  | inr e ↦ rw e (
      subscribe-Paced n false r.ended_after r.subscription rs (docker_events_loop rs) w h
        (loop-Paced rs (streak n r.subscription)))
]

-- Whatever Docker answers, the loop makes its calls of Events round by round. After a call that is
-- refused it pauses for 2 seconds, or for a minute, the latter only if the call is at least the third
-- failure since a stream last opened, its close counted as the first; after a stream that opened it
-- does not pause at all, so that nothing limits how often a stream that closes at once is opened
-- again. The loop starts with no failures noted.
pub docker_events_loop-Paced :
    (rs : List EventsRound) (w : Watch)
    → w.recent_fails ≡ []
    → w.quiet ≡ false
    → Paced 0 rs (docker_events_loop rs w).0
docker_events_loop-Paced rs w none_failed loud =
    loop-Paced rs 0 w (rw none_failed (omega arith), λ q. absurd (cc (loud, q)))
