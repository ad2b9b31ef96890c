-- ===== src/Proxy/Pipe/Ended.antt =====
-- internal/master/proxy/proxy.go: that pipe returns.
use pumpkin_pie.Prelude.{
  ℕ, suc, ◌+◌, ◌*◌, ◌≤◌, ◌<◌, ◌≡◌, refl, ap, ◌⊎◌, inl, inr, Bool, true, false, List, [], ◌∷◌,
  length, length-append, Bool-cases, List-cases, arith,
}
use pumpkin_pie.Proxy.Pipe.{
  Stage, copying, copied, finished, Flow, Copy, reads, writes, ends, read_fails, write_fails,
  Bridge, close_write, finish_forth, finish_back, Step, copies_forth, copies_back, finishes_forth,
  finishes_back, Piped, still, moved, HasReturned, flow_of, bridge_of,
}

abbrev weight : Stage → ℕ
weight copying = 2
weight copied = 1
weight finished = 0

-- What is left to do for a direction.
rank : Flow → ℕ
rank f = 2 * length f.unread + length f.held + weight f.stage

Copy-rank : {f g : Flow} → Copy f g → rank g < rank f
unfolding rank
Copy-rank (reads f b bs rest s c h u) =
    omega (arith, ap length u, ap length h, length-append {0} (b ∷ bs) rest)
Copy-rank (writes f b bs s h) = omega (arith, ap length h)
Copy-rank (ends f s c h u) = omega (arith, ap weight s)
Copy-rank (read_fails f s h) = omega (arith, ap weight s)
Copy-rank (write_fails f sent lost s h) =
    omega (arith, ap weight s, ap length h, length-append {0} sent lost)

close_write-rank : (half_closes : Bool) (f : Flow) → rank (close_write half_closes f) ≡ rank f
unfolding close_write rank
close_write-rank true f = refl
close_write-rank false f = refl

finished-rank : (f : Flow) → f.stage ≡ copied → rank (record f { stage = finished }) < rank f
unfolding rank
finished-rank f s = omega (arith, ap weight s)

Step-rank : {p q : Bridge} → Step p q → rank q.forth + rank q.back < rank p.forth + rank p.back
unfolding finish_forth finish_back
Step-rank (copies_forth p f c) = omega (arith, Copy-rank c)
Step-rank (copies_back p f c) = omega (arith, Copy-rank c)
Step-rank (finishes_forth p s) =
    omega (arith, finished-rank p.forth s, close_write-rank p.b_half_closes p.back)
Step-rank (finishes_back p s) =
    omega (arith, finished-rank p.back s, close_write-rank p.a_half_closes p.forth)

unfoldable pub steps : {p q : Bridge} → Piped p q → ℕ
steps still = 0
steps (moved run step) = suc (steps run)

Piped-rank :
    {p q : Bridge} (run : Piped p q)
    → steps run + rank q.forth + rank q.back ≤ rank p.forth + rank p.back
unfolding steps
Piped-rank still = omega arith
Piped-rank (moved run step) = omega (arith, Piped-rank run, Step-rank step)

Stage-cases : (s : Stage) → (s ≡ copying) ⊎ (s ≡ copied) ⊎ (s ≡ finished)
Stage-cases copying = inl refl
Stage-cases copied = inr (inl refl)
Stage-cases finished = inr (inr refl)

-- io.Copy that has not returned can go on.
Copy-next : (f : Flow) → f.stage ≡ copying → (g : Flow) × Copy f g
Copy-next f s = elim (List-cases f.held) [
  | inr (b, bs, h) ↦ (_, writes f b bs s h)
  | inl h ↦ elim (Bool-cases f.cut) [
    | inl c ↦ (_, read_fails f s h)
    | inr c ↦ elim (List-cases f.unread) [
      | inl u ↦ (_, ends f s c h u)
      | inr (b, rest, u) ↦ (_, reads f b [] rest s c h u)
    ]
  ]
]

Step-next : (p : Bridge) → HasReturned p ⊎ ((q : Bridge) × Step p q)
Step-next p = elim (Stage-cases p.forth.stage) [
  | inl c ↦ let (f, step) = Copy-next p.forth c in inr (_, copies_forth p f step)
  | inr (inl c) ↦ inr (_, finishes_forth p c)
  | inr (inr d) ↦ elim (Stage-cases p.back.stage) [
    | inl c ↦ let (f, step) = Copy-next p.back c in inr (_, copies_back p f step)
    | inr (inl c) ↦ inr (_, finishes_back p c)
    | inr (inr e) ↦ inl (d, e)
  ]
]

-- A call of pipe on connections whose peers end after some bytes is over after at most two steps
-- for each byte and four more, however the goroutines and the peers move, and until it returns
-- there is a step that it can make.
pub pipe-HasReturned :
    (a b : Bool) (forth back : List ℕ) (p : Bridge) (run : Piped (bridge_of a b forth back) p)
    → (steps run ≤ 2 * (length forth + length back) + 4)
      × (HasReturned p ⊎ ((q : Bridge) × Step p q))
unfolding bridge_of flow_of rank
pipe-HasReturned a b forth back p run = (omega (arith, Piped-rank run), Step-next p)
