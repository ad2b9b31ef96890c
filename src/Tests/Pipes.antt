-- ===== src/Tests/Pipes.antt =====
-- A connection through the proxy.
use pumpkin_pie.Prelude.{ℕ, ◌+◌, ◌*◌, ◌≤◌, refl, ◌⊎◌, true, false, List, [], ◌∷◌, length}
use pumpkin_pie.Proxy.Pipe.{
  Flow, copying, copied, reads, writes, ends, Bridge, Step, copies_forth, copies_back,
  finishes_forth, finish_forth, Piped, still, moved, HasReturned, bridge_of, flow_of,
}
use pumpkin_pie.Proxy.Pipe.Delivered.{Delivered, pipe-Delivered}
use pumpkin_pie.Proxy.Pipe.Ended.{steps, pipe-HasReturned}

-- One side sends two bytes and ends, the other side one byte of three.
abbrev begun : Bridge
begun = bridge_of true true (7 ∷ 8 ∷ []) (9 ∷ 9 ∷ 9 ∷ [])

abbrev flow : List ℕ → List ℕ → List ℕ → Flow
flow unread held written = record {
  unread = unread;
  held = held;
  written = written;
  stage = copying;
  failed = false;
  cut = false;
}

abbrev bridge : Flow → Flow → Bridge
bridge forth back = record {
  forth = forth;
  back = back;
  a_half_closes = true;
  b_half_closes = true;
}

abbrev done : Flow
done = record (flow [] [] (7 ∷ 8 ∷ [])) { stage = copied }

abbrev waiting : Flow
waiting = flow (9 ∷ 9 ∷ []) (9 ∷ []) []

under_way : Piped begun (finish_forth (bridge done waiting))
unfolding bridge_of flow_of
under_way =
    moved
      (moved
        (moved
          (moved
            (moved still (
              copies_forth _ (flow [] (7 ∷ 8 ∷ []) []) (reads _ 7 (8 ∷ []) [] refl refl refl refl)))
            (copies_back _ waiting (reads _ 9 [] (9 ∷ 9 ∷ []) refl refl refl refl)))
          (copies_forth _ (flow [] [] (7 ∷ 8 ∷ [])) (writes _ 7 (8 ∷ []) refl refl)))
        (copies_forth _ done (ends _ refl refl refl refl)))
      (finishes_forth (bridge done waiting) refl)

pipe-Delivered_example :
    Delivered (7 ∷ 8 ∷ []) (finish_forth (bridge done waiting)).forth
    × Delivered (9 ∷ 9 ∷ 9 ∷ []) (finish_forth (bridge done waiting)).back
pipe-Delivered_example =
    pipe-Delivered true true (7 ∷ 8 ∷ []) (9 ∷ 9 ∷ 9 ∷ []) (finish_forth (bridge done waiting))
      under_way

pipe-HasReturned_example :
    (steps under_way ≤ 2 * (length {A = ℕ} (7 ∷ 8 ∷ []) + length {A = ℕ} (9 ∷ 9 ∷ 9 ∷ [])) + 4)
    × (HasReturned (finish_forth (bridge done waiting))
        ⊎ ((q : Bridge) × Step (finish_forth (bridge done waiting)) q))
pipe-HasReturned_example =
    pipe-HasReturned true true (7 ∷ 8 ∷ []) (9 ∷ 9 ∷ 9 ∷ []) (finish_forth (bridge done waiting))
      under_way
