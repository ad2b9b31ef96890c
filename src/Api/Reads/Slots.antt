-- ===== src/Api/Reads/Slots.antt =====
-- The GPUs that listNodeGPUs shows as held.
use pumpkin_pie.Prelude.{
  ◌≡◌, refl, ap, ◌∙◌, ℕ, String, Bool, true, false, ◌||◌, ◌==◌, Option, none, some, List, [], ◌∷◌,
  map, any, keep, nat_eq, Bool-cases, inl, inr,
}
use pumpkin_pie.Store.Tables.{Tables, GpuRow}
use pumpkin_pie.Store.Statements.{is_slot}
use pumpkin_pie.Store.Gpus.{GpuAlloc, joined, gpu_allocs, any-sort_asc}
use pumpkin_pie.Api.Reads.{ReportedGpu, or_alloc, by_index, slot}

unfoldable pub is_held : Option GpuAlloc → Bool
is_held none = false
is_held (some a) = true

held_or_alloc :
    (o : Option GpuAlloc) (here : Bool) (a : GpuAlloc)
    → is_held (or_alloc o here a) ≡ here || is_held o
unfolding is_held or_alloc
held_or_alloc none true a = refl
held_or_alloc none false a = refl
held_or_alloc (some b) true a = refl
held_or_alloc (some b) false a = refl

by_index-any :
    (allocs : List GpuAlloc) (i : ℕ)
    → is_held (by_index allocs i) ≡ any (λ a. nat_eq a.index i) allocs
unfolding by_index any is_held
by_index-any [] i = refl
by_index-any (a ∷ later) i =
    held_or_alloc (by_index later i) (nat_eq a.index i) a
    ∙ ap (λ b. nat_eq a.index i || b) (by_index-any later i)

any-joined :
    (t : Tables) (node : String) (i : ℕ) (rs : List GpuRow)
    → any (λ a. nat_eq a.index i) (map (joined t) (keep (λ r. r.node_id == node) rs))
      ≡ any (is_slot node i) rs
unfolding any keep joined is_slot
any-joined t node i [] = refl
any-joined t node i (r ∷ rs) = elim (Bool-cases (r.node_id == node)) [
  | inl e ↦ rw (e, any-joined t node i rs) refl
  | inr e ↦ rw (e, any-joined t node i rs) refl
]

by_index-held :
    (node : String) (i : ℕ) (t : Tables)
    → is_held (by_index (gpu_allocs node t) i) ≡ any (is_slot node i) t.gpu_alloc
unfolding gpu_allocs
by_index-held node i t =
    by_index-any (gpu_allocs node t) i
    ∙ any-sort_asc (λ a. nat_eq a.index i) (λ a. a.index)
        (map (joined t) (keep (λ r. r.node_id == node) t.gpu_alloc))
    ∙ any-joined t node i t.gpu_alloc

-- listNodeGPUs shows a GPU as held exactly if the store has a reservation of it, whichever node
-- and index are asked for; a reservation whose container has no row counts too.
pub slot-held :
    (reported : List ReportedGpu) (node : String) (i : ℕ) (t : Tables)
    → is_held (slot reported (gpu_allocs node t) i).held_by ≡ any (is_slot node i) t.gpu_alloc
unfolding slot
slot-held reported node i t = by_index-held node i t
