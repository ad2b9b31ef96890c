-- ===== src/Proxy/Pipe/Delivered.antt =====
-- internal/master/proxy/proxy.go: what pipe delivers.
use pumpkin_pie.Prelude.{
  ℕ, ◌≡◌, refl, sym, ap, ◌∙◌, ◌⊎◌, inl, inr, Bool, true, false, List, [], ◌++◌,
}
use mathlib.Core.List.{append_assoc, append-nil}
use pumpkin_pie.Proxy.Pipe.{
  copying, copied, finished, Flow, Copy, reads, writes, ends, read_fails, write_fails, Bridge,
  close_write, finish_forth, finish_back, Step, copies_forth, copies_back, finishes_forth,
  finishes_back, Piped, still, moved, flow_of, bridge_of,
}

-- The bytes of the source are written, held or unread, in this order; and io.Copy has returned
-- without an error only at the end of the source.
pub record IsInOrder (source : List ℕ) (f : Flow) : Type 0 where
  pub bytes : f.written ++ (f.held ++ f.unread) ≡ source
  pub whole : (f.stage ≡ copying) ⊎ (f.failed ≡ true) ⊎ ((f.held ≡ []) × (f.unread ≡ []))

Copy-IsInOrder : {source : List ℕ} {f g : Flow} → Copy f g → IsInOrder source f → IsInOrder source g
Copy-IsInOrder (reads f b bs rest s c h u) v = record {
  bytes = ap (λ xs. f.written ++ xs) (sym u ∙ ap (λ held. held ++ f.unread) (sym h)) ∙ v.bytes;
  whole = inl s;
}
Copy-IsInOrder (writes f b bs s h) v = record {
  bytes = append_assoc f.written f.held f.unread ∙ v.bytes;
  whole = inl s;
}
Copy-IsInOrder (ends f s c h u) v = record { bytes = v.bytes; whole = inr (inr (h, u)) }
Copy-IsInOrder (read_fails f s h) v = record { bytes = v.bytes; whole = inr (inl refl) }
Copy-IsInOrder (write_fails f sent lost s h) v = record {
  bytes =
      append_assoc f.written sent (lost ++ f.unread)
      ∙ ap (λ xs. f.written ++ xs)
          (sym (append_assoc sent lost f.unread) ∙ ap (λ held. held ++ f.unread) (sym h))
      ∙ v.bytes;
  whole = inr (inl refl);
}

close_write-IsInOrder :
    {source : List ℕ} (half_closes : Bool) {f : Flow}
    → IsInOrder source f
    → IsInOrder source (close_write half_closes f)
unfolding close_write
close_write-IsInOrder true v = v
close_write-IsInOrder false v = record { bytes = v.bytes; whole = v.whole }

finished-IsInOrder :
    {source : List ℕ} {f : Flow}
    → f.stage ≡ copied
    → IsInOrder source f
    → IsInOrder source (record f { stage = finished })
finished-IsInOrder {source} {f} s v = record { bytes = v.bytes; whole = inr (past_copying v.whole) }
  where
    past_copying : {P : Type 0} → (f.stage ≡ copying) ⊎ P → P
    past_copying (inl c) = absurd (cc (c, s))
    past_copying (inr p) = p

pub record IsFaithful (forth back : List ℕ) (p : Bridge) : Type 0 where
  pub forth_order : IsInOrder forth p.forth
  pub back_order : IsInOrder back p.back

Step-IsFaithful :
    {forth back : List ℕ} {p q : Bridge}
    → Step p q
    → IsFaithful forth back p
    → IsFaithful forth back q
unfolding finish_forth finish_back
Step-IsFaithful (copies_forth p f c) v = record {
  forth_order = Copy-IsInOrder c v.forth_order;
  back_order = v.back_order;
}
Step-IsFaithful (copies_back p f c) v = record {
  forth_order = v.forth_order;
  back_order = Copy-IsInOrder c v.back_order;
}
Step-IsFaithful (finishes_forth p s) v = record {
  forth_order = finished-IsInOrder s v.forth_order;
  back_order = close_write-IsInOrder p.b_half_closes v.back_order;
}
Step-IsFaithful (finishes_back p s) v = record {
  forth_order = close_write-IsInOrder p.a_half_closes v.forth_order;
  back_order = finished-IsInOrder s v.back_order;
}

Piped-IsFaithful :
    {forth back : List ℕ} {p q : Bridge}
    → Piped p q
    → IsFaithful forth back p
    → IsFaithful forth back q
Piped-IsFaithful still v = v
Piped-IsFaithful (moved run step) v = Step-IsFaithful step (Piped-IsFaithful run v)

-- What one side was sent: a beginning of what the other sent, and all of it unless a read or a
-- write failed.
abbrev pub Delivered : List ℕ → Flow → Type 0
Delivered source f =
    ((rest : List ℕ) × (f.written ++ rest ≡ source))
    × ((f.stage ≡ copying) ⊎ (f.failed ≡ true) ⊎ (f.written ≡ source))

IsInOrder-Delivered : {source : List ℕ} {f : Flow} → IsInOrder source f → Delivered source f
IsInOrder-Delivered {source} {f} v = ((f.held ++ f.unread, v.bytes), settled v.whole)
  where
    settled :
        (f.stage ≡ copying) ⊎ (f.failed ≡ true) ⊎ ((f.held ≡ []) × (f.unread ≡ []))
        → (f.stage ≡ copying) ⊎ (f.failed ≡ true) ⊎ (f.written ≡ source)
    settled (inl c) = inl c
    settled (inr (inl e)) = inr (inl e)
    settled (inr (inr (h, u))) = inr (
        inr (
          sym (append-nil f.written)
          ∙ ap (λ xs. f.written ++ xs) (sym (ap (λ held. held ++ f.unread) h ∙ u))
          ∙ v.bytes))

-- However the two goroutines of pipe and the peers move: what was written to either side is, byte
-- for byte, a beginning of what the other side sent, and once a direction's io.Copy has returned
-- without an error it is all of it.
pub pipe-Delivered :
    (a b : Bool) (forth back : List ℕ) (p : Bridge)
    → Piped (bridge_of a b forth back) p
    → Delivered forth p.forth × Delivered back p.back
unfolding bridge_of flow_of
pipe-Delivered a b forth back p run =
    let v = Piped-IsFaithful {forth = forth} {back = back} run (record {
      forth_order = record { bytes = refl; whole = inl refl };
      back_order = record { bytes = refl; whole = inl refl };
    }) in
    (IsInOrder-Delivered v.forth_order, IsInOrder-Delivered v.back_order)
