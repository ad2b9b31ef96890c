-- ===== src/Collector/Partitions.antt =====
-- The partitions that a node reports.
use Prim.Native.String.{compare}
use text.Mathlib.Text.{is_lt}
use pumpkin_pie.Prelude.{
  ◌≡◌, refl, sym, ap, ◌∙◌, String, Bool, true, false, not, ◌||◌, ◌==◌, List, [], ◌∷◌, map, any,
  keep, All, Bool-cases, inl, inr, arith, eq_iff,
}
use pumpkin_pie.Prelude.Rows.{Distinct, All-every, All-keep_test}
use pumpkin_pie.Prelude.Dicts.{Dict, lookup, insert}
use pumpkin_pie.Collector.Mounts.{
  PartitionStat, is_ignored, device_key, is_better, best_of, insert_by_mount, sort_by_mount,
  filter_partitions,
}

-- Two partitions of one device.
unfoldable pub same_device : PartitionStat → PartitionStat → Bool
same_device p q = device_key p == device_key q

same_device_sym : (p q : PartitionStat) → same_device p q ≡ same_device q p
unfolding same_device
same_device_sym p q =
    ground (arith, eq_iff (device_key p) (device_key q), eq_iff (device_key q) (device_key p))

any-insert_by_mount :
    (f : PartitionStat → Bool) (p : PartitionStat) (qs : List PartitionStat)
    → any f (insert_by_mount p qs) ≡ f p || any f qs
unfolding any insert_by_mount
any-insert_by_mount f p [] = refl
any-insert_by_mount f p (q ∷ qs) = ground (arith, any-insert_by_mount f p qs)

Distinct-insert_by_mount :
    (p : PartitionStat) (qs : List PartitionStat)
    → any (same_device p) qs ≡ false
    → Distinct same_device qs
    → Distinct same_device (insert_by_mount p qs)
unfolding any insert_by_mount
Distinct-insert_by_mount p [] h d = (refl, tt)
Distinct-insert_by_mount p (q ∷ qs) h (e, d) =
    elim (Bool-cases (is_lt (compare q.mountpoint p.mountpoint))) [
      | inl f ↦ rw f (
        any-insert_by_mount (same_device q) p qs ∙ ground (arith, h, e, same_device_sym q p),
        Distinct-insert_by_mount p qs (ground (arith, h)) d,
      )
      | inr f ↦ rw f (h, (e, d))
    ]

any-sort_by_mount :
    (f : PartitionStat → Bool) (ps : List PartitionStat) → any f (sort_by_mount ps) ≡ any f ps
unfolding any sort_by_mount
any-sort_by_mount f [] = refl
any-sort_by_mount f (p ∷ ps) =
    any-insert_by_mount f p (sort_by_mount ps) ∙ ap (λ b. f p || b) (any-sort_by_mount f ps)

Distinct-sort_by_mount :
    (ps : List PartitionStat) → Distinct same_device ps → Distinct same_device (sort_by_mount ps)
unfolding sort_by_mount
Distinct-sort_by_mount [] d = tt
Distinct-sort_by_mount (p ∷ ps) (e, d) =
    Distinct-insert_by_mount p (sort_by_mount ps) (any-sort_by_mount (same_device p) ps ∙ e)
      (Distinct-sort_by_mount ps d)

-- The map of the best partitions: an entry has the key of its partition, and no key occurs twice.
abbrev pub same_key : String × PartitionStat → String × PartitionStat → Bool
same_key e f = e.0 == f.0

abbrev pub IsKeyed : String × PartitionStat → Type 0
IsKeyed e = e.0 ≡ device_key e.1

any_key-insert :
    (j k : String) (p : PartitionStat) (m : Dict PartitionStat)
    → any (λ e. j == e.0) (insert k p m) ≡ (j == k) || any (λ e. j == e.0) m
unfolding any insert
any_key-insert j k p [] = refl
any_key-insert j k p ((i, q) ∷ m) =
    ground (arith, any_key-insert j k p m, eq_iff i k, eq_iff j k, eq_iff j i, eq_iff i j)

Distinct-insert :
    (k : String) (p : PartitionStat) (m : Dict PartitionStat)
    → Distinct same_key m
    → Distinct same_key (insert k p m)
unfolding any insert
Distinct-insert k p [] d = (refl, tt)
Distinct-insert k p ((i, q) ∷ m) (e, d) = elim (Bool-cases (i == k)) [
  | inl f ↦ rw f (ap (λ x. any (λ e. x == e.0) m) (sym ((eq_iff i k).0 f)) ∙ e, d)
  | inr f ↦ rw f (any_key-insert i k p m ∙ ground (arith, f, e), Distinct-insert k p m d)
]

All-insert :
    (P : String × PartitionStat → Type 0) (k : String) (p : PartitionStat) (m : Dict PartitionStat)
    → P (k, p)
    → All P m
    → All P (insert k p m)
unfolding insert
All-insert P k p [] h hs = (h, tt)
All-insert P k p ((i, q) ∷ m) h (g, hs) = elim (Bool-cases (i == k)) [
  | inl f ↦ rw f (h, hs)
  | inr f ↦ rw f (g, All-insert P k p m h hs)
]

spared : (b : Bool) → not b ≡ true → b ≡ false
spared b h = ground (arith, h)

module _ (lower : String → String) where
  abbrev pub IsKept : PartitionStat → Type 0
  IsKept p = is_ignored lower p ≡ false

  abbrev pub IsEntry : String × PartitionStat → Type 0
  IsEntry e = IsKeyed e × IsKept e.1

  best_of-Distinct :
      (ps : List PartitionStat) (m : Dict PartitionStat)
      → All IsKept ps
      → Distinct same_key m
      → All IsEntry m
      → (Distinct same_key (best_of ps m)) × (All IsEntry (best_of ps m))
  unfolding best_of
  best_of-Distinct [] m k d h = (d, h)
  best_of-Distinct (p ∷ ps) m (k, ks) d h =
      elim (Bool-cases (is_better p (lookup (device_key p) m))) [
        | inl e ↦ rw e (
            best_of-Distinct ps (insert (device_key p) p m) ks
              (Distinct-insert (device_key p) p m d)
              (All-insert IsEntry (device_key p) p m (refl, k) h))
        | inr e ↦ rw e (best_of-Distinct ps m ks d h)
      ]

  any-values :
      (k : String) (m : Dict PartitionStat)
      → All IsEntry m
      → any (λ p. k == device_key p) (map (λ e. e.1) m) ≡ any (λ e. k == e.0) m
  unfolding any
  any-values k [] h = refl
  any-values k (e ∷ m) ((g, kept), h) = rw (g, any-values k m h) refl

  Distinct-values :
      (m : Dict PartitionStat)
      → Distinct same_key m
      → All IsEntry m
      → (Distinct same_device (map (λ e. e.1) m)) × (All IsKept (map (λ e. e.1) m))
  unfolding same_device
  Distinct-values [] d h = (tt, tt)
  Distinct-values (e ∷ m) (f, d) ((g, kept), h) =
      let (ds, ks) = Distinct-values m d h in
      (
        (any-values (device_key e.1) m h ∙ ap (λ x. any (λ y. x == y.0) m) (sym g) ∙ f, ds),
        (kept, ks),
      )

  All-insert_by_mount :
      (p : PartitionStat) (qs : List PartitionStat)
      → IsKept p
      → All IsKept qs
      → All IsKept (insert_by_mount p qs)
  unfolding insert_by_mount
  All-insert_by_mount p [] k ks = (k, tt)
  All-insert_by_mount p (q ∷ qs) k (h, ks) =
      elim (Bool-cases (is_lt (compare q.mountpoint p.mountpoint))) [
        | inl f ↦ rw f (h, All-insert_by_mount p qs k ks)
        | inr f ↦ rw f (k, (h, ks))
      ]

  All-sort_by_mount : (ps : List PartitionStat) → All IsKept ps → All IsKept (sort_by_mount ps)
  unfolding sort_by_mount
  All-sort_by_mount [] k = tt
  All-sort_by_mount (p ∷ ps) (k, ks) =
      All-insert_by_mount p (sort_by_mount ps) k (All-sort_by_mount ps ks)

  -- The partitions that a node reports: none has an ignored mountpoint or type of file system, and
  -- no two are of one device.
  pub filter_partitions-Distinct :
      (parts : List PartitionStat)
      → (Distinct same_device (filter_partitions lower parts))
        × (All IsKept (filter_partitions lower parts))
  unfolding filter_partitions
  filter_partitions-Distinct parts =
      let kept = keep (λ p. not (is_ignored lower p)) parts in
      let ok : All IsKept kept =
        All-keep_test (λ p. Unit {0}) IsKept (λ p. not (is_ignored lower p)) parts
          (λ p h u. spared (is_ignored lower p) h) (All-every (λ p. Unit {0}) parts (λ p. tt)) in
      let (d, h) = best_of-Distinct kept [] ok tt tt in
      let (ds, ks) = Distinct-values (best_of kept []) d h in
      (
        Distinct-sort_by_mount (map (λ e. e.1) (best_of kept [])) ds,
        All-sort_by_mount (map (λ e. e.1) (best_of kept [])) ks,
      )
