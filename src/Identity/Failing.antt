-- ===== src/Identity/Failing.antt =====
-- A load of the machine's id that fails.
use pumpkin_pie.Prelude.{
  ◌≡◌, refl, ap, ℕ, ◌+◌, ◌≤◌, ◌⊎◌, String, ◌<>◌, ◌==◌, Option, none, some, List, [], ◌∷◌,
  Bool-cases, List-cases, inl, inr, arith,
}
use pumpkin_pie.Exec.{Result, ok, err, Exec, continue}
use pumpkin_pie.Identity.{
  Dir, outcome, call, left, or_clean, clean_up_temp, after_remove, removed, renamed, rename,
  close_temp, chmod_temp, write_temp, write_atomic, written, save, generated, on_content, load,
}

-- How many of the next calls fail.
unfoldable pub failures : List (Option String) → ℕ
failures [] = 0
failures (none ∷ fs) = failures fs
failures (some why ∷ fs) = failures fs + 1

-- The directory has this file and this many temporary ones, and at most this many of its next
-- calls fail.
abbrev Has : Option String → ℕ → ℕ → Dir → Type 0
Has content temps fails s = (s.content ≡ content) × (s.temps ≡ temps) × (failures s.faults ≤ fails)

-- What a step that failed leaves: the file, and no temporary file more, or one more after two
-- failures.
abbrev Leaves : Option String → ℕ → ℕ → Dir → Type 0
Leaves content temps fails s =
    (s.content ≡ content)
    × ((s.temps ≡ temps) ⊎ ((s.temps ≡ temps + 1) × (failures s.faults + 2 ≤ fails)))

abbrev Undone : {A : Type 0} → Option String → ℕ → ℕ → Result String A × Dir → Type 0
Undone content temps fails r = (why : String) → r.0 ≡ err why → Leaves content temps fails r.1

-- A call that fails has used up one of the failures.
abbrev Called : Option String → ℕ → ℕ → Result String Unit × Dir → Type 0
Called c n k (ok done, s) = Has c n k s
Called c n k (err why, s) = (s.content ≡ c) × (s.temps ≡ n) × (failures s.faults + 1 ≤ k)

call-Called :
    (c : Option String) (n k : ℕ) (label : String) (s : Dir)
    → Has c n k s
    → Called c n k (call label s)
unfolding call outcome failures
call-Called c n k label s (h, e, f) = elim (List-cases s.faults) [
  | inl g ↦ rw g (h, e, omega arith)
  | inr (none, fs, g) ↦ rw g (h, e, rw g at f)
  | inr (some why, fs, g) ↦ rw g (h, e, rw g at f)
]

-- A call that failed, before there was a temporary file.
Leaves-of_Called :
    (c : Option String) (n k : ℕ) (why : String) (s : Dir)
    → Called c n k (err why, s)
    → Leaves c n k s
Leaves-of_Called c n k why s (h, e, f) = (h, inl e)

clean_up_temp-Leaves :
    (c : Option String) (n k : ℕ) (s : Dir)
    → (s.content ≡ c) × (s.temps ≡ n + 1) × (failures s.faults + 1 ≤ k)
    → Leaves c n k (clean_up_temp s)
unfolding clean_up_temp call outcome after_remove removed failures
clean_up_temp-Leaves c n k s (h, e, f) = elim (List-cases s.faults) [
  | inl g ↦ rw g (h, inl (rw e (omega arith)))
  | inr (none, fs, g) ↦ rw g (h, inl (rw e (omega arith)))
  | inr (some why, fs, g) ↦ rw g (h, inr (e, let f' = rw g at f in omega arith))
]

or_clean-Undone :
    (c : Option String) (n k : ℕ) (r : Result String Unit) (next : Exec Dir String Unit) (s : Dir)
    → Called c (n + 1) k (r, s)
    → ((t : Dir) → Has c (n + 1) k t → Undone c n k (next t))
    → Undone c n k (or_clean r next s)
unfolding or_clean
or_clean-Undone c n k (ok done) next s h go = go s h
or_clean-Undone c n k (err why) next s h go = λ w f. clean_up_temp-Leaves c n k s h

rename-Undone :
    (c : Option String) (n k : ℕ) (path content : String) (s : Dir)
    → Has c (n + 1) k s
    → Undone c n k (rename path content s)
unfolding rename
rename-Undone c n k path content s h =
    let (r, s') = call ("rename to " <> path <> ": ") s in
    or_clean-Undone c n k r (λ s. (ok tt, renamed content s)) s'
      (call-Called c (n + 1) k ("rename to " <> path <> ": ") s h)
      (λ t g why e. absurd (ground (arith, e)))

close_temp-Undone :
    (c : Option String) (n k : ℕ) (path content : String) (s : Dir)
    → Has c (n + 1) k s
    → Undone c n k (close_temp path content s)
unfolding close_temp
close_temp-Undone c n k path content s h =
    let (r, s') = call "close temp: " s in
    or_clean-Undone c n k r (rename path content) s' (call-Called c (n + 1) k "close temp: " s h)
      (rename-Undone c n k path content)

chmod_temp-Undone :
    (c : Option String) (n k : ℕ) (path content : String) (s : Dir)
    → Has c (n + 1) k s
    → Undone c n k (chmod_temp path content s)
unfolding chmod_temp
chmod_temp-Undone c n k path content s h =
    let (r, s') = call "chmod temp: " s in
    or_clean-Undone c n k r (close_temp path content) s'
      (call-Called c (n + 1) k "chmod temp: " s h) (close_temp-Undone c n k path content)

write_temp-Undone :
    (c : Option String) (n k : ℕ) (path content : String) (s : Dir)
    → Has c (n + 1) k s
    → Undone c n k (write_temp path content s)
unfolding write_temp
write_temp-Undone c n k path content s h =
    let (r, s') = call "write temp: " s in
    or_clean-Undone c n k r (chmod_temp path content) s'
      (call-Called c (n + 1) k "write temp: " s h) (chmod_temp-Undone c n k path content)

-- A step of Load before there is a temporary file, and what follows it.
continue-Undone :
    {A : Type 0} (c : Option String) (n k : ℕ) (r : Result String Unit) (next : Exec Dir String A)
    (s : Dir)
    → Called c n k (r, s)
    → (Has c n k s → Undone c n k (next s))
    → Undone c n k (continue r (λ _. next) s)
continue-Undone c n k (ok done) next s h go = go h
continue-Undone c n k (err why) next s h go = λ w e. Leaves-of_Called c n k why s h

left-Has : (c : Option String) (n k : ℕ) (s : Dir) → Has c n k s → Has c (n + 1) k (left s)
unfolding left
left-Has c n k s (h, e, f) = (h, ap (λ x. x + 1) e, f)

write_atomic-Undone :
    (c : Option String) (n k : ℕ) (path content : String) (s : Dir)
    → Has c n k s
    → Undone c n k (write_atomic path content s)
unfolding write_atomic
write_atomic-Undone c n k path content s h =
    let (r, s') = call "create temp: " s in
    continue-Undone c n k r (λ t. write_temp path content (left t)) s'
      (call-Called c n k "create temp: " s h)
      (λ g. write_temp-Undone c n k path content (left s') (left-Has c n k s' g))

written-Undone :
    (c : Option String) (n k : ℕ) (id : String) (r : Result String Unit) (s : Dir)
    → Undone c n k (r, s)
    → Undone c n k (written id r s)
unfolding written
written-Undone c n k id (ok done) s h = λ why e. absurd (ground (arith, e))
written-Undone c n k id (err why) s h = λ w e. h why refl

generated-Undone :
    (c : Option String) (n k : ℕ) (path : String) (random : Result String String) (s : Dir)
    → Has c n k s
    → Undone c n k (generated path random s)
unfolding generated save
generated-Undone c n k path (err why) s (h, e, f) = λ w g. (h, inl e)
generated-Undone c n k path (ok id) s h =
    let (r, s') = write_atomic path id s in
    written-Undone c n k id r s' (write_atomic-Undone c n k path id s h)

on_content-Undone :
    (trim : String → String) (c : Option String) (n k : ℕ) (path : String)
    (random : Result String String) (o : Option String) (s : Dir)
    → Has c n k s
    → Undone c n k (on_content trim path random o s)
unfolding on_content
on_content-Undone trim c n k path random none s h = generated-Undone c n k path random s h
on_content-Undone trim c n k path random (some b) s h = elim (Bool-cases (trim b == "")) [
  | inl e ↦ rw e (generated-Undone c n k path random s h)
  | inr e ↦ rw e (λ w f. (h.0, inl h.1))
]

load-Undone :
    (trim : String → String) (random : Result String String) (dir : String) (s : Dir)
    → Undone s.content s.temps (failures s.faults) (load trim random dir s)
unfolding load
load-Undone trim random dir s =
    let path = dir <> "/machine-id" in
    let c = s.content in
    let n = s.temps in
    let k = failures s.faults in
    let (made, s₁) = call ("mkdir " <> dir <> ": ") s in
    let (readable, s₂) = call ("read " <> path <> ": ") s₁ in
    let first = call-Called c n k ("mkdir " <> dir <> ": ") s (refl, refl, omega arith) in
    elim (Bool-cases (dir == "")) [
      | inl e ↦ rw e (λ w f. (refl, inl refl))
      | inr e ↦ rw e (
          continue-Undone c n k made
            (λ t.
              let (r, t') = call ("read " <> path <> ": ") t in
              continue r (λ _. on_content trim path random t'.content) t')
            s₁ first
            (λ g.
              continue-Undone c n k readable (on_content trim path random s₂.content) s₂
                (call-Called c n k ("read " <> path <> ": ") s₁ g)
                (on_content-Undone trim c n k path random s₂.content s₂)))
    ]

-- A load that fails, at whatever call, has left the file as it was, so that the id of a machine is
-- never half written. It leaves no temporary file behind unless the removal of it failed too: then
-- it leaves one, and at least two calls of the system have failed.
pub load-failed :
    (trim : String → String) (random : Result String String) (dir why : String) (s : Dir)
    → (load trim random dir s).0 ≡ err why
    → let after = (load trim random dir s).1 in
      (after.content ≡ s.content)
      × ((after.temps ≡ s.temps)
          ⊎ ((after.temps ≡ s.temps + 1) × (failures after.faults + 2 ≤ failures s.faults)))
load-failed trim random dir why s h = load-Undone trim random dir s why h
