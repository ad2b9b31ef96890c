-- ===== src/Identity/Again.antt =====
-- Two loads of the machine's id.
use pumpkin_pie.Prelude.{
  ◌≡◌, refl, ◌∙◌, ap, ℕ, ◌+◌, ◌-◌, String, ◌<>◌, false, ◌==◌, Option, none, some, [], if◌then◌else◌,
  Bool-cases, inl, inr, arith,
}
use pumpkin_pie.Exec.{ok}
use pumpkin_pie.Identity.{Dir, load}

-- A directory whose calls do not fail.
abbrev pub steady : Option String → ℕ → Dir
steady content temps = record { content = content; temps = temps; faults = [] }

-- The id that a directory without failures gives: that of the file, or else the random one.
unfoldable pub id_in : (String → String) → String → Option String → String
id_in trim random none = random
id_in trim random (some b) = if trim b == "" then random else trim b

-- The file after a load.
unfoldable pub file_after : (String → String) → String → Option String → Option String
file_after trim random none = some (random <> "\n")
file_after trim random (some b) = if trim b == "" then some (random <> "\n") else some b

one_more : (n : ℕ) → n + 1 - 1 ≡ n
one_more n = omega arith

pub load-steady :
    (trim : String → String) (random dir : String) (content : Option String) (n : ℕ)
    → (dir == "") ≡ false
    → load trim (ok random) dir (steady content n)
      ≡ (ok (id_in trim random content), steady (file_after trim random content) n)
unfolding load id_in file_after
load-steady trim random dir none n h = rw (h, one_more n) refl
load-steady trim random dir (some b) n h = elim (Bool-cases (trim b == "")) [
  | inl e ↦ rw (h, e, one_more n) refl
  | inr e ↦ rw (h, e) refl
]

found_again :
    (trim : String → String) (random other : String) (content : Option String)
    → trim (random <> "\n") ≡ random
    → (random == "") ≡ false
    → id_in trim other (file_after trim random content) ≡ id_in trim random content
unfolding id_in file_after
found_again trim random other none t h = rw (t, h) refl
found_again trim random other (some b) t h = elim (Bool-cases (trim b == "")) [
  | inl e ↦ rw (e, t, h) refl
  | inr e ↦ rw (e, e) refl
]

-- Where no call fails, a load returns an id, and a load after it returns the same, whatever random
-- id it would have made: the id of the file if there is one, and else the first load's. The random id
-- is not empty, and TrimSpace takes off it no more than the newline behind it.
pub load-again :
    (trim : String → String) (random other dir : String) (content : Option String) (temps : ℕ)
    → (dir == "") ≡ false
    → trim (random <> "\n") ≡ random
    → (random == "") ≡ false
    → ((load trim (ok random) dir (steady content temps)).0 ≡ ok (id_in trim random content))
      × ((load trim (ok other) dir (load trim (ok random) dir (steady content temps)).1).0
          ≡ ok (id_in trim random content))
load-again trim random other dir content n d t h =
    let first = load-steady trim random dir content n d in
    let later = load-steady trim other dir (file_after trim random content) n d in
    (
      ap (λ r. r.0) first,
      ap (λ r. (load trim (ok other) dir r.1).0) first
          ∙ ap (λ r. r.0) later
          ∙ ap ok (found_again trim random other content t h),
    )
